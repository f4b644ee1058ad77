-- ===== src/Packed/Names/Lower.antt =====
-- cmd/seekfs/packed_records.go: what `lowerNameAt` reads after `setName` and `setLowerName`, the pair of
-- calls that `Set` and `Append` make.
use seekfs.Common.{
  ℕ, ◌+◌, ◌^◌, ◌<◌, ◌≡◌, ◌≢◌, refl, ap, sym, ◌∙◌, Bool-cases, true, false, inl, inr, List, ◌++◌,
  length, length-take, get_or, set, take, ltb, leb, ◌==◌, if◌then◌else◌, arith, length-append,
  length-set, get_or-set,
}
use seekfs.Packed.Record.{PackedRecords, len, uint32}
use seekfs.Packed.Names.Defs.{
  name_at, set_name, lower_name_at, read_lower, set_lower_name, bytes_eq, packed_lower_same_as_name,
}
use seekfs.Packed.Names.Blobs.{span_end, take_all, clipped_short, bytes_eq_sound}
use seekfs.Packed.Names.Laws.{NamesValid, opened, len_after, name_at-set_name_row}

module _ (to_lower : List ℕ → List ℕ) (q : PackedRecords) (i : ℕ) (name : List ℕ)
    (hi : i < length q.lower_offs) (room : length q.lower_blob < packed_lower_same_as_name)
    (at : name_at q i ≡ name) (n : get_or q.name_lens i 0 ≡ length name)
    (short : length (to_lower name) < 2 ^ 16) where
  same_row :
      lower_name_at to_lower
        (record q { lower_offs = set q.lower_offs i packed_lower_same_as_name })
        i
      ≡ name
  unfolding lower_name_at read_lower name_at
  same_row =
      rw (get_or-set q.lower_offs i packed_lower_same_as_name i 0, length-set)
        (ground (arith, hi, at))

  at_after :
      (offs : List ℕ)
      → name_at (record q { lower_offs = offs; lower_blob = q.lower_blob ++ to_lower name }) i
        ≡ name
  unfolding name_at
  at_after offs = at

  own_read :
      (offs : List ℕ)
      → read_lower to_lower
          (record q { lower_offs = offs; lower_blob = q.lower_blob ++ to_lower name })
          i
          (length q.lower_blob)
        ≡ (if ltb (length (to_lower name)) (length name)
            then to_lower name
            else take (length name) (to_lower name))
  unfolding read_lower
  own_read offs =
      let s : (length q.lower_blob == packed_lower_same_as_name) ≡ false = ground (arith, room) in
      let l : ltb (length (q.lower_blob ++ to_lower name)) (length q.lower_blob + length name)
          ≡ ltb (length (to_lower name)) (length name) =
        ground (arith, length-append q.lower_blob (to_lower name)) in
      rw (s, at_after offs, n, l, span_end) refl

  own_row :
      lower_name_at to_lower
        (record q {
          lower_offs = set q.lower_offs i (uint32 (length q.lower_blob));
          lower_blob = q.lower_blob ++ to_lower name;
        })
        i
      ≡ (if ltb (length (to_lower name)) (length name)
          then to_lower name
          else take (length name) (to_lower name))
  unfolding lower_name_at
  own_row =
      let o : get_or (set q.lower_offs i (uint32 (length q.lower_blob))) i 0 ≡ length q.lower_blob =
        rw (get_or-set q.lower_offs i (uint32 (length q.lower_blob)) i 0)
          (ground (arith, hi, room)) in
      let e : leb (length (set q.lower_offs i (uint32 (length q.lower_blob)))) i ≡ false =
        rw length-set (ground (arith, hi)) in
      rw (e, o) (own_read (set q.lower_offs i (uint32 (length q.lower_blob))))

  -- The lowercase name is right where it is not longer than the name, and is cut where it is.
  lower_name_row : lower_name_at to_lower (set_lower_name to_lower q i name) i ≡ (
      if ltb (length name) (length (to_lower name))
      then take (length name) (to_lower name)
      else to_lower name)
  unfolding set_lower_name
  lower_name_row =
      let e : leb (length q.lower_offs) i ≡ false = ground (arith, hi) in
      elim (Bool-cases (bytes_eq (to_lower name) name)) [
        | inl y ↦
            rw (e, clipped_short (to_lower name) short, y)
              (same_row ∙ rw (bytes_eq_sound (to_lower name) name y) (ground arith))
        | inr y ↦
            rw (e, clipped_short (to_lower name) short, y)
              (own_row ∙ ground (arith, take_all (length name) (to_lower name)))
      ]

-- After a record is given a name, its lowercase name reads back as `to_lower` of the name where that is
-- not longer than the name, and else as its first bytes, as many as the name has.
pub lower_name_at-set_lower_name :
    (to_lower : List ℕ → List ℕ) (p : PackedRecords) (i : ℕ) (name : List ℕ)
    → NamesValid p
    → length p.lower_offs ≡ len p
    → i < len p
    → length p.name_blob < 2 ^ 32
    → length p.lower_blob < packed_lower_same_as_name
    → length name < 2 ^ 16
    → length (to_lower name) < 2 ^ 16
    → lower_name_at to_lower (set_lower_name to_lower (set_name p i name) i name) i ≡ (
        if ltb (length name) (length (to_lower name))
        then take (length name) (to_lower name)
        else to_lower name)
unfolding set_name
lower_name_at-set_lower_name to_lower p i name v l hi room lower_room short lower_short =
    let here : name_at (set_name p i name) i ≡ name =
      name_at-set_name_row p i name v hi room i hi ∙ rw (clipped_short name short) (ground arith) in
    let n : get_or (set_name p i name).name_lens i 0 ≡ length name =
      rw (opened p i name v hi room, len_after p i name v hi room i, clipped_short name short)
        (ground arith) in
    lower_name_row to_lower (set_name p i name) i name
      (rw (opened p i name v hi room) (omega (arith, l, hi)))
      (rw (opened p i name v hi room) lower_room) here n lower_short

-- A lowercase form with more bytes than the name never reads back whole.
pub lower_name_cut :
    (to_lower : List ℕ → List ℕ) (p : PackedRecords) (i : ℕ) (name : List ℕ)
    → NamesValid p
    → length p.lower_offs ≡ len p
    → i < len p
    → length p.name_blob < 2 ^ 32
    → length p.lower_blob < packed_lower_same_as_name
    → length name < length (to_lower name)
    → length (to_lower name) < 2 ^ 16
    → lower_name_at to_lower (set_lower_name to_lower (set_name p i name) i name) i ≢ to_lower name
lower_name_cut to_lower p i name v l hi room lower_room longer lower_short e =
    let r =
      lower_name_at-set_lower_name to_lower p i name v l hi room lower_room (omega arith)
        lower_short in
    let w : ltb (length name) (length (to_lower name)) ≡ true = ground (arith, longer) in
    let c : take (length name) (to_lower name) ≡ to_lower name = sym (r ∙ rw w refl) ∙ e in
    absurd
      (omega (arith, ap length c, length-take (length name) (to_lower name) (omega arith), longer))
