-- ===== src/Fuzzy/Rows.antt =====
-- cmd/seekfs/fuzzy.go: the rows of `damerauLevenshteinBounded` hold the distances of the beginnings.
use Prim.Native.Nat.{min}
use seekfs.Common.{
  ℕ, zero, suc, ◌+◌, ◌-◌, ◌≤◌, ◌<◌, ◌≡◌, refl, sym, ap, subst, ==_iff, ◌∙◌, Bool, Bool-cases, false,
  inl, inr, List, length, get_or, set, length-set, get_or-set, ltb, leb, ◌==◌, if◌then◌else◌, arith,
}
use seekfs.Fuzzy.Distance.{lower, cost, swapped, cell, row_loop, rows_loop}
use seekfs.Fuzzy.Alignment.{unequal, exchanged, osa, edited, Over, Over-later}

-- Up to the bound the distance itself.
abbrev pub capped : ℕ → ℕ → ℕ
capped bound d = if leb d bound then d else bound + 1

lower-min : (d v : ℕ) → lower d v ≡ min d v
lower-min d v = ground arith

lower_last : (m d x : ℕ) → x ≡ d → lower m d ≤ x
lower_last m d x e = ground (arith, e)

lower_before : (m d x : ℕ) → m ≤ x → lower m d ≤ x
lower_before m d x e = ground (arith, e)

lowered :
    (s : Bool) (above left diagonal back : ℕ)
    → (if s
        then lower (lower (lower (above + 1) (left + 1)) diagonal) (back + 1)
        else lower (lower (above + 1) (left + 1)) diagonal)
      ≡ (if s then min (edited above left diagonal) (back + 1) else edited above left diagonal)
lowered s above left diagonal back =
    rw
      (
        lower-min (above + 1) (left + 1),
        lower-min (min (above + 1) (left + 1)) diagonal,
        lower-min (edited above left diagonal) (back + 1),
      )
      refl

module _ (a b : List ℕ) where
  cost-unequal : (i j : ℕ) → cost a b i j ≡ unequal a b i j
  unfolding cost unequal
  cost-unequal i j = refl

  swapped-exchanged : (i j : ℕ) → swapped a b (suc i) (suc j) ≡ exchanged a b i j
  unfolding swapped exchanged
  swapped-exchanged i j =
      let front : suc i - 1 ≡ i = omega arith in
      let back : suc j - 1 ≡ j = omega arith in rw (front, back) (ground arith)

  -- The first `n` places of a row hold the distances of the first `i` items.
  pub record IsRow (i n : ℕ) (row : List ℕ) : Type 0 where
    pub size : length row ≡ suc (length b)
    pub cells : (j : ℕ) → j < n → get_or row j 0 ≡ osa a b i j

  -- The row before the last, where there is one.
  abbrev pub Before : ℕ → List ℕ → Type 0
  Before zero prev2 = length prev2 ≡ suc (length b)
  Before (suc i) prev2 = IsRow i (suc (length b)) prev2

  -- The case where there is a row before the last and a place before the last.
  cell_inside :
      (i j : ℕ) (prev2 prev cur : List ℕ)
      → suc j < length b
      → IsRow i (suc (length b)) prev2
      → IsRow (suc i) (suc (length b)) prev
      → IsRow (suc (suc i)) (suc (suc j)) cur
      → cell a b (suc i) prev2 prev cur (suc j) ≡ osa a b (suc (suc i)) (suc (suc j))
  unfolding cell osa
  cell_inside i j prev2 prev cur h p2 p c =
      let above = p.cells (suc (suc j)) (omega (arith, h)) in
      let diagonal = p.cells (suc j) (omega (arith, h)) in
      let left = c.cells (suc j) (omega arith) in
      let place : suc j - 1 ≡ j = omega arith in
      let back = p2.cells j (omega (arith, h)) in
      rw (above, diagonal, left, place, back, cost-unequal (suc i) (suc j), swapped-exchanged i j)
        (lowered (exchanged a b i j) (osa a b (suc i) (suc (suc j))) (osa a b (suc (suc i)) (suc j))
          (osa a b (suc i) (suc j) + unequal a b (suc i) (suc j)) (osa a b i j))

  cell-osa :
      (i j : ℕ) (prev2 prev cur : List ℕ)
      → j < length b
      → Before i prev2
      → IsRow i (suc (length b)) prev
      → IsRow (suc i) (suc j) cur
      → cell a b i prev2 prev cur j ≡ osa a b (suc i) (suc j)
  unfolding cell osa swapped
  cell-osa zero j prev2 prev cur h p2 p c =
      let above = p.cells (suc j) (omega (arith, h)) in
      let diagonal = p.cells j (omega (arith, h)) in
      let left = c.cells j (omega arith) in
      rw (above, diagonal, left, cost-unequal 0 j) (ground arith)
  cell-osa (suc i) zero prev2 prev cur h p2 p c =
      let above = p.cells 1 (omega (arith, h)) in
      let diagonal = p.cells 0 (omega (arith, h)) in
      let left = c.cells 0 (omega arith) in
      rw (above, diagonal, left, cost-unequal (suc i) 0) (ground arith)
  cell-osa (suc i) (suc j) prev2 prev cur h p2 p c = cell_inside i j prev2 prev cur h p2 p c

  IsRow-set :
      (i n : ℕ) (row : List ℕ) (d : ℕ)
      → IsRow i n row
      → n < suc (length b)
      → d ≡ osa a b i n
      → IsRow i (suc n) (set row n d)
  IsRow-set i n row d r h e = record {
    size = length-set row n d ∙ r.size;
    cells = λ j l.
        let old = r.cells in
        let size = r.size in
        elim (Bool-cases (j == n)) [
          | inl y ↦
              let at : j ≡ n = (==_iff j n).0 y in
              let there : get_or (set row n d) n 0 ≡ d =
                ground (arith, get_or-set row n d n 0, size, h) in
              ap (λ z. get_or (set row n d) z 0) at ∙ there ∙ e ∙ sym (ap (osa a b i) at)
          | inr o ↦ ground (arith, get_or-set row n d j 0, r.cells j (ground (arith, l, o)), o)
        ];
  }

  -- The row and its least value.
  record Filled (i : ℕ) (row : List ℕ × ℕ) : Type 0 where
    cells : IsRow i (suc (length b)) row.0
    least : (j : ℕ) → j ≤ length b → row.1 ≤ osa a b i j

  row_loop-Filled :
      (rounds i : ℕ) (prev2 prev : List ℕ) (j : ℕ) (cur : List ℕ) (row_min : ℕ)
      → rounds + j ≡ length b
      → Before i prev2
      → IsRow i (suc (length b)) prev
      → IsRow (suc i) (suc j) cur
      → ((k : ℕ) → k ≤ j → row_min ≤ osa a b (suc i) k)
      → Filled (suc i) (row_loop a b rounds i prev2 prev j cur row_min)
  unfolding row_loop
  row_loop-Filled zero i prev2 prev j cur row_min e p2 p c m =
      let end : j ≡ length b = omega (arith, e) in
      record {
        cells = subst (λ n. IsRow (suc i) (suc n) cur) end c;
        least = λ k h. m k (omega (arith, h, end));
      }
  row_loop-Filled (suc rounds) i prev2 prev j cur row_min e p2 p c m =
      let inside : j < length b = omega (arith, e) in
      let d = cell a b i prev2 prev cur j in
      let value = cell-osa i j prev2 prev cur inside p2 p c in
      row_loop-Filled rounds i prev2 prev (suc j) (set cur (suc j) d) (lower row_min d)
        (omega (arith, e)) p2 p (IsRow-set (suc i) (suc j) cur d c (omega (arith, inside)) value)
        (λ k h. elim (Bool-cases (k == suc j)) [
          | inl y ↦
              let at : osa a b (suc i) k ≡ d =
                ap (osa a b (suc i)) ((==_iff k (suc j)).0 y) ∙ sym value in
              lower_last row_min d (osa a b (suc i) k) at
          | inr o ↦
              let old = m k (ground (arith, h, o)) in lower_before row_min d (osa a b (suc i) k) old
        ])

  first_cell :
      (i : ℕ) (cur : List ℕ) → length cur ≡ suc (length b) → IsRow (suc i) 1 (set cur 0 (suc i))
  unfolding osa
  first_cell i cur c = record {
    size = length-set cur 0 (suc i) ∙ c;
    cells = λ j h.
        let at : j ≡ 0 = omega (arith, h) in
        let there : get_or (set cur 0 (suc i)) 0 0 ≡ suc i =
          ground (arith, get_or-set cur 0 (suc i) 0 0, c) in
        ap (λ z. get_or (set cur 0 (suc i)) z 0) at ∙ there ∙ sym (ap (osa a b (suc i)) at);
  }

  start_least : (i k : ℕ) → k ≤ 0 → suc i ≤ osa a b (suc i) k
  unfolding osa
  start_least i zero h = omega arith
  start_least i (suc k) h = absurd (omega (arith, h))

  Before-size : (i : ℕ) (prev2 : List ℕ) → Before i prev2 → length prev2 ≡ suc (length b)
  Before-size zero prev2 h = h
  Before-size (suc i) prev2 h = h.size

  pub rows_loop-osa :
      (bound rounds i : ℕ) (prev2 prev cur : List ℕ)
      → rounds + i ≡ length a
      → Before i prev2
      → IsRow i (suc (length b)) prev
      → length cur ≡ suc (length b)
      → rows_loop a b bound rounds i prev2 prev cur ≡ capped bound (osa a b (length a) (length b))
  unfolding rows_loop Over
  rows_loop-osa bound zero i prev2 prev cur e p2 p c =
      let end : i ≡ length a = omega (arith, e) in
      let value = p.cells (length b) (omega arith) ∙ ap (λ z. osa a b z (length b)) end in
      rw value (ground arith)
  rows_loop-osa bound (suc rounds) i prev2 prev cur e p2 p c =
      let start = set cur 0 (suc i) in
      let row = row_loop a b (length b) i prev2 prev 0 start (suc i) in
      let filled =
        row_loop-Filled (length b) i prev2 prev 0 start (suc i) (omega arith) p2 p
          (first_cell i cur c) (start_least i) in
      elim (Bool-cases (ltb bound row.1)) [
        | inl y ↦
            let over =
              Over-later a b bound (suc i) rounds (λ j h. ground (arith, filled.least j h, y)) in
            let end : rounds + suc i ≡ length a = omega (arith, e) in
            let past : bound < osa a b (length a) (length b) =
              subst (λ z. bound < osa a b z (length b)) end (over (length b) (omega arith)) in
            let cut : leb (osa a b (length a) (length b)) bound ≡ false = ground (arith, past) in
            rw (rows_loop, y, cut) refl
        | inr n ↦
            rw (rows_loop, n)
              (rows_loop-osa bound rounds (suc i) prev row.0 prev2 (omega (arith, e)) p filled.cells
                (Before-size i prev2 p2))
      ]
