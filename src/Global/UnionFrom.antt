-- ===== src/Global/UnionFrom.antt =====
-- What is left of a union from an id on.
use seekfs.Common.{
  ◌≡◌, refl, sym, ap, ◌∙◌, false, not, ◌&&◌, Bool-cases, inl, inr, List, [], ◌∷◌, map, arith, All,
  All-map_pred,
}
use seekfs.Global.Id.{
  GlobalRecordId, compare_global_record_id, Before, before, Ascending, drop_before,
  Ascending-drop_before,
}
use seekfs.Global.Sets.{contains, contains-All, contains-drop_before}
use seekfs.Global.Union.{contains_any, IsUnion}

not_before_later : (t x y : GlobalRecordId) → before x t ≡ false → Before x y → before y t ≡ false
unfolding before compare_global_record_id
not_before_later t x y h k = ground arith

drop_before-All :
    (t : GlobalRecordId) (l : List GlobalRecordId)
    → Ascending l
    → All (λ w. before w t ≡ false) (drop_before t l)
unfolding drop_before
drop_before-All t [] asc = tt
drop_before-All t (x ∷ xs) asc = elim (Bool-cases (before x t)) [
  | inl e ↦ rw e (drop_before-All t xs asc.1)
  | inr e ↦ rw e (e, All-map_pred (Before x) _ (λ w h. not_before_later t x w e h) xs asc.0)
]

contains_in_drop_before :
    (t z : GlobalRecordId) (l : List GlobalRecordId)
    → Ascending l
    → contains z (drop_before t l) ≡ contains z l && not (before z t)
contains_in_drop_before t z l asc = elim (Bool-cases (before z t)) [
  | inr e ↦ ground (arith, e, contains-drop_before t z l e)
  | inl e ↦ elim (Bool-cases (contains z (drop_before t l))) [
    | inl k ↦
        cc (
          contains-All (λ w. before w t ≡ false) z (drop_before t l) (drop_before-All t l asc) k,
          e,
        )
    | inr k ↦ ground (arith, e, k)
  ]
]

contains_any-drop_before :
    (t z : GlobalRecordId) (ls : List (List GlobalRecordId))
    → All Ascending ls
    → contains_any z (map (drop_before t) ls) ≡ contains_any z ls && not (before z t)
unfolding contains_any
contains_any-drop_before t z [] asc = refl
contains_any-drop_before t z (l ∷ ls) asc =
    ground (arith, contains_in_drop_before t z l asc.0, contains_any-drop_before t z ls asc.1)

map-drop_before-Ascending :
    (t : GlobalRecordId) (ls : List (List GlobalRecordId))
    → All Ascending ls
    → All Ascending (map (drop_before t) ls)
map-drop_before-Ascending t [] asc = tt
map-drop_before-Ascending t (l ∷ ls) asc =
    (Ascending-drop_before t l asc.0, map-drop_before-Ascending t ls asc.1)

pub IsUnion-drop_before :
    (t : GlobalRecordId) (l : List GlobalRecordId) (ls : List (List GlobalRecordId))
    → IsUnion l ls
    → IsUnion (drop_before t l) (map (drop_before t) ls)
IsUnion-drop_before t l ls u = record {
  order = Ascending-drop_before t l u.order;
  orders = map-drop_before-Ascending t ls u.orders;
  same_ids = λ z.
      contains_in_drop_before t z l u.order
      ∙ ap (λ b. b && not (before z t)) (u.same_ids z)
      ∙ sym (contains_any-drop_before t z ls u.orders);
}
