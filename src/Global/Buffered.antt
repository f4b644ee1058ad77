-- ===== src/Global/Buffered.antt =====
-- cmd/seekfs/global_iterators.go: a child from which one id is read ahead (`aID`, `bID`, `iID`, `eID`).
use seekfs.Common.{suc, ◌≤◌, List, [], ◌∷◌, tail, arith, length}
use seekfs.Global.Id.{GlobalRecordId, Ascending, Ascending-drop_before, drop_before}
use seekfs.Global.Iterator.{Iterator, Forward, Seeks}

-- A child's state after the first id of `l` was read from it ahead: the two stand for `l`.
pub record Buffered {A : Type 0} {I : Iterator A} (c : Forward I) (a : A) (l : List GlobalRecordId)
    : Type 0 where
  pub rest : c.Holds a (tail l)
  pub order : Ascending l

pub Buffered-next :
    {A : Type 0} {I : Iterator A} (c : Forward I) (a : A) (l : List GlobalRecordId)
    → c.Holds a l
    → Buffered c (I.next a).0 l
Buffered-next c a l h = record { rest = c.next_state a l h; order = c.ascending a l h }

pub Buffered-seek_ge :
    {A : Type 0} {I : Iterator A} (c : Forward I) (k : Seeks I c) (t : GlobalRecordId) (a : A)
    (l : List GlobalRecordId)
    → c.Holds a l
    → Buffered c (I.seek_ge t a).0 (drop_before t l)
Buffered-seek_ge c k t a l h = record {
  rest = k.seek_state t a l h;
  order = Ascending-drop_before t l (c.ascending a l h);
}

pub length-Buffered :
    {A : Type 0} {I : Iterator A} (c : Forward I) {a : A} (l : List GlobalRecordId)
    → Buffered c a l
    → length l ≤ suc (I.budget a)
length-Buffered c [] p = omega arith
length-Buffered c {a} (x ∷ l) p = omega (arith, c.within a l p.rest)
