-- ===== src/Regex/Fuel.antt =====
-- cmd/seekfs/regex_required_literals.go: the parser's progress through the pattern.
use seekfs.Common.{
  ℕ, zero, suc, ◌+◌, ◌-◌, ◌*◌, ◌≤◌, ◌<◌, ◌≢◌, subst, Bool, ◌&&◌, ◌||◌, not, List, length, get_or,
  leb, ◌==◌, if◌then◌else◌, if_rule, branch_rule, arith, le_trans,
}
use seekfs.Regex.Tree.{RxNode, RxNodes, no_nodes, node}
use seekfs.Regex.Scan.{
  is_at, is_digit, named, flagged, skip_from, skip_while, parse_braces, parse_quant, Parsed, parsed,
  declined, out_of_fuel, octal_digits, parse_escape, class_loop, parse_class, assertion_loop,
  skip_group_as_gap, GroupStart, body, skipped, refused, group_start,
}
use seekfs.Regex.Parse.{
  fuel_for, push, seq_of, alt_of, closed, parse_alt, alt_loop, parse_seq, parse_atom, parse_group,
}

-- The fuel was enough, and a node ends at `lo` or behind it.
abbrev pub Past : ℕ → Parsed → Type 0
Past lo (parsed n p) = lo ≤ p
Past lo declined = Unit {0}
Past lo out_of_fuel = ⊥

le-skip_from : (p : ℕ → Bool) (fuel : ℕ) (src : List ℕ) (i : ℕ) → i ≤ skip_from p fuel src i
unfolding skip_from
le-skip_from p zero src i = omega arith
le-skip_from p (suc fuel) src i = ground (arith, le-skip_from p fuel src (i + 1))

le-skip_while : (p : ℕ → Bool) (src : List ℕ) (i : ℕ) → i ≤ skip_while p src i
unfolding skip_while
le-skip_while p src i = le-skip_from p (length src) src i

le-octal_digits : (n : ℕ) (src : List ℕ) (i : ℕ) → i ≤ octal_digits n src i
unfolding octal_digits
le-octal_digits zero src i = omega arith
le-octal_digits (suc n) src i = ground (arith, le-octal_digits n src (i + 1))

-- A pair of a node and a place at `lo` or behind it.
abbrev PairPast : ℕ → RxNode × ℕ → Type 0
PairPast lo r = lo ≤ r.1

le-parse_braces :
    (src : List ℕ) (atom : RxNode) (pos : ℕ) → PairPast pos (parse_braces src atom pos)
unfolding parse_braces
le-parse_braces src atom pos =
    let i = skip_while is_digit src (pos + 1) in
    let j = if is_at src i b',' then skip_while is_digit src (i + 1) else i in
    let first : pos + 1 ≤ i = le-skip_while is_digit src (pos + 1) in
    let second : pos ≤ j = ground (arith, first, le-skip_while is_digit src (i + 1)) in
    ground (arith, first, second)

le-parse_quant : (src : List ℕ) (atom : RxNode) (pos : ℕ) → PairPast pos (parse_quant src atom pos)
unfolding parse_quant
le-parse_quant src atom pos = ground (arith, le-parse_braces src atom pos)

Past-parse_escape : (src : List ℕ) (pos : ℕ) → Past (pos + 1) (parse_escape src pos)
unfolding parse_escape
Past-parse_escape src pos = ground (arith, le-octal_digits 2 src (pos + 2))

Past-weaken : (lo hi : ℕ) (r : Parsed) → lo ≤ hi → Past hi r → Past lo r
Past-weaken lo hi (parsed n p) l h = le_trans l h
Past-weaken lo hi declined l h = tt
Past-weaken lo hi out_of_fuel l h = h

-- An escape is two bytes.
after_byte : (c i : ℕ) → suc i ≤ (if c == b'\\' then i + 2 else i + 1)
after_byte c i = ground arith

Past-class_loop :
    (fuel : ℕ) (src : List ℕ) (i : ℕ) → length src - i < fuel → Past i (class_loop fuel src i)
unfolding class_loop
Past-class_loop zero src i h = absurd (omega arith)
Past-class_loop (suc fuel) src i h =
    let c = get_or src i 0 in
    let next = if c == b'\\' then i + 2 else i + 1 in
    let l : suc i ≤ next = after_byte c i in
    if_rule (Past i) (leb (length src) i) (λ e. tt)
      (λ e.
        if_rule (Past i) (c == b']') (λ e'. omega arith)
          (λ e'.
            let inside : i < length src = ground (arith, e) in
            Past-weaken i next (class_loop fuel src next) (omega (arith, l))
              (Past-class_loop fuel src next (omega (arith, l, h, inside)))))

Past-assertion_loop :
    (fuel depth : ℕ) (src : List ℕ) (i : ℕ)
    → length src - i < fuel
    → Past i (assertion_loop fuel depth src i)
unfolding assertion_loop
Past-assertion_loop zero depth src i h = absurd (omega arith)
Past-assertion_loop (suc fuel) depth src i h =
    let c = get_or src i 0 in
    let next = if c == b'\\' then i + 2 else i + 1 in
    let l : suc i ≤ next = after_byte c i in
    if_rule (Past i) (leb (length src) i || depth == 0) (λ e. omega arith)
      (λ e.
        let inside : i < length src = ground (arith, e) in
        Past-weaken i next (assertion_loop fuel _ src next) (omega (arith, l))
          (Past-assertion_loop fuel _ src next (omega (arith, l, h, inside))))

Past-parse_class : (src : List ℕ) (pos : ℕ) → Past (pos + 1) (parse_class src pos)
unfolding parse_class
Past-parse_class src pos =
    let i = if is_at src (pos + 1) b'^' then pos + 2 else pos + 1 in
    let j = if is_at src i b']' then i + 1 else i in
    let l : pos + 1 ≤ j = ground arith in
    Past-weaken (pos + 1) j (class_loop (suc (length src)) src j) l
      (Past-class_loop (suc (length src)) src j (omega arith))

Past-skip_group_as_gap : (src : List ℕ) (i : ℕ) → Past i (skip_group_as_gap src i)
unfolding skip_group_as_gap
Past-skip_group_as_gap src i = Past-assertion_loop (suc (length src)) 1 src i (omega arith)

-- The body of a group starts behind `lo`, and so does what is left where it is skipped.
abbrev StartPast : ℕ → GroupStart → Type 0
StartPast lo (body start) = lo ≤ start
StartPast lo (skipped r) = Past lo r
StartPast lo refused = Unit {0}

le-named : (src : List ℕ) (i : ℕ) → i ≤ named src i
le-named src i = ground (arith, le-skip_while (λ (c : ℕ). not (c == b'>')) src i)

le-flagged : (src : List ℕ) (i : ℕ) → i ≤ flagged src i
le-flagged src i =
    ground (arith, le-skip_while (λ (c : ℕ). not (c == b':') && not (c == b')')) src i)

StartPast-group_start : (src : List ℕ) (pos : ℕ) → StartPast (pos + 1) (group_start src pos)
unfolding group_start
StartPast-group_start src pos =
    let skip : Past (pos + 1) (skip_group_as_gap src (pos + 2)) =
      Past-weaken (pos + 1) (pos + 2) (skip_group_as_gap src (pos + 2)) (omega arith)
        (Past-skip_group_as_gap src (pos + 2)) in
    let name : pos + 1 ≤ named src (pos + 2) = omega (arith, le-named src (pos + 2)) in
    let flag : pos + 1 ≤ flagged src (pos + 2) = omega (arith, le-flagged src (pos + 2)) in
    ground (arith, skip, name, flag)

-- A result that goes on, where it is a node, with what ends there or behind it.
Past-elim :
    (lo : ℕ) (r : Parsed) (k : RxNode → ℕ → Parsed)
    → Past lo r
    → ((n : RxNode) (p : ℕ) → lo ≤ p → Past lo (k n p))
    → Past lo (elim r [ parsed n p ↦ k n p | declined ↦ declined | out_of_fuel ↦ out_of_fuel ])
Past-elim lo (parsed n p) k h f = f n p h
Past-elim lo declined k h f = tt
Past-elim lo out_of_fuel k h f = h

Past-closed : (src : List ℕ) (lo : ℕ) (r : Parsed) → Past lo r → Past lo (closed src r)
Past-closed src lo (parsed n p) h = ground (arith, h)
Past-closed src lo declined h = tt
Past-closed src lo out_of_fuel h = h

start_rule :
    (src : List ℕ) (fuel pos : ℕ) (g : GroupStart)
    → StartPast (pos + 1) g
    → ((start : ℕ) → pos + 1 ≤ start → Past (pos + 1) (parse_alt fuel src start))
    → Past (pos + 1) (elim g [
      | body start ↦ closed src (parse_alt fuel src start)
      | skipped result ↦ result
      | refused ↦ declined
    ])
start_rule src fuel pos (body start) h f =
    Past-closed src (pos + 1) (parse_alt fuel src start) (f start h)
start_rule src fuel pos (skipped r) h f = h
start_rule src fuel pos refused h f = tt

module _ (src : List ℕ) where
  mutual
    unfolding parse_alt

    Past-parse_alt :
        (fuel pos : ℕ) → 5 * (length src - pos) + 3 ≤ fuel → Past pos (parse_alt fuel src pos)
    Past-parse_alt zero pos h = absurd (omega arith)
    Past-parse_alt (suc fuel) pos h =
        Past-elim pos (parse_seq fuel src pos no_nodes)
          (λ n p. alt_loop fuel src p (node n no_nodes))
          (Past-parse_seq fuel pos no_nodes (omega (arith, h)))
          (λ n p l.
            Past-weaken pos p (alt_loop fuel src p (node n no_nodes)) l
              (Past-alt_loop fuel p (node n no_nodes) (omega (arith, h, l))))

    Past-alt_loop :
        (fuel pos : ℕ) (branches : RxNodes)
        → 5 * (length src - pos) + 2 ≤ fuel
        → Past pos (alt_loop fuel src pos branches)
    Past-alt_loop zero pos branches h = absurd (omega arith)
    Past-alt_loop (suc fuel) pos branches h =
        branch_rule (Past pos) (is_at src pos b'|') _ (parsed (alt_of branches) pos)
          (λ e.
            let inside : pos < length src = ground (arith, e) in
            Past-weaken pos (pos + 1) _ (omega arith) (
              Past-elim (pos + 1) (parse_seq fuel src (pos + 1) no_nodes)
                (λ n p. alt_loop fuel src p (push branches n))
                (Past-parse_seq fuel (pos + 1) no_nodes (omega (arith, h, inside)))
                (λ n p l.
                  Past-weaken (pos + 1) p (alt_loop fuel src p (push branches n)) l
                    (Past-alt_loop fuel p (push branches n) (omega (arith, h, l, inside))))))
          (λ e. omega arith)

    Past-parse_seq :
        (fuel pos : ℕ) (parts : RxNodes)
        → 5 * (length src - pos) + 1 ≤ fuel
        → Past pos (parse_seq fuel src pos parts)
    Past-parse_seq zero pos parts h = absurd (omega arith)
    Past-parse_seq (suc fuel) pos parts h =
        branch_rule (Past pos) (leb (length src) pos || (is_at src pos b'|' || is_at src pos b')'))
          (parsed (seq_of parts) pos) _ (λ e. omega arith)
          (λ e.
            let inside : pos < length src = ground (arith, e) in
            Past-weaken pos (pos + 1) _ (omega arith) (
              Past-elim (pos + 1) (parse_atom fuel src pos)
                (λ atom p.
                  parse_seq fuel src (parse_quant src atom p).1
                    (push parts (parse_quant src atom p).0))
                (Past-parse_atom fuel pos inside (omega (arith, h)))
                (λ atom p l.
                  let q = parse_quant src atom p in
                  let m : p ≤ q.1 = le-parse_quant src atom p in
                  Past-weaken (pos + 1) q.1 (parse_seq fuel src q.1 (push parts q.0)) (le_trans l m)
                    (Past-parse_seq fuel q.1 (push parts q.0) (omega (arith, h, l, m, inside))))))

    Past-parse_atom :
        (fuel pos : ℕ)
        → pos < length src
        → 5 * (length src - pos) ≤ fuel
        → Past (pos + 1) (parse_atom fuel src pos)
    Past-parse_atom zero pos i h = absurd (omega arith)
    Past-parse_atom (suc fuel) pos i h =
        let group = Past-parse_group fuel pos i h in
        ground (arith, group, Past-parse_class src pos, Past-parse_escape src pos)

    Past-parse_group :
        (fuel pos : ℕ)
        → pos < length src
        → 5 * (length src - pos) ≤ suc fuel
        → Past (pos + 1) (parse_group fuel src pos)
    Past-parse_group zero pos i h = absurd (omega arith)
    Past-parse_group (suc fuel) pos i h =
        start_rule src fuel pos (group_start src pos) (StartPast-group_start src pos) (λ start l.
          Past-weaken (pos + 1) start (parse_alt fuel src start) l
            (Past-parse_alt fuel start (omega (arith, h, l, i))))

-- On its fuel the parser comes to a node or declines, whatever the pattern.
pub parse_alt-fuel_for : (src : List ℕ) → parse_alt (fuel_for src) src 0 ≢ out_of_fuel
parse_alt-fuel_for src e = subst (Past 0) e (Past-parse_alt src (fuel_for src) 0 (omega arith))
