-- ===== src/Regex/Parse.antt =====
-- cmd/seekfs/regex_required_literals.go: `rxParser`'s recursion, on fuel.
use seekfs.Common.{
  ℕ, zero, suc, ◌+◌, ◌*◌, true, false, ◌||◌, List, [], ◌∷◌, length, get_or, leb, ◌==◌,
  if◌then◌else◌,
}
use seekfs.Regex.Tree.{RxNode, RxNodes, rx_lit, rx_gap, rx_seq, rx_alt, no_nodes, node}
use seekfs.Regex.Scan.{
  is_at, one_of, Parsed, parsed, declined, out_of_fuel, parse_quant, parse_escape, parse_class,
  body, skipped, refused, group_start,
}

-- `append(parts, n)`
unfoldable pub push : RxNodes → RxNode → RxNodes
push no_nodes n = node n no_nodes
push (node m ms) n = node m (push ms n)

-- One part stands for itself.
unfoldable pub seq_of : RxNodes → RxNode
seq_of (node n no_nodes) = n
seq_of parts = rx_seq parts

unfoldable pub alt_of : RxNodes → RxNode
alt_of (node n no_nodes) = n
alt_of branches = rx_alt branches

-- The `)` of a group.
abbrev pub closed : List ℕ → Parsed → Parsed
closed src (parsed n p) = if is_at src p b')' then parsed n (p + 1) else declined
closed src declined = declined
closed src out_of_fuel = out_of_fuel

unfoldable mutual
  pub parse_alt : ℕ → List ℕ → ℕ → Parsed
  parse_alt zero src pos = out_of_fuel
  parse_alt (suc fuel) src pos = elim (parse_seq fuel src pos no_nodes) [
    | parsed n p ↦ alt_loop fuel src p (node n no_nodes)
    | declined ↦ declined
    | out_of_fuel ↦ out_of_fuel
  ]

  -- `for p.pos < len(p.src) && p.src[p.pos] == '|'`
  pub alt_loop : ℕ → List ℕ → ℕ → RxNodes → Parsed
  alt_loop zero src pos branches = out_of_fuel
  alt_loop (suc fuel) src pos branches = elim (is_at src pos b'|') [
    | false ↦ parsed (alt_of branches) pos
    | true ↦ elim (parse_seq fuel src (pos + 1) no_nodes) [
      | parsed n p ↦ alt_loop fuel src p (push branches n)
      | declined ↦ declined
      | out_of_fuel ↦ out_of_fuel
    ]
  ]

  -- The loop of `parseSeq`, with the parts so far.
  pub parse_seq : ℕ → List ℕ → ℕ → RxNodes → Parsed
  parse_seq zero src pos parts = out_of_fuel
  parse_seq (suc fuel) src pos parts =
      elim (leb (length src) pos || (is_at src pos b'|' || is_at src pos b')')) [
        | true ↦ parsed (seq_of parts) pos
        | false ↦ elim (parse_atom fuel src pos) [
          | parsed atom p ↦
              parse_seq fuel src (parse_quant src atom p).1 (push parts (parse_quant src atom p).0)
          | declined ↦ declined
          | out_of_fuel ↦ out_of_fuel
        ]
      ]

  pub parse_atom : ℕ → List ℕ → ℕ → Parsed
  parse_atom zero src pos = out_of_fuel
  parse_atom (suc fuel) src pos =
      let c = get_or src pos 0 in
      let group = parse_group fuel src pos in
      if c == b'('
      then group
      else if c == b'['
      then parse_class src pos
      else if c == b'.' || (c == b'^' || c == b'$')
      then parsed rx_gap (pos + 1)
      else if c == b'\\'
      then parse_escape src pos
      else if one_of c (b'*' ∷ b'+' ∷ b'?' ∷ b'{' ∷ b'}' ∷ b']' ∷ b')' ∷ [])
      then declined
      else parsed (rx_lit c) (pos + 1)

  pub parse_group : ℕ → List ℕ → ℕ → Parsed
  parse_group zero src pos = out_of_fuel
  parse_group (suc fuel) src pos = elim (group_start src pos) [
    | body start ↦ closed src (parse_alt fuel src start)
    | skipped result ↦ result
    | refused ↦ declined
  ]

-- Each call takes one of the fuel, and no more than five stand between two bytes of the pattern.
abbrev pub fuel_for : List ℕ → ℕ
fuel_for src = 5 * length src + 3
