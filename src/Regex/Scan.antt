-- ===== src/Regex/Scan.antt =====
-- cmd/seekfs/regex_required_literals.go: what `rxParser` reads without calling itself: quantifiers,
-- escapes, classes and the start of a group. A pattern is its bytes, and `p.pos` is a number.
use seekfs.Common.{
  ℕ, zero, suc, ◌+◌, ◌-◌, ◌*◌, ◌%◌, ◌^◌, Bool, false, ◌&&◌, ◌||◌, not, List, [], ◌∷◌, length,
  get_or, take, drop, ltb, leb, ◌==◌, if◌then◌else◌,
}
use seekfs.Regex.Tree.{RxNode, rx_lit, rx_gap, rx_rep}

-- `p.pos < len(p.src) && p.src[p.pos] == c`
abbrev pub is_at : List ℕ → ℕ → ℕ → Bool
is_at src i c = ltb i (length src) && get_or src i 0 == c

abbrev pub is_digit : ℕ → Bool
is_digit c = leb b'0' c && leb c b'9'

abbrev pub one_of : ℕ → List ℕ → Bool
one_of c [] = false
one_of c (x ∷ xs) = c == x || one_of c xs

-- `for i < len(p.src) && p(p.src[i]) { i++ }`, on the length of the pattern for fuel.
unfoldable pub skip_from : (ℕ → Bool) → ℕ → List ℕ → ℕ → ℕ
skip_from p zero src i = i
skip_from p (suc fuel) src i =
    let rest = skip_from p fuel src (i + 1) in
    if ltb i (length src) && p (get_or src i 0) then rest else i

unfoldable pub skip_while : (ℕ → Bool) → List ℕ → ℕ → ℕ
unfolding skip_from
skip_while p src i = skip_from p (length src) src i

-- `min = min*10 + int(d-'0')` over the digits, in 64 bits.
unfoldable pub number_loop : ℕ → List ℕ → ℕ
number_loop n [] = n
number_loop n (d ∷ digits) = number_loop ((n * 10 + (d - b'0')) % 2 ^ 64) digits

-- `min >= 1` on int64
abbrev pub at_least_one : ℕ → Bool
at_least_one n = leb 1 n && ltb n (2 ^ 63)

unfoldable pub parse_braces : List ℕ → RxNode → ℕ → RxNode × ℕ
parse_braces src atom pos =
    let i = skip_while is_digit src (pos + 1) in
    let least = number_loop 0 (take (i - (pos + 1)) (drop (pos + 1) src)) in
    let j = if is_at src i b',' then skip_while is_digit src (i + 1) else i in
    if i == pos + 1
    then (atom, pos)
    else if not (is_at src j b'}')
    then (atom, pos)
    else if at_least_one least
    then (rx_rep atom 1, j + 1)
    else (rx_rep atom 0, j + 1)

unfoldable pub parse_quant : List ℕ → RxNode → ℕ → RxNode × ℕ
parse_quant src atom pos =
    let c = get_or src pos 0 in
    if leb (length src) pos
    then (atom, pos)
    else if c == b'?' || c == b'*'
    then (rx_rep atom 0, pos + 1)
    else if c == b'+'
    then (rx_rep atom 1, pos + 1)
    else if c == b'{'
    then parse_braces src atom pos
    else (atom, pos)

-- A node with the place behind it, or nil. The fuel of the parser is told from nil.
pub data Parsed : Type 0 where
  parsed : RxNode → ℕ → Parsed
  declined : Parsed
  out_of_fuel : Parsed

abbrev pub is_letter : ℕ → Bool
is_letter e = (leb b'a' e && leb e b'z') || (leb b'A' e && leb e b'Z')

-- `for n := 0; n < 2 && ...; n++ { p.pos++ }`
unfoldable pub octal_digits : ℕ → List ℕ → ℕ → ℕ
octal_digits zero src i = i
octal_digits (suc n) src i =
    let rest = octal_digits n src (i + 1) in
    let c = get_or src i 0 in if ltb i (length src) && leb b'0' c && leb c b'7' then rest else i

-- The letters of the classes, the anchors and the control characters.
abbrev pub gap_escapes : List ℕ
gap_escapes =
    b'd' ∷ b'w' ∷ b's' ∷ b'D' ∷ b'W' ∷ b'S' ∷ b'b' ∷ b'B' ∷ b'n' ∷ b'r' ∷ b't' ∷ b'f' ∷ b'v' ∷ []

unfoldable pub parse_escape : List ℕ → ℕ → Parsed
parse_escape src pos =
    let e = get_or src (pos + 1) 0 in
    if leb (length src) (pos + 1)
    then declined
    else if one_of e gap_escapes
    then parsed rx_gap (pos + 2)
    else if e == b'0'
    then parsed rx_gap (octal_digits 2 src (pos + 2))
    else if one_of e (b'k' ∷ b'g' ∷ b'K' ∷ b'G' ∷ [])
    then declined
    else if leb b'1' e && leb e b'9'
    then declined
    else if is_letter e
    then declined
    else parsed (rx_lit e) (pos + 2)

-- The loop of `parseClass`: an escape is two bytes.
unfoldable pub class_loop : ℕ → List ℕ → ℕ → Parsed
class_loop zero src i = out_of_fuel
class_loop (suc fuel) src i =
    let c = get_or src i 0 in
    let rest = class_loop fuel src (if c == b'\\' then i + 2 else i + 1) in
    if leb (length src) i then declined else if c == b']' then parsed rx_gap (i + 1) else rest

unfoldable pub parse_class : List ℕ → ℕ → Parsed
unfolding class_loop
parse_class src pos =
    let i = if is_at src (pos + 1) b'^' then pos + 2 else pos + 1 in
    let j = if is_at src i b']' then i + 1 else i in class_loop (suc (length src)) src j

-- The loop of `skipGroupAsGap`.
unfoldable pub assertion_loop : ℕ → ℕ → List ℕ → ℕ → Parsed
assertion_loop zero depth src i = out_of_fuel
assertion_loop (suc fuel) depth src i =
    let c = get_or src i 0 in
    let depth' = if c == b'(' then depth + 1 else if c == b')' then depth - 1 else depth in
    let rest =
      assertion_loop fuel (if c == b'\\' then depth else depth') src
        (if c == b'\\' then i + 2 else i + 1) in
    if leb (length src) i || depth == 0 then parsed rx_gap i else rest

unfoldable pub skip_group_as_gap : List ℕ → ℕ → Parsed
unfolding assertion_loop
skip_group_as_gap src pos = assertion_loop (suc (length src)) 1 src pos

-- What follows `(`: a body at a place, an assertion that is skipped, or nil.
pub data GroupStart : Type 0 where
  body : ℕ → GroupStart
  skipped : Parsed → GroupStart
  refused : GroupStart

-- `for ... p.src[p.pos] != '>'`, and the byte itself.
abbrev pub named : List ℕ → ℕ → ℕ
named src i =
    let j = skip_while (λ c. not (c == b'>')) src i in if ltb j (length src) then j + 1 else j

-- Flags up to `:` or `)`, and the `:`.
abbrev pub flagged : List ℕ → ℕ → ℕ
flagged src i =
    let j = skip_while (λ c. not (c == b':') && not (c == b')')) src i in
    if is_at src j b':' then j + 1 else j

unfoldable pub group_start : List ℕ → ℕ → GroupStart
group_start src pos =
    let i = pos + 2 in
    let c = get_or src i 0 in
    if not (is_at src (pos + 1) b'?')
    then body (pos + 1)
    else if leb (length src) i
    then refused
    else if c == b'=' || c == b'!'
    then skipped (skip_group_as_gap src i)
    else if c == b'<'
    then (if is_at src (i + 1) b'=' || is_at src (i + 1) b'!'
        then skipped (skip_group_as_gap src i)
        else body (named src i))
    else if c == b'P'
    then (if is_at src (i + 1) b'<' then body (named src i) else refused)
    else if c == b'>'
    then body (i + 1)
    else if one_of c (b':' ∷ b'i' ∷ b'm' ∷ b's' ∷ b'x' ∷ b'U' ∷ b'R' ∷ b'-' ∷ [])
    then body (flagged src i)
    else refused
