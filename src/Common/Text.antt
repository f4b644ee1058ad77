-- ===== src/Common/Text.antt =====
-- Texts as lists of bytes.
use Prim.Native.Nat.{ℕ, ◌+◌}
use mathlib.Core.Path.{◌≡◌, refl, ap, ◌∙◌}
use mathlib.Core.Bool.{Bool, true, false, ◌&&◌}
use mathlib.Core.List.{List, [], ◌∷◌, ◌++◌, map}
use seekfs.Common.Tests.{if◌then◌else◌, leb, ◌==◌}

-- `foldASCII`, and what `strings.ToLower` does to a byte of an ASCII text.
unfoldable pub fold_ascii : ℕ → ℕ
fold_ascii b = if leb b'A' b && leb b b'Z' then b + 32 else b

-- `strings.HasPrefix(s, p)`
abbrev pub has_prefix : List ℕ → List ℕ → Bool
has_prefix [] s = true
has_prefix (x ∷ p) [] = false
has_prefix (x ∷ p) (y ∷ s) = x == y && has_prefix p s

-- `r` stands somewhere in `t`.
abbrev pub Infix : List ℕ → List ℕ → Type 0
Infix r t = (pre : List ℕ) × (post : List ℕ) × (t ≡ pre ++ (r ++ post))

map_append : (f : ℕ → ℕ) (xs ys : List ℕ) → map f (xs ++ ys) ≡ map f xs ++ map f ys
map_append f [] ys = refl
map_append f (x ∷ xs) ys = ap (λ zs. f x ∷ zs) (map_append f xs ys)

pub Infix-map : (f : ℕ → ℕ) (r t : List ℕ) → Infix r t → Infix (map f r) (map f t)
Infix-map f r t (pre, post, e) = (
  map f pre,
  map f post,
  ap (map f) e ∙ map_append f pre (r ++ post) ∙ ap (λ z. map f pre ++ z) (map_append f r post),
)
