-- ===== src/Sorted/Defs.antt =====
-- cmd/seekfs/postings.go: `intersectSortedInts`, `intersectSortedUint32s`, `uniqueSortedInts` and
-- `uniqueSortedUint32s`. `out := a[:0]` shares the array of `a`: the state is that array, with the
-- places already written, `k`, and the places read. Numbers are not negative.
use seekfs.Common.{
  ℕ, zero, suc, ◌+◌, ◌&&◌, List, length, get_or, set, take, ltb, ◌==◌, if◌then◌else◌,
}

-- Each round reads `a[i]` and `b[j]` from the arrays as they stand.
unfoldable pub intersect_loop : ℕ → List ℕ → List ℕ → ℕ → ℕ → ℕ → List ℕ
intersect_loop zero a b i j k = take k a
intersect_loop (suc fuel) a b i j k =
    let x = get_or a i 0 in
    let y = get_or b j 0 in
    let both = intersect_loop fuel (set a k x) b (i + 1) (j + 1) (k + 1) in
    let left = intersect_loop fuel a b (i + 1) j k in
    let right = intersect_loop fuel a b i (j + 1) k in
    if ltb i (length a) && ltb j (length b)
    then if x == y then both else if ltb x y then left else right
    else take k a

unfoldable pub intersect_sorted_ints : List ℕ → List ℕ → List ℕ
unfolding intersect_loop
intersect_sorted_ints a b = intersect_loop (length a + length b) a b 0 0 0

unfoldable pub unique_loop : ℕ → List ℕ → ℕ → ℕ → ℕ → List ℕ
unique_loop zero xs last i k = take k xs
unique_loop (suc fuel) xs last i k =
    let v = get_or xs i 0 in
    let keep = unique_loop fuel (set xs k v) v (i + 1) (k + 1) in
    let skip = unique_loop fuel xs last (i + 1) k in
    if ltb i (length xs) then if v == last then skip else keep else take k xs

unfoldable pub unique_sorted_ints : List ℕ → List ℕ
unfolding unique_loop
unique_sorted_ints xs =
    if ltb (length xs) 2 then xs else unique_loop (length xs) xs (get_or xs 0 0) 1 1
