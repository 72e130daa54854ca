-- ===== src/NodeId/Numbers.antt =====
-- Numbers that are written with the most significant byte first are ordered as their bytes are.
use native.Mathlib.Nat.{mul-le-mul_right, pow-succ'}
use mdbx_containers.Prelude.{
  ℕ, ◌+◌, ◌*◌, ◌^◌, ◌<◌, ◌≤◌, ◌==◌, ltb, if◌then◌else◌, ◌≡◌, refl, List, [], ◌∷◌, ◌++◌, length, All,
  arith, ◌∙◌, suc, ◌⊎◌, inl, inr, subst, Bool-cases,
}
use mdbx_containers.Bytes.{IsByte, IsU64, write_u64_be}
use mdbx_containers.Bytes.Words.{write_u64_be-IsByte}
use mdbx_containers.NodeId.{Comparison, less, same, greater, compare_bytes}

abbrev pub compare_numbers : ℕ → ℕ → Comparison
compare_numbers a b = if a == b then same else if ltb a b then less else greater

abbrev be_value : List ℕ → ℕ
be_value [] = 0
be_value (b ∷ bytes) = b * 256 ^ length bytes + be_value bytes

be_value_bound : (bytes : List ℕ) → All IsByte bytes → be_value bytes < 256 ^ length bytes
be_value_bound [] h = omega arith
be_value_bound (b ∷ bytes) (h, hs) =
    let p = 256 ^ length bytes in
    let wide : (b + 1) * p ≤ 256 * p = mul-le-mul_right p (omega arith) in
    let power : 256 ^ suc (length bytes) ≡ 256 * p = pow-succ' 256 (length bytes) in
    omega (arith, be_value_bound bytes hs, wide, power)

three_ways : (x y : ℕ) → (x < y) ⊎ ((x ≡ y) ⊎ (y < x))
three_ways x y = elim (Bool-cases (ltb x y)) [
  | inl h ↦ inl (ground arith)
  | inr h ↦ elim (Bool-cases (x == y)) [
    | inl e ↦ inr (inl (ground arith))
    | inr e ↦ inr (inr (ground arith))
  ]
]

-- A number of more rows of `p` is greater; of as many, the rests decide.
compare_rows :
    (x y p u v : ℕ)
    → u < p
    → v < p
    → compare_numbers (x * p + u) (y * p + v)
      ≡ (if x == y then compare_numbers u v else if ltb x y then less else greater)
compare_rows x y p u v hu hv = elim (three_ways x y) [
  | inl below ↦
      let wide : (x + 1) * p ≤ y * p = mul-le-mul_right p (omega (arith, below)) in
      ground (arith, wide)
  | inr (inl equal) ↦ rw equal (ground arith)
  | inr (inr above) ↦
      let wide : (y + 1) * p ≤ x * p = mul-le-mul_right p (omega (arith, above)) in
      ground (arith, wide)
]

compare_bytes-be_value :
    (a b : List ℕ)
    → length a ≡ length b
    → All IsByte a
    → All IsByte b
    → compare_bytes a b ≡ compare_numbers (be_value a) (be_value b)
unfolding compare_bytes
compare_bytes-be_value [] [] l ha hb = refl
compare_bytes-be_value [] (y ∷ b) l ha hb = absurd (omega arith)
compare_bytes-be_value (x ∷ a) [] l ha hb = absurd (omega arith)
compare_bytes-be_value (x ∷ a) (y ∷ b) l (hx, ha) (hy, hb) =
    let rest = compare_bytes-be_value a b (omega arith) ha hb in
    let same_length : length a ≡ length b = omega arith in
    let bound_a : be_value a < 256 ^ length b =
      subst (λ n. be_value a < 256 ^ n) same_length (be_value_bound a ha) in
    let rows =
      compare_rows x y (256 ^ length b) (be_value a) (be_value b) bound_a (be_value_bound b hb) in
    rw same_length (rw (rest, rows) refl)

be_value-write_u64_be : (v : ℕ) → IsU64 v → be_value (write_u64_be v) ≡ v
unfolding write_u64_be
be_value-write_u64_be v h = omega arith

pub compare_bytes-write_u64_be :
    (a b : ℕ)
    → IsU64 a
    → IsU64 b
    → compare_bytes (write_u64_be a) (write_u64_be b) ≡ compare_numbers a b
unfolding write_u64_be
compare_bytes-write_u64_be a b ha hb =
    compare_bytes-be_value (write_u64_be a) (write_u64_be b) (omega arith) (write_u64_be-IsByte a)
      (write_u64_be-IsByte b)
    ∙ rw (be_value-write_u64_be a ha) (rw (be_value-write_u64_be b hb) refl)

-- The first comparison, or the second where the first finds no difference.
abbrev pub lexicographic : Comparison → Comparison → Comparison
lexicographic less second = less
lexicographic same second = second
lexicographic greater second = greater

pub compare_bytes-append :
    (p q x y : List ℕ)
    → length p ≡ length q
    → compare_bytes (p ++ x) (q ++ y) ≡ lexicographic (compare_bytes p q) (compare_bytes x y)
unfolding compare_bytes
compare_bytes-append [] [] x y l = refl
compare_bytes-append [] (b ∷ q) x y l = absurd (omega arith)
compare_bytes-append (a ∷ p) [] x y l = absurd (omega arith)
compare_bytes-append (a ∷ p) (b ∷ q) x y l =
    ground (arith, compare_bytes-append p q x y (omega arith))
