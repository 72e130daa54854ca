-- ===== src/Bytes/Words.antt =====
-- Round trips and shapes of the byte-order helpers.
use mdbx_containers.Prelude.{
  ℕ, ◌+◌, ◌*◌, ◌/◌, ◌%◌, ◌^◌, ◌<◌, bit_or, ◌≡◌, refl, ◌∙◌, List, ◌∷◌, ◌++◌, arith, All, length,
}
use mdbx_containers.Prelude.Bits.{bit_or_shifted, shifted_bit_or}
use mdbx_containers.Bytes.{
  IsByte, IsU32, IsU64, write_u16_le, write_u32_le, write_u64_le, write_u64_be, read_u16_le,
  read_u32_le, read_u64_le, read_u64_be,
}

pub read-write_u16 : (v : ℕ) (rest : List ℕ) → v < 2 ^ 16 → read_u16_le (write_u16_le v ++ rest) ≡ v
unfolding read_u16_le write_u16_le
read-write_u16 v rest h = omega (arith, bit_or_shifted 8 (v % 256) (v / 2 ^ 8 % 256) (omega arith))

-- One round of a little-endian read: `out | (b << k)` where nothing overlaps and nothing is cut.
or_round :
    (k w out b : ℕ) → out < 2 ^ k → b * 2 ^ k < w → bit_or out (b * 2 ^ k % w) ≡ out + b * 2 ^ k
or_round k w out b h cut =
    let e : b * 2 ^ k % w ≡ b * 2 ^ k = native.Mathlib.Nat.mod-eq_of_lt cut in
    rw e (bit_or_shifted k out b h)

pub read-write_u32 : (v : ℕ) (rest : List ℕ) → IsU32 v → read_u32_le (write_u32_le v ++ rest) ≡ v
unfolding read_u32_le write_u32_le
read-write_u32 v rest h =
    let b0 = v % 256 in
    let b1 = v / 2 ^ 8 % 256 in
    let b2 = v / 2 ^ 16 % 256 in
    let b3 = v / 2 ^ 24 % 256 in
    rw (or_round 8 (2 ^ 32) b0 b1 (omega arith) (omega arith)) (
      rw (or_round 16 (2 ^ 32) (b0 + b1 * 2 ^ 8) b2 (omega arith) (omega arith)) (
        rw (or_round 24 (2 ^ 32) (b0 + b1 * 2 ^ 8 + b2 * 2 ^ 16) b3 (omega arith) (omega arith))
          (omega arith)))

-- The number that eight bytes stand for, least significant first.
abbrev le_value : ℕ → ℕ → ℕ → ℕ → ℕ → ℕ → ℕ → ℕ → ℕ
le_value b0 b1 b2 b3 b4 b5 b6 b7 =
    b0
    + b1 * 2 ^ 8
    + b2 * 2 ^ 16
    + b3 * 2 ^ 24
    + b4 * 2 ^ 32
    + b5 * 2 ^ 40
    + b6 * 2 ^ 48
    + b7 * 2 ^ 56

module _ (b0 b1 b2 b3 b4 b5 b6 b7 : ℕ) (rest : List ℕ) where
  abbrev AreBytes : Type 0
  AreBytes =
      IsByte b0 × IsByte b1 × IsByte b2 × IsByte b3 × IsByte b4 × IsByte b5 × IsByte b6 × IsByte b7

  read_u64_le_sum :
      AreBytes
      → read_u64_le (b0 ∷ b1 ∷ b2 ∷ b3 ∷ b4 ∷ b5 ∷ b6 ∷ b7 ∷ rest)
        ≡ le_value b0 b1 b2 b3 b4 b5 b6 b7
  unfolding read_u64_le
  read_u64_le_sum (h0, h1, h2, h3, h4, h5, h6, h7) =
      let s0 : ℕ = 0 + b0 * 2 ^ 0 in
      let s1 : ℕ = s0 + b1 * 2 ^ 8 in
      let s2 : ℕ = s1 + b2 * 2 ^ 16 in
      let s3 : ℕ = s2 + b3 * 2 ^ 24 in
      let s4 : ℕ = s3 + b4 * 2 ^ 32 in
      let s5 : ℕ = s4 + b5 * 2 ^ 40 in
      let s6 : ℕ = s5 + b6 * 2 ^ 48 in
      rw (or_round 0 (2 ^ 64) 0 b0 (omega arith) (omega arith)) (
        rw (or_round 8 (2 ^ 64) s0 b1 (omega arith) (omega arith)) (
          rw (or_round 16 (2 ^ 64) s1 b2 (omega arith) (omega arith)) (
            rw (or_round 24 (2 ^ 64) s2 b3 (omega arith) (omega arith)) (
              rw (or_round 32 (2 ^ 64) s3 b4 (omega arith) (omega arith)) (
                rw (or_round 40 (2 ^ 64) s4 b5 (omega arith) (omega arith)) (
                  rw (or_round 48 (2 ^ 64) s5 b6 (omega arith) (omega arith)) (
                    rw (or_round 56 (2 ^ 64) s6 b7 (omega arith) (omega arith)) (omega arith))))))))

-- `read_u64_le` reads back a number of 64 bits from the eight little-endian bytes that `write_u64_le` made of it,
-- whatever bytes follow.
pub read-write_u64_le : (v : ℕ) (rest : List ℕ) → IsU64 v → read_u64_le (write_u64_le v ++ rest) ≡ v
unfolding write_u64_le
read-write_u64_le v rest h =
    read_u64_le_sum (v / 2 ^ 0 % 256) (v / 2 ^ 8 % 256) (v / 2 ^ 16 % 256) (v / 2 ^ 24 % 256)
      (v / 2 ^ 32 % 256) (v / 2 ^ 40 % 256) (v / 2 ^ 48 % 256) (v / 2 ^ 56 % 256) rest (omega arith)
    ∙ omega arith

-- One round of a big-endian read.
be_round : (out b : ℕ) → out < 2 ^ 56 → IsByte b → bit_or (out * 2 ^ 8 % 2 ^ 64) b ≡ out * 2 ^ 8 + b
be_round out b h hb =
    let e : out * 2 ^ 8 % 2 ^ 64 ≡ out * 2 ^ 8 = omega arith in rw e (shifted_bit_or 8 b out hb)

module _ (b7 b6 b5 b4 b3 b2 b1 b0 : ℕ) (rest : List ℕ) where
  read_u64_be_sum :
      AreBytes b0 b1 b2 b3 b4 b5 b6 b7 rest
      → read_u64_be (b7 ∷ b6 ∷ b5 ∷ b4 ∷ b3 ∷ b2 ∷ b1 ∷ b0 ∷ rest)
        ≡ le_value b0 b1 b2 b3 b4 b5 b6 b7
  unfolding read_u64_be
  read_u64_be_sum (h0, h1, h2, h3, h4, h5, h6, h7) =
      let s0 : ℕ = 0 * 2 ^ 8 + b7 in
      let s1 : ℕ = s0 * 2 ^ 8 + b6 in
      let s2 : ℕ = s1 * 2 ^ 8 + b5 in
      let s3 : ℕ = s2 * 2 ^ 8 + b4 in
      let s4 : ℕ = s3 * 2 ^ 8 + b3 in
      let s5 : ℕ = s4 * 2 ^ 8 + b2 in
      let s6 : ℕ = s5 * 2 ^ 8 + b1 in
      rw (be_round 0 b7 (omega arith) h7) (
        rw (be_round s0 b6 (omega arith) h6) (
          rw (be_round s1 b5 (omega arith) h5) (
            rw (be_round s2 b4 (omega arith) h4) (
              rw (be_round s3 b3 (omega arith) h3) (
                rw (be_round s4 b2 (omega arith) h2) (
                  rw (be_round s5 b1 (omega arith) h1)
                    (rw (be_round s6 b0 (omega arith) h0) (omega arith))))))))

-- `read_u64_be` reads back a number of 64 bits from the eight big-endian bytes that `write_u64_be` made of it,
-- whatever bytes follow.
pub read-write_u64_be : (v : ℕ) (rest : List ℕ) → IsU64 v → read_u64_be (write_u64_be v ++ rest) ≡ v
unfolding write_u64_be
read-write_u64_be v rest h =
    read_u64_be_sum (v / 2 ^ 56 % 256) (v / 2 ^ 48 % 256) (v / 2 ^ 40 % 256) (v / 2 ^ 32 % 256)
      (v / 2 ^ 24 % 256) (v / 2 ^ 16 % 256) (v / 2 ^ 8 % 256) (v / 2 ^ 0 % 256) rest (omega arith)
    ∙ omega arith

pub length-write_u16_le : (v : ℕ) → length (write_u16_le v) ≡ 2
unfolding write_u16_le
length-write_u16_le v = refl

pub length-write_u32_le : (v : ℕ) → length (write_u32_le v) ≡ 4
unfolding write_u32_le
length-write_u32_le v = refl

pub length-write_u64_le : (v : ℕ) → length (write_u64_le v) ≡ 8
unfolding write_u64_le
length-write_u64_le v = refl

pub length-write_u64_be : (v : ℕ) → length (write_u64_be v) ≡ 8
unfolding write_u64_be
length-write_u64_be v = refl

pub write_u16_le-IsByte : (v : ℕ) → All IsByte (write_u16_le v)
unfolding write_u16_le
write_u16_le-IsByte v = omega arith

pub write_u32_le-IsByte : (v : ℕ) → All IsByte (write_u32_le v)
unfolding write_u32_le
write_u32_le-IsByte v = omega arith

pub write_u64_le-IsByte : (v : ℕ) → All IsByte (write_u64_le v)
unfolding write_u64_le
write_u64_le-IsByte v = omega arith

pub write_u64_be-IsByte : (v : ℕ) → All IsByte (write_u64_be v)
unfolding write_u64_be
write_u64_be-IsByte v = omega arith
