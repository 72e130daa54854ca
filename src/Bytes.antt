-- ===== src/Bytes.antt =====
-- include/mdbx_containers/sync/common.hpp: the byte-order helpers. A byte buffer is a list of
-- numbers below 256; `value & 0xff` is `value % 256`, `value >> k` is `value / 2 ^ k`, and `b << k`
-- is `b * 2 ^ k` reduced to the width of its type.
pub mod Words
use mathlib.Core.List.{foldl}
use mdbx_containers.Prelude.{
  ℕ, zero, suc, ◌+◌, ◌-◌, ◌*◌, ◌/◌, ◌%◌, ◌^◌, ◌<◌, bit_or, List, [], ◌∷◌, ◌++◌, map, All,
}

abbrev pub IsByte : ℕ → Type 0
IsByte b = b < 256

abbrev pub IsU32 : ℕ → Type 0
IsU32 v = v < 2 ^ 32

abbrev pub IsU64 : ℕ → Type 0
IsU64 v = v < 2 ^ 64

-- `static_cast<std::uint32_t>` of a size
abbrev pub to_u32 : ℕ → ℕ
to_u32 n = n % 2 ^ 32

unfoldable pub write_u16_le : ℕ → List ℕ
write_u16_le value = value % 256 ∷ value / 2 ^ 8 % 256 ∷ []

unfoldable pub write_u32_le : ℕ → List ℕ
write_u32_le value =
    value % 256 ∷ value / 2 ^ 8 % 256 ∷ value / 2 ^ 16 % 256 ∷ value / 2 ^ 24 % 256 ∷ []

-- The values of `i` in the loops over eight bytes.
abbrev pub eight : List ℕ
eight = 0 ∷ 1 ∷ 2 ∷ 3 ∷ 4 ∷ 5 ∷ 6 ∷ 7 ∷ []

unfoldable pub write_u64_le : ℕ → List ℕ
write_u64_le value = map (λ i. value / 2 ^ (i * 8) % 256) eight

unfoldable pub write_u64_be : ℕ → List ℕ
write_u64_be value = map (λ i. value / 2 ^ ((7 - i) * 8) % 256) eight

-- The reads are made of a pointer to enough bytes; a shorter list stands for no call of the source.
unfoldable pub read_u16_le : List ℕ → ℕ
read_u16_le (b0 ∷ b1 ∷ rest) = bit_or b0 (b1 * 2 ^ 8) % 2 ^ 16
read_u16_le _ = 0

unfoldable pub read_u32_le : List ℕ → ℕ
read_u32_le (b0 ∷ b1 ∷ b2 ∷ b3 ∷ rest) =
    bit_or (bit_or (bit_or b0 (b1 * 2 ^ 8 % 2 ^ 32)) (b2 * 2 ^ 16 % 2 ^ 32)) (b3 * 2 ^ 24 % 2 ^ 32)
read_u32_le _ = 0

abbrev read_le_loop : ℕ → ℕ → ℕ → List ℕ → ℕ
read_le_loop zero i out bytes = out
read_le_loop (suc rounds) i out [] = out
read_le_loop (suc rounds) i out (b ∷ bytes) =
    read_le_loop rounds (i + 1) (bit_or out (b * 2 ^ (i * 8) % 2 ^ 64)) bytes

unfoldable pub read_u64_le : List ℕ → ℕ
read_u64_le bytes = read_le_loop 8 0 0 bytes

abbrev read_be_loop : ℕ → ℕ → List ℕ → ℕ
read_be_loop zero out bytes = out
read_be_loop (suc rounds) out [] = out
read_be_loop (suc rounds) out (b ∷ bytes) =
    read_be_loop rounds (bit_or (out * 2 ^ 8 % 2 ^ 64) b) bytes

unfoldable pub read_u64_be : List ℕ → ℕ
read_u64_be bytes = read_be_loop 8 0 bytes

unfoldable pub append_u16_le : List ℕ → ℕ → List ℕ
append_u16_le out value = out ++ write_u16_le value

unfoldable pub append_u32_le : List ℕ → ℕ → List ℕ
append_u32_le out value = out ++ write_u32_le value

unfoldable pub append_u64_le : List ℕ → ℕ → List ℕ
append_u64_le out value = out ++ write_u64_le value

unfoldable pub append_u64_be : List ℕ → ℕ → List ℕ
append_u64_be out value = out ++ write_u64_be value

-- `fnv1a_64`: the loop over the characters of a string, as bytes.
fnv1a_step : ℕ → ℕ → ℕ
fnv1a_step h c = Prim.Native.Nat.bit_xor h (c % 256) * 0x100000001b3 % 2 ^ 64

unfoldable pub fnv1a_64 : List ℕ → ℕ
unfolding fnv1a_step
fnv1a_64 = foldl fnv1a_step 0xcbf29ce484222325
