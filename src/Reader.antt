-- ===== src/Reader.antt =====
-- The `Cursor` of include/mdbx_containers/sync/protocol/ChangeBatchCodec.hpp and the reads that
-- advance it. A cursor over a buffer is the bytes from its position on, with the position, so
-- `cur.pos + n > cur.size` is `n > length cur.rest`. (The position and `n`, a 32-bit size, are added
-- in `std::size_t`: the sum does not wrap on a 64-bit host.)
pub mod Reads
pub mod Extends
pub mod Ensures
use mdbx_containers.Prelude.{
  ℕ, zero, suc, ◌+◌, String, Bool, true, false, Option, none, some, List, [], ◌∷◌, ltb, length,
  take, drop, Exception, runtime_error, length_error, Result, ok, throw, throw_if, arith,
}
unfoldable pub use mdbx_containers.Stateful.{◌>>=◌, ◌>>◌, pure, throw_when}
use mdbx_containers.Stateful.{Stateful}
use mdbx_containers.Bytes.{read_u16_le, read_u32_le, read_u64_le}

pub record Cursor : Type 0 where
  pub rest : List ℕ
  pub pos : ℕ

-- A function that takes `Cursor&` and may throw.
abbrev pub Read : Type 0 → Type 0
Read = Stateful Cursor

-- The message differs from codec to codec.
unfoldable pub check_bounds : String → Cursor → ℕ → Result (Unit {0})
check_bounds underrun c n = throw_if (ltb (length c.rest) n) (runtime_error underrun)

-- `read_bytes` and `read_bytes_ptr`: the next `n` bytes.
unfoldable pub read_bytes : String → ℕ → Read (List ℕ)
unfolding check_bounds
read_bytes underrun n c = elim (check_bounds underrun c n) [
  | ok _ ↦ ok (take n c.rest, record { rest = drop n c.rest; pos = c.pos + n })
  | throw e ↦ throw e
]

-- The number that the next `n` bytes stand for.
unfoldable pub read_number : String → ℕ → (List ℕ → ℕ) → Read ℕ
unfolding check_bounds
read_number underrun n value c = elim (check_bounds underrun c n) [
  | ok _ ↦ ok (value c.rest, record { rest = drop n c.rest; pos = c.pos + n })
  | throw e ↦ throw e
]

abbrev pub first_byte : List ℕ → ℕ
first_byte [] = 0
first_byte (b ∷ bytes) = b

unfoldable pub read_u8 : String → Read ℕ
read_u8 underrun = read_number underrun 1 first_byte

unfoldable pub read_u16 : String → Read ℕ
read_u16 underrun = read_number underrun 2 read_u16_le

unfoldable pub read_u32 : String → Read ℕ
read_u32 underrun = read_number underrun 4 read_u32_le

unfoldable pub read_u64 : String → Read ℕ
read_u64 underrun = read_number underrun 8 read_u64_le

-- A size, refused above the limit where there is one, and that many bytes.
unfoldable pub read_sized : String → Option ℕ → String → Read (List ℕ)
read_sized underrun limit message = do
  size ← read_u32 underrun
  throw_when (elim limit [ none ↦ false | some most ↦ ltb most size ]) (length_error message)
  read_bytes underrun size
