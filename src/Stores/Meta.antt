-- ===== src/Stores/Meta.antt =====
-- include/mdbx_containers/sync/stores/MetaStore.hpp
use mdbx_containers.Prelude.{
  ℕ, ◌+◌, ◌%◌, ◌^◌, false, not, Option, none, some, [], ◌∷◌, ◌++◌, length, take, ◌==◌,
  if◌then◌else◌, runtime_error,
}
use mdbx_containers.Bytes.{write_u32_le, read_u32_le, write_u64_le, read_u64_le}
use mdbx_containers.NodeId.{NodeId, make_zero_node}
use mdbx_containers.Stateful.{◌>>=◌, ◌>>◌, pure, throw_when}
use mdbx_containers.Mdbx.{Bytes, Mdbx, InTxn, name}
use mdbx_containers.Stores
use mdbx_containers.Stores.{Store, find, ensure_open, upsert}

abbrev pub make : Store
make = record { dbi_name = name "_mdbxc_meta"; is_open = false }

abbrev pub key_db_uuid : Bytes
key_db_uuid = 0x01 ∷ []

abbrev pub key_node_id : Bytes
key_node_id = 0x02 ∷ []

abbrev pub key_schema_version : Bytes
key_schema_version = 0x03 ∷ []

abbrev pub key_local_seq : Bytes
key_local_seq = 0x04 ∷ []

abbrev pub key_created_at_ms : Bytes
key_created_at_ms = 0x05 ∷ []

-- The bytes that `read_fixed` copies: the record, cut to `n` bytes.
unfoldable pub fixed : ℕ → Option Bytes → Bytes
fixed n none = []
fixed n (some value) = take n value

-- A zeroed array of 16 bytes that the copied bytes are written over.
unfoldable pub over_zeros : Bytes → NodeId
over_zeros bytes = take 16 (bytes ++ make_zero_node)

module _ (db : Mdbx) where
  unfoldable pub open_store : Store → InTxn db Store
  unfolding Stores.open_store
  open_store s = Stores.open_store db s "Failed to open MetaStore DBI"

  unfoldable pub read_fixed : Store → Bytes → ℕ → InTxn db Bytes
  unfolding ◌>>=◌ ◌>>◌ pure ensure_open find
  read_fixed s key n = do
    ensure_open db s "MetaStore is not open"
    value ← find db s.dbi_name key "MetaStore read failed"
    pure (fixed n value)

  unfoldable pub write_fixed : Store → Bytes → Bytes → InTxn db (Unit {0})
  unfolding ◌>>◌ ensure_open upsert
  write_fixed s key src = do
    ensure_open db s "MetaStore is not open"
    upsert db s.dbi_name key src "MetaStore write failed"

  unfoldable pub get_db_uuid : Store → InTxn db NodeId
  unfolding read_fixed over_zeros
  get_db_uuid s = do bytes ← read_fixed s key_db_uuid 16; pure (over_zeros bytes)

  unfoldable pub set_db_uuid : Store → NodeId → InTxn db (Unit {0})
  unfolding write_fixed
  set_db_uuid s value = write_fixed s key_db_uuid value

  -- The result is none where the identity is unset.
  unfoldable pub try_get_node_id : Store → InTxn db (Option NodeId)
  unfolding ◌>>=◌ ◌>>◌ pure ensure_open find throw_when
  try_get_node_id s = do
    ensure_open db s "MetaStore is not open"
    value ← find db s.dbi_name key_node_id "MetaStore node identity read failed"
    throw_when (elim value [ none ↦ false | some v ↦ not (length v == 16) ])
        (runtime_error "MetaStore node identity has invalid size")
    pure value

  unfoldable pub get_node_id : Store → InTxn db NodeId
  unfolding try_get_node_id
  get_node_id s = do
    value ← try_get_node_id s
    pure (elim value [ none ↦ make_zero_node | some v ↦ v ])

  unfoldable pub set_node_id : Store → NodeId → InTxn db (Unit {0})
  unfolding write_fixed
  set_node_id s value = write_fixed s key_node_id value

  unfoldable pub get_schema_version : Store → InTxn db ℕ
  unfolding read_fixed
  get_schema_version s = do
    bytes ← read_fixed s key_schema_version 4
    pure (if length bytes == 4 then read_u32_le bytes else 0)

  unfoldable pub set_schema_version : Store → ℕ → InTxn db (Unit {0})
  unfolding write_fixed
  set_schema_version s value = write_fixed s key_schema_version (write_u32_le value)

  unfoldable pub get_u64 : Store → Bytes → InTxn db ℕ
  unfolding read_fixed
  get_u64 s key = do
    bytes ← read_fixed s key 8
    pure (if length bytes == 8 then read_u64_le bytes else 0)

  unfoldable pub get_local_seq : Store → InTxn db ℕ
  unfolding get_u64
  get_local_seq s = get_u64 s key_local_seq

  unfoldable pub set_local_seq : Store → ℕ → InTxn db (Unit {0})
  unfolding write_fixed
  set_local_seq s value = write_fixed s key_local_seq (write_u64_le value)

  -- `std::uint64_t` wraps around.
  unfoldable pub increment_local_seq : Store → InTxn db ℕ
  unfolding get_local_seq set_local_seq
  increment_local_seq s = do
    last ← get_local_seq s
    set_local_seq s ((last + 1) % 2 ^ 64)
    pure ((last + 1) % 2 ^ 64)

  unfoldable pub get_created_at_ms : Store → InTxn db ℕ
  unfolding get_u64
  get_created_at_ms s = get_u64 s key_created_at_ms

  unfoldable pub set_created_at_ms : Store → ℕ → InTxn db (Unit {0})
  unfolding write_fixed
  set_created_at_ms s value = write_fixed s key_created_at_ms (write_u64_le value)
