-- ===== src/Stores/Applied.antt =====
-- include/mdbx_containers/sync/stores/AppliedStore.hpp
use mdbx_containers.Prelude.{
  ℕ, Bool, true, false, Option, none, some, ok, throw, length, ◌==◌, if◌then◌else◌, not_found,
  mdbx_exception,
}
use mdbx_containers.Bytes.{write_u64_le, read_u64_le}
use mdbx_containers.NodeId.{NodeId}
use mdbx_containers.Stateful.{◌>>=◌, ◌>>◌, pure}
use mdbx_containers.Mdbx.{Bytes, Mdbx, InTxn, done, failed, name}
use mdbx_containers.Stores.{Store, opened, find, open_table, ensure_open, upsert}

abbrev pub applied_name : Bytes
applied_name = name "_mdbxc_applied"

abbrev pub make : Store
make = record { dbi_name = applied_name; is_open = false }

-- The number in a record of eight bytes; any other record counts as none.
unfoldable pub stored_seq : Option Bytes → ℕ
stored_seq none = 0
stored_seq (some value) = if length value == 8 then read_u64_le value else 0

module _ (db : Mdbx) where
  unfoldable pub open_store : Store → InTxn db Store
  unfolding ◌>>◌ pure open_table
  open_store s = if s.is_open then pure s else do
    open_table db s.dbi_name db.create_flag "Failed to open AppliedStore DBI"
    pure (opened s)

  unfoldable pub last_applied_seq : Store → NodeId → InTxn db ℕ
  unfolding ◌>>=◌ ◌>>◌ pure ensure_open find
  last_applied_seq s origin = do
    ensure_open db s "AppliedStore is not open"
    value ← find db s.dbi_name origin "AppliedStore read failed"
    pure (stored_seq value)

  unfoldable pub set_last_applied_seq : Store → NodeId → ℕ → InTxn db (Unit {0})
  unfolding ◌>>◌ ensure_open upsert
  set_last_applied_seq s origin seq = do
    ensure_open db s "AppliedStore is not open"
    upsert db s.dbi_name origin (write_u64_le seq) "AppliedStore write failed"

  -- `clear`: whether a record was removed
  unfoldable pub clear : Store → NodeId → InTxn db Bool
  unfolding ◌>>◌ ensure_open
  clear s origin = do
    ensure_open db s "AppliedStore is not open"
    λ t. elim (db.del s.dbi_name origin t) [
      | done t' ↦ ok (true, t')
      | failed not_found ↦ ok (false, t)
      | failed rc ↦ throw (mdbx_exception rc "AppliedStore clear failed")
    ]
