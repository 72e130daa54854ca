-- ===== src/Tables/Sequence.antt =====
-- include/mdbx_containers/SequenceTable.hpp: the private methods that one record is enough for, which the public
-- ones call inside `with_transaction`. The machine is little-endian: a key is the bytes of a 64-bit number as they
-- stand in memory.
use mdbx_containers.Prelude.{
  ℕ, ◌+◌, ◌-◌, ◌^◌, Bool, true, false, Option, none, some, List, [], ◌∷◌, ok, throw, Result,
  if◌then◌else◌, not, ◌==◌, length, key_exist, not_found, mdbx_exception, runtime_error,
  overflow_error,
}
use mdbx_containers.Bytes.{read_u64_le, write_u64_le}
use mdbx_containers.Stateful.{◌>>=◌, ◌>>◌, pure}
use mdbx_containers.Mdbx.{c_str, Bytes, Mdbx, InTxn, done, failed, check_write}
use mdbx_containers.Entries.{Entry}
use mdbx_containers.Protocol.Batch.{put, delete, clear_table}
use mdbx_containers.Stores.{find}
use mdbx_containers.Tables.{BaseTable, Connection, InSession, in_txn, reading, of_result, record_op}
use mdbx_containers.Tables.KeyValue.{decoded}

unfoldable pub read_index_key : Bytes → Result ℕ
unfolding read_u64_le
read_index_key db_key =
    if not (length db_key == 8)
    then throw (runtime_error "SequenceTable: invalid index key")
    else ok (read_u64_le db_key)

-- The index of the record that a cursor is at, none where it is at no record.
unfoldable pub index_at : List Entry → Result (Option ℕ)
unfolding read_index_key
index_at [] = ok none
index_at ((db_key, db_val) ∷ l) = elim (read_index_key db_key) [
  | throw e ↦ throw e
  | ok id ↦ ok (some id)
]

-- The records from the last one on (MDBX_LAST).
unfoldable pub last_record : List Entry → List Entry
last_record [] = []
last_record (e ∷ l) = let rest = last_record l in elim l [ [] ↦ e ∷ [] | f ∷ m ↦ rest ]

-- The index that `db_append` computes from the last one.
unfoldable pub next_id : Option ℕ → Result ℕ
next_id none = ok 0
next_id (some last_id) =
    if last_id == 2 ^ 64 - 1
    then throw (overflow_error "SequenceTable::append: id overflow")
    else ok (last_id + 1)

module _ {V : Type 0} (db : Mdbx) (connection : Connection db) (serialize_value : V → Bytes)
    (deserialize_value : Bytes → Result V) (table : BaseTable) where
  -- The pair of the methods, with none for false.
  unfoldable pub db_first_index : InSession db (Option ℕ)
  unfolding ◌>>=◌ of_result reading index_at
  db_first_index = do
    entries ← reading db (λ t. db.entries (c_str table.dbi_name) t)
    of_result db (index_at entries)

  unfoldable pub db_last_index : InSession db (Option ℕ)
  unfolding ◌>>=◌ of_result reading index_at last_record
  db_last_index = do
    entries ← reading db (λ t. last_record (db.entries (c_str table.dbi_name) t))
    of_result db (index_at entries)

  -- `mdbx_put` with MDBX_NOOVERWRITE.
  unfoldable pub put_next : Bytes → Bytes → InTxn db (Unit {0})
  put_next db_key db_val t = elim (db.put_new (c_str table.dbi_name) db_key db_val t) [
    | done t' ↦ ok (tt, t')
    | failed key_exist ↦ throw (
        runtime_error
          "SequenceTable::append: computed next index already exists; concurrent append requires external synchronization or retry")
    | failed rc ↦ throw (mdbx_exception rc "Failed to append value")
  ]

  unfoldable pub db_append : V → InSession db ℕ
  unfolding ◌>>=◌ ◌>>◌ pure of_result db_last_index next_id in_txn put_next record_op write_u64_le
  db_append value = do
    last_id ← db_last_index
    id ← of_result db (next_id last_id)
    in_txn db (put_next (write_u64_le id) (serialize_value value))
    record_op db connection table put (write_u64_le id) (serialize_value value)
    pure id

  unfoldable pub db_set : ℕ → V → InSession db (Unit {0})
  unfolding ◌>>◌ in_txn check_write record_op write_u64_le
  db_set id value = do
    in_txn db (
        check_write "Failed to set value"
          (db.put (c_str table.dbi_name) (write_u64_le id) (serialize_value value)))
    record_op db connection table put (write_u64_le id) (serialize_value value)

  unfoldable pub db_get : ℕ → InSession db (Option V)
  unfolding ◌>>=◌ of_result in_txn find decoded write_u64_le
  db_get id = do
    db_val ← in_txn db (find db (c_str table.dbi_name) (write_u64_le id) "Failed to get value")
    of_result db (decoded deserialize_value db_val)

  unfoldable pub db_contains : ℕ → InSession db Bool
  unfolding ◌>>=◌ pure in_txn find write_u64_le
  db_contains id = do
    db_val ←
        in_txn db
          (find db (c_str table.dbi_name) (write_u64_le id) "Failed to check value presence")
    pure (elim db_val [ none ↦ false | some bytes ↦ true ])

  unfoldable pub delete_index : Bytes → InTxn db Bool
  delete_index db_key t = elim (db.del (c_str table.dbi_name) db_key t) [
    | done t' ↦ ok (true, t')
    | failed not_found ↦ ok (false, t)
    | failed rc ↦ throw (mdbx_exception rc "Failed to erase value")
  ]

  unfoldable pub db_erase : ℕ → InSession db Bool
  unfolding ◌>>=◌ ◌>>◌ pure in_txn delete_index record_op write_u64_le
  db_erase id = do
    found ← in_txn db (delete_index (write_u64_le id))
    if found
        then (record_op db connection table delete (write_u64_le id) [] >> pure true)
        else pure false

  unfoldable pub db_clear : InSession db (Unit {0})
  unfolding ◌>>◌ in_txn check_write record_op
  db_clear = do
    in_txn db (check_write "Failed to clear SequenceTable" (db.clear (c_str table.dbi_name)))
    record_op db connection table clear_table [] []
