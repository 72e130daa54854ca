-- ===== src/Tables/KeyValue/Bulk.antt =====
-- include/mdbx_containers/KeyValueTable.hpp: the methods that write or remove many records.
use mdbx_containers.Prelude.{ℕ, ◌+◌, Bool, false, ◌||◌, List, [], ◌∷◌, if◌then◌else◌, String}
use mdbx_containers.Stateful.{◌>>=◌, ◌>>◌, pure}
use mdbx_containers.Mdbx.{c_str, Bytes, Mdbx, check_write}
use mdbx_containers.Entries.{Entry, is_greater, seek}
use mdbx_containers.Protocol.Batch.{delete}
use mdbx_containers.Tables.{
  BaseTable, Connection, Serializer, InSession, in_txn, reading, of_result, record_op,
}
use mdbx_containers.Tables.KeyValue.{write}

module _ {K V : Type 0} (db : Mdbx) (connection : Connection db) (s : Serializer K V)
    (table : BaseTable) where
  unfoldable pub db_append : List (K × V) → InSession db (Unit {0})
  unfolding ◌>>=◌ ◌>>◌ pure of_result write
  db_append [] = pure tt
  db_append ((key, value) ∷ container) = do
    db_key ← of_result db (s.serialize_key key)
    write db connection s table db_key (s.serialize_value value) "Failed to write record"
    db_append container

  -- `mdbx_cursor_del` at the record and `record_op`, with the caller's message.
  unfoldable pub remove : Bytes → String → InSession db (Unit {0})
  unfolding ◌>>◌ in_txn check_write record_op
  remove db_key context = do
    in_txn db (check_write context (db.del (c_str table.dbi_name) db_key))
    record_op db connection table delete db_key []

  -- `new_keys.find(key) != new_keys.end()`
  unfoldable pub holds_key : K → List (K × V) → Bool
  holds_key key [] = false
  holds_key key ((j, value) ∷ container) = s.equal_keys j key || holds_key key container

  -- The second loop of `db_reconcile`, over the records that the cursor visits.
  unfoldable pub remove_stale : List (K × V) → List Entry → InSession db (Unit {0})
  unfolding ◌>>=◌ ◌>>◌ pure of_result holds_key remove
  remove_stale container [] = pure tt
  remove_stale container ((k, v) ∷ records) = do
    key ← of_result db (s.deserialize_key k)
    if holds_key key container then pure tt else remove k "Failed to delete record using cursor"
    remove_stale container records

  unfoldable pub db_reconcile : List (K × V) → InSession db (Unit {0})
  unfolding ◌>>=◌ ◌>>◌ db_append reading remove_stale
  db_reconcile container = do
    db_append container
    records ← reading db (db.entries (c_str table.dbi_name))
    remove_stale container records

  -- The loop of `db_erase_range`, from a count of removed records. The bound is compared before each removal.
  unfoldable pub erase_loop : Bytes → List Entry → ℕ → InSession db ℕ
  unfolding ◌>>◌ ◌>>=◌ pure reading remove
  erase_loop hi [] removed = pure removed
  erase_loop hi ((k, v) ∷ records) removed = do
    above ← reading db (λ t. is_greater (db.cmp (c_str table.dbi_name) t k hi))
    if above
        then pure removed
        else do remove k "Failed to erase pair in range"; erase_loop hi records (removed + 1)

  unfoldable pub from_lower : Bytes → Bytes → db.Txn → List Entry
  from_lower lo hi t =
      if is_greater (db.cmp (c_str table.dbi_name) t lo hi)
      then []
      else seek (db.cmp (c_str table.dbi_name) t) lo (db.entries (c_str table.dbi_name) t)

  unfoldable pub db_erase_range : K → K → InSession db ℕ
  unfolding ◌>>=◌ of_result reading from_lower erase_loop
  db_erase_range from_key to_key = do
    lo ← of_result db (s.serialize_key from_key)
    hi ← of_result db (s.serialize_key to_key)
    records ← reading db (from_lower lo hi)
    erase_loop hi records 0
