-- ===== src/Tables/KeyValue.antt =====
-- include/mdbx_containers/KeyValueTable.hpp: the private methods `db_*`, which the public ones call inside
-- `with_transaction`. A container that a method fills is the list of what it is given.
pub mod Ranges
pub mod Bulk
pub mod Writes
pub mod Spec
pub mod Replay
pub mod Refinement
pub mod Refined
pub mod Steps
pub mod Reconcile
pub mod Between
use mdbx_containers.Prelude.{
  ℕ, Bool, true, false, Option, none, some, List, [], ◌∷◌, ok, throw, Result, if◌then◌else◌,
  key_exist, not_found, mdbx_exception, String,
}
use mdbx_containers.Stateful.{◌>>=◌, ◌>>◌, pure}
use mdbx_containers.Mdbx.{c_str, Bytes, Mdbx, InTxn, done, failed, check_write}
use mdbx_containers.Protocol.Batch.{put, delete, clear_table}
use mdbx_containers.Stores.{find}
use mdbx_containers.Tables.{
  BaseTable, Connection, Serializer, InSession, in_txn, reading, of_result, record_op,
}

-- The value of a record, where there is one.
unfoldable pub decoded : {V : Type 0} → (Bytes → Result V) → Option Bytes → Result (Option V)
decoded deserialize none = ok none
decoded deserialize (some bytes) = elim (deserialize bytes) [
  | ok value ↦ ok (some value)
  | throw e ↦ throw e
]

module _ {K V : Type 0} (db : Mdbx) (connection : Connection db) (s : Serializer K V)
    (table : BaseTable) where
  -- The result is none where the method returns false.
  unfoldable pub db_get : K → InSession db (Option V)
  unfolding ◌>>=◌ of_result in_txn find decoded
  db_get key = do
    db_key ← of_result db (s.serialize_key key)
    db_val ← in_txn db (find db (c_str table.dbi_name) db_key "Failed to retrieve value")
    of_result db (decoded s.deserialize_value db_val)

  unfoldable pub db_contains : K → InSession db Bool
  unfolding ◌>>=◌ pure of_result in_txn find
  db_contains key = do
    db_key ← of_result db (s.serialize_key key)
    db_val ← in_txn db (find db (c_str table.dbi_name) db_key "Failed to check key presence")
    pure (elim db_val [ none ↦ false | some bytes ↦ true ])

  -- `mdbx_put` with MDBX_UPSERT and `record_op`, with the caller's message.
  unfoldable pub write : Bytes → Bytes → String → InSession db (Unit {0})
  unfolding ◌>>◌ in_txn check_write record_op
  write db_key db_val context = do
    in_txn db (check_write context (db.put (c_str table.dbi_name) db_key db_val))
    record_op db connection table put db_key db_val

  unfoldable pub db_insert_or_assign : K → V → InSession db (Unit {0})
  unfolding ◌>>=◌ of_result write
  db_insert_or_assign key value = do
    db_key ← of_result db (s.serialize_key key)
    write db_key (s.serialize_value value) "Failed to insert or assign key-value pair"

  unfoldable pub put_if_absent : Bytes → Bytes → InTxn db Bool
  put_if_absent db_key db_val t = elim (db.put_new (c_str table.dbi_name) db_key db_val t) [
    | done t' ↦ ok (true, t')
    | failed key_exist ↦ ok (false, t)
    | failed rc ↦ throw (mdbx_exception rc "Failed to insert key-value pair")
  ]

  unfoldable pub db_insert_if_absent : K → V → InSession db Bool
  unfolding ◌>>=◌ ◌>>◌ pure of_result in_txn put_if_absent record_op
  db_insert_if_absent key value = do
    db_key ← of_result db (s.serialize_key key)
    inserted ← in_txn db (put_if_absent db_key (s.serialize_value value))
    if inserted
        then (record_op db connection table put db_key (s.serialize_value value) >> pure true)
        else pure false

  -- `fn` changes the value in place.
  unfoldable pub db_update : K → (V → V) → InSession db Bool
  unfolding ◌>>=◌ ◌>>◌ pure of_result in_txn find decoded db_insert_or_assign
  db_update key fn = do
    db_key ← of_result db (s.serialize_key key)
    db_val ← in_txn db (find db (c_str table.dbi_name) db_key "Failed to read value for update")
    current ← of_result db (decoded s.deserialize_value db_val)
    elim current [
      | none ↦ pure false
      | some value ↦ db_insert_or_assign key (fn value) >> pure true
    ]

  unfoldable pub delete_record : Bytes → InTxn db Bool
  delete_record db_key t = elim (db.del (c_str table.dbi_name) db_key t) [
    | done t' ↦ ok (true, t')
    | failed not_found ↦ ok (false, t)
    | failed rc ↦ throw (mdbx_exception rc "Failed to erase key")
  ]

  unfoldable pub db_erase : K → InSession db Bool
  unfolding ◌>>=◌ ◌>>◌ pure of_result in_txn delete_record record_op
  db_erase key = do
    db_key ← of_result db (s.serialize_key key)
    found ← in_txn db (delete_record db_key)
    if found then (record_op db connection table delete db_key [] >> pure true) else pure false

  unfoldable pub db_clear : InSession db (Unit {0})
  unfolding ◌>>◌ in_txn check_write record_op
  db_clear = do
    in_txn db (check_write "Failed to clear table" (db.clear (c_str table.dbi_name)))
    record_op db connection table clear_table [] []

  -- `db_find_many_vector`
  unfoldable pub db_find_many : List K → InSession db (List (K × V))
  unfolding ◌>>=◌ pure db_get
  db_find_many [] = pure []
  db_find_many (key ∷ keys) = do
    value ← db_get key
    found ← db_find_many keys
    pure (elim value [ none ↦ found | some v ↦ (key, v) ∷ found ])

  -- `AssignmentProxy::operator ValueT`: a missing key gets the default value.
  unfoldable pub read_or_insert : V → K → InSession db V
  unfolding ◌>>=◌ ◌>>◌ pure db_get db_insert_or_assign
  read_or_insert def key = do
    found ← db_get key
    elim found [ none ↦ db_insert_or_assign key def >> pure def | some value ↦ pure value ]
