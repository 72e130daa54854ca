-- ===== src/Tables/KeyValue/Writes.antt =====
-- include/mdbx_containers/KeyValueTable.hpp: every change that a method makes is recorded.
use mdbx_containers.Prelude.{
  ℕ, ◌+◌, ◌≡◌, ap, true, false, ◌&&◌, Option, List, [], ◌∷◌, ok, arith, bytes_eq, if◌then◌else◌,
  not_found, String,
}
use mdbx_containers.Mdbx.{c_str, Bytes, Mdbx, IsMdbx, done, failed}
use mdbx_containers.Entries.{Entry, is_greater}
use mdbx_containers.Protocol.Batch.{put, delete, clear_table}
use mdbx_containers.Stores.{find}
use mdbx_containers.Tables.{BaseTable, Connection, Serializer, in_txn}
use mdbx_containers.Tables.Laws.{IsCapturing}
use mdbx_containers.Tables.Capture.{
  Captures, Captures-bind, Captures-then, Captures-pure, Captures-of_result, Captures-reading,
  Captures-if, Captures-option, Captures-reads, Captures-check_write, Captures-when, effect,
}
use mdbx_containers.Tables.KeyValue.{
  decoded, db_get, db_contains, write, db_insert_or_assign, put_if_absent, db_insert_if_absent,
  db_update, delete_record, db_erase, db_clear,
}
use mdbx_containers.Tables.KeyValue.Bulk.{
  db_append, remove, remove_stale, db_reconcile, erase_loop, from_lower, db_erase_range,
}

module _ {K V : Type 0} {db : Mdbx} (laws : IsMdbx db) (connection : Connection db)
    (capturing : IsCapturing connection) (s : Serializer K V) (table : BaseTable) where
  find_same :
      (key : Bytes) (context : String) (t t' : db.Txn) (found : Option Bytes) (n k : Bytes)
      → find db (c_str table.dbi_name) key context t ≡ ok (found, t')
      → db.get n k t' ≡ db.get n k t
  unfolding find
  find_same key context t t' found n k h = ap (db.get n k) (ground arith)

  Captures-find :
      (key : Bytes) (context : String)
      → Captures db (in_txn db (find db (c_str table.dbi_name) key context))
  Captures-find key context =
      Captures-reads (find db (c_str table.dbi_name) key context) (find_same key context)

  pub Captures-db_get : (key : K) → Captures db (db_get db connection s table key)
  unfolding db_get
  Captures-db_get key = Captures-bind _ _ (Captures-of_result (s.serialize_key key)) (λ db_key.
      Captures-bind _ _ (Captures-find db_key "Failed to retrieve value")
        (λ db_val. Captures-of_result (decoded s.deserialize_value db_val)))

  pub Captures-db_contains : (key : K) → Captures db (db_contains db connection s table key)
  unfolding db_contains
  Captures-db_contains key = Captures-bind _ _ (Captures-of_result (s.serialize_key key)) (λ db_key.
      Captures-bind _ _ (Captures-find db_key "Failed to check key presence")
        (λ db_val. Captures-pure _))

  Captures-write :
      (k v : Bytes) (context : String) → Captures db (write db connection s table k v context)
  unfolding write effect
  Captures-write k v context =
      Captures-check_write laws connection capturing table context
        (db.put (c_str table.dbi_name) k v) put k v
        (λ t t' n j h. laws.get-put (c_str table.dbi_name) k v t t' n j h)

  pub Captures-db_insert_or_assign :
      (key : K) (value : V) → Captures db (db_insert_or_assign db connection s table key value)
  unfolding db_insert_or_assign
  Captures-db_insert_or_assign key value =
      Captures-bind _ _ (Captures-of_result (s.serialize_key key)) (λ db_key.
        Captures-write db_key (s.serialize_value value) "Failed to insert or assign key-value pair")

  put_if_absent_made :
      (k v : Bytes) (t t' : db.Txn) (n j : Bytes)
      → put_if_absent db connection s table k v t ≡ ok (true, t')
      → db.get n j t'
        ≡ (if bytes_eq (c_str table.dbi_name) n && bytes_eq k j then done v else db.get n j t)
  unfolding put_if_absent
  put_if_absent_made k v t t' n j h =
      ground (arith, laws.get-put_new (c_str table.dbi_name) k v t t' n j)

  put_if_absent_kept :
      (k v : Bytes) (t t' : db.Txn) (n j : Bytes)
      → put_if_absent db connection s table k v t ≡ ok (false, t')
      → db.get n j t' ≡ db.get n j t
  unfolding put_if_absent
  put_if_absent_kept k v t t' n j h = ap (db.get n j) (ground arith)

  pub Captures-db_insert_if_absent :
      (key : K) (value : V) → Captures db (db_insert_if_absent db connection s table key value)
  unfolding db_insert_if_absent effect
  Captures-db_insert_if_absent key value =
      Captures-bind _ _ (Captures-of_result (s.serialize_key key)) (λ db_key.
        let v = s.serialize_value value in
        Captures-when laws connection capturing table (put_if_absent db connection s table db_key v)
          put db_key v (put_if_absent_made db_key v) (put_if_absent_kept db_key v))

  pub Captures-db_update :
      (key : K) (fn : V → V) → Captures db (db_update db connection s table key fn)
  unfolding db_update
  Captures-db_update key fn =
      Captures-bind _ _ (Captures-of_result (s.serialize_key key)) (λ db_key.
        Captures-bind _ _ (Captures-find db_key "Failed to read value for update") (λ db_val.
          Captures-bind _ _ (Captures-of_result (decoded s.deserialize_value db_val)) (λ current.
            Captures-option current _ _ (Captures-pure false) (λ value.
              Captures-then _ _ (Captures-db_insert_or_assign key (fn value))
                (Captures-pure true)))))

  delete_record_made :
      (k : Bytes) (t t' : db.Txn) (n j : Bytes)
      → delete_record db connection s table k t ≡ ok (true, t')
      → db.get n j t' ≡ (
          if bytes_eq (c_str table.dbi_name) n && bytes_eq k j
          then failed not_found
          else db.get n j t)
  unfolding delete_record
  delete_record_made k t t' n j h = ground (arith, laws.get-del (c_str table.dbi_name) k t t' n j)

  delete_record_kept :
      (k : Bytes) (t t' : db.Txn) (n j : Bytes)
      → delete_record db connection s table k t ≡ ok (false, t')
      → db.get n j t' ≡ db.get n j t
  unfolding delete_record
  delete_record_kept k t t' n j h = ap (db.get n j) (ground arith)

  pub Captures-db_erase : (key : K) → Captures db (db_erase db connection s table key)
  unfolding db_erase effect
  Captures-db_erase key = Captures-bind _ _ (Captures-of_result (s.serialize_key key)) (λ db_key.
      Captures-when laws connection capturing table (delete_record db connection s table db_key)
        delete db_key [] (delete_record_made db_key) (delete_record_kept db_key))

  pub Captures-db_clear : Captures db (db_clear db connection s table)
  unfolding db_clear effect
  Captures-db_clear =
      Captures-check_write laws connection capturing table "Failed to clear table"
        (db.clear (c_str table.dbi_name)) clear_table [] []
        (λ t t' n j h. laws.get-clear (c_str table.dbi_name) t t' n j h)

  pub Captures-db_append :
      (container : List (K × V)) → Captures db (db_append db connection s table container)
  unfolding db_append
  Captures-db_append [] = Captures-pure tt
  Captures-db_append ((key, value) ∷ container) =
      Captures-bind _ _ (Captures-of_result (s.serialize_key key)) (λ db_key.
        Captures-then _ _ (Captures-write db_key (s.serialize_value value) "Failed to write record")
          (Captures-db_append container))

  Captures-remove :
      (k : Bytes) (context : String) → Captures db (remove db connection s table k context)
  unfolding remove effect
  Captures-remove k context =
      Captures-check_write laws connection capturing table context (db.del (c_str table.dbi_name) k)
        delete k [] (λ t t' n j h. laws.get-del (c_str table.dbi_name) k t t' n j h)

  Captures-remove_stale :
      (container : List (K × V)) (l : List Entry)
      → Captures db (remove_stale db connection s table container l)
  unfolding remove_stale
  Captures-remove_stale container [] = Captures-pure tt
  Captures-remove_stale container ((k, v) ∷ l) =
      Captures-bind _ _ (Captures-of_result (s.deserialize_key k)) (λ key.
        Captures-then _ _
          (Captures-if _ _ _ (Captures-pure tt)
            (Captures-remove k "Failed to delete record using cursor"))
          (Captures-remove_stale container l))

  pub Captures-db_reconcile :
      (container : List (K × V)) → Captures db (db_reconcile db connection s table container)
  unfolding db_reconcile
  Captures-db_reconcile container = Captures-then _ _ (Captures-db_append container) (
      Captures-bind _ _ (Captures-reading (db.entries (c_str table.dbi_name)))
        (λ l. Captures-remove_stale container l))

  Captures-erase_loop :
      (hi : Bytes) (l : List Entry) (removed : ℕ)
      → Captures db (erase_loop db connection s table hi l removed)
  unfolding erase_loop
  Captures-erase_loop hi [] removed = Captures-pure removed
  Captures-erase_loop hi ((k, v) ∷ l) removed =
      Captures-bind _ _ (Captures-reading (λ t. is_greater (db.cmp (c_str table.dbi_name) t k hi)))
        (λ above. Captures-if above _ _ (Captures-pure removed) (
          Captures-then _ _ (Captures-remove k "Failed to erase pair in range")
            (Captures-erase_loop hi l (removed + 1))))

  pub Captures-db_erase_range :
      (from_key to_key : K) → Captures db (db_erase_range db connection s table from_key to_key)
  unfolding db_erase_range
  Captures-db_erase_range from_key to_key =
      Captures-bind _ _ (Captures-of_result (s.serialize_key from_key)) (λ lo.
        Captures-bind _ _ (Captures-of_result (s.serialize_key to_key)) (λ hi.
          Captures-bind _ _ (Captures-reading (from_lower db connection s table lo hi))
            (λ l. Captures-erase_loop hi l 0)))
