-- ===== src/Tables/KeyValue/Refined.antt =====
-- include/mdbx_containers/KeyValueTable.hpp: the table is a map.
use mdbx_containers.Prelude.{
  ◌≡◌, refl, sym, ap, ◌∙◌, subst, Bool, true, false, ◌&&◌, Option, none, some, List, [], ◌∷◌, ok,
  arith, bytes_eq, bytes_eq_refl, if◌then◌else◌, not_found, key_exist, incompatible, einval,
  eaccess, result_true, other_code, not,
}
use mdbx_containers.Stateful.{◌>>=◌, ◌>>◌, pure}
use mdbx_containers.Stateful.Laws.{bind-eq-ok, then-eq-ok, pure-eq-ok}
use mdbx_containers.Mdbx.{c_str, Bytes, Mdbx, IsMdbx, Call, done, failed, check_write}
use mdbx_containers.Protocol.Batch.{ChangeOpType, ChangeOp, put, delete, clear_table}
use mdbx_containers.Stores.{find}
use mdbx_containers.Tables.{
  BaseTable, Connection, Serializer, IsSerializer, InSession, in_txn, of_result, record_op,
}
use mdbx_containers.Tables.Laws.{of_result-eq-ok, in_txn-eq-ok, record_op_same}
use mdbx_containers.Tables.KeyValue.{
  decoded, write, db_insert_or_assign, put_if_absent, db_insert_if_absent, db_update, delete_record,
  db_erase, db_clear,
}
use mdbx_containers.Tables.KeyValue.Bulk.{db_append}
use mdbx_containers.Tables.KeyValue.Spec.{Map, assign, assign_all, unassign, is_some}
use mdbx_containers.Tables.KeyValue.Refinement.{
  Represents, encoded, same_keys, key-eq-ok, find_next, decoded-encoded, put-Represents,
  write-Represents, check_write-eq-ok, db_insert_or_assign-Represents, Session,
}

module _ {K V : Type 0} (db : Mdbx) (laws : IsMdbx db) (connection : Connection db)
    (s : Serializer K V) (serializes : IsSerializer s) (table : BaseTable) where
  abbrev Holds : db.Txn → Map K V → Type 0
  Holds = Represents db laws connection s serializes table

  -- `insert_if_absent` and `erase` go on with a record of the change where they made one.
  recorded-eq-ok :
      (type : ChangeOpType) (k v : Bytes) (made result : Bool)
      (u u' : Session db laws connection s serializes table)
      → (if made then (record_op db connection table type k v >> pure true) else pure false) u
        ≡ ok (result, u')
      → (result ≡ made) × (u.0 ≡ u'.0)
  recorded-eq-ok type k v true result u u' h =
      let (w, e, j) = then-eq-ok (record_op db connection table type k v) (pure true) u h in
      let (r, same) = pure-eq-ok true result w j in
      (sym r, record_op_same db connection table type k v u w e ∙ ap (λ x. x.0) same)
  recorded-eq-ok type k v false result u u' h =
      let (r, same) = pure-eq-ok false result u h in (sym r, ap (λ x. x.0) same)

  -- A new record for a key without one, or a key that has one.
  put_if_absent-eq-ok :
      (t t' : db.Txn) (m : Map K V) (key : K) (b v : Bytes) (made : Bool)
      → Holds t m
      → s.serialize_key key ≡ ok b
      → put_if_absent db connection s table b v t ≡ ok (made, t')
      → (is_some (m key) ≡ not made)
        × ((c : Bytes)
            → db.get (c_str table.dbi_name) c t'
              ≡ (if made && bytes_eq b c then done v else db.get (c_str table.dbi_name) c t))
  unfolding put_if_absent
  put_if_absent-eq-ok t t' m key b v made r hb h = go (db.put_new (c_str table.dbi_name) b v t) refl
    where
      go :
          (call : Call db.Txn)
          → db.put_new (c_str table.dbi_name) b v t ≡ call
          → (is_some (m key) ≡ not made)
            × ((c : Bytes)
                → db.get (c_str table.dbi_name) c t'
                  ≡ (if made && bytes_eq b c then done v else db.get (c_str table.dbi_name) c t))
      go (done t1) e = (
        ground (arith, laws.put_new_once (c_str table.dbi_name) b v t t1 e, r.holds key b hb),
        λ c. ground (
          arith,
          laws.get-put_new (c_str table.dbi_name) b v t t1 (c_str table.dbi_name) c e,
          bytes_eq_refl (c_str table.dbi_name),
        ),
      )
      go (failed key_exist) e =
          let (w, there) = laws.put_new_exists (c_str table.dbi_name) b v t e in
          (ground (arith, r.holds key b hb, there), λ c. ground arith)
      go (failed not_found) e = ground arith
      go (failed incompatible) e = ground arith
      go (failed einval) e = ground arith
      go (failed eaccess) e = ground arith
      go (failed result_true) e = ground arith
      go (failed (other_code n)) e = ground arith

  inserted-Holds :
      (t t' : db.Txn) (m : Map K V) (key : K) (value : V) (b : Bytes) (made : Bool)
      → Holds t m
      → s.serialize_key key ≡ ok b
      → is_some (m key) ≡ not made
      → ((c : Bytes)
          → db.get (c_str table.dbi_name) c t' ≡ (
              if made && bytes_eq b c
              then done (s.serialize_value value)
              else db.get (c_str table.dbi_name) c t))
      → Holds t' (if is_some (m key) then m else assign s.equal_keys key value m)
  inserted-Holds t t' m key value b true r hb there wrote =
      rw there (put-Represents db laws connection s serializes table t t' m key value b r hb wrote)
  inserted-Holds t t' m key value b false r hb there wrote =
      rw there (record { holds = λ k c hc. wrote c ∙ r.holds k c hc })

  pub db_insert_if_absent-eq-ok :
      (u u' : db.Txn × List ChangeOp) (m : Map K V) (key : K) (value : V) (made : Bool)
      → Holds u.0 m
      → db_insert_if_absent db connection s table key value u ≡ ok (made, u')
      → (made ≡ not (is_some (m key)))
        × Holds u'.0 (if is_some (m key) then m else assign s.equal_keys key value m)
  unfolding db_insert_if_absent
  db_insert_if_absent-eq-ok u u' m key value made r h =
      let v = s.serialize_value value in
      let (b, hb, j) =
        key-eq-ok db laws connection s serializes table key
          (λ b. in_txn db (put_if_absent db connection s table b v) >>= (λ inserted.
            if inserted then (record_op db connection table put b v >> pure true) else pure false))
          u u' made h in
      let (inserted, w, e, i) =
        bind-eq-ok (in_txn db (put_if_absent db connection s table b v))
          (λ inserted.
            if inserted then (record_op db connection table put b v >> pure true) else pure false)
          u j in
      let (called, pending) = in_txn-eq-ok db (put_if_absent db connection s table b v) u w e in
      let (there, wrote) = put_if_absent-eq-ok u.0 w.0 m key b v inserted r hb called in
      let (same, kept) = recorded-eq-ok put b v inserted made w u' i in
      (
        ground arith,
        subst (λ t. Holds t (if is_some (m key) then m else assign s.equal_keys key value m)) kept
            (inserted-Holds u.0 w.0 m key value b inserted r hb there wrote),
      )

  deleted-there :
      (b : Bytes) (t t' : db.Txn)
      → delete_record db connection s table b t ≡ ok (true, t')
      → (w : Bytes) × (db.get (c_str table.dbi_name) b t ≡ done w)
  unfolding delete_record
  deleted-there b t t' h = laws.del_exists (c_str table.dbi_name) b t t' (ground arith)

  delete_record-eq-ok :
      (t t' : db.Txn) (m : Map K V) (key : K) (b : Bytes) (made : Bool)
      → Holds t m
      → s.serialize_key key ≡ ok b
      → delete_record db connection s table b t ≡ ok (made, t')
      → (is_some (m key) ≡ made) × Holds t' (unassign s.equal_keys key m)
  unfolding delete_record
  delete_record-eq-ok t t' m key b true r hb h =
      let done_there = deleted-there b t t' h in
      (
        ground (arith, r.holds key b hb, done_there.1),
        record {
          holds = λ k c hc. ground (
            arith,
            laws.get-del (c_str table.dbi_name) b t t' (c_str table.dbi_name) c,
            bytes_eq_refl (c_str table.dbi_name),
            same_keys db laws connection s serializes table key k b c hb hc,
            r.holds k c hc,
          );
        },
      )
  delete_record-eq-ok t t' m key b false r hb h = (
    ground (arith, laws.del_missing (c_str table.dbi_name) b t, r.holds key b hb),
    record {
      holds = λ k c hc. ground (
        arith,
        laws.del_missing (c_str table.dbi_name) b t,
        r.holds key b hb,
        same_keys db laws connection s serializes table key k b c hb hc,
        r.holds k c hc,
        serializes.equal_keys_iff key k,
      );
    },
  )

  pub db_erase-eq-ok :
      (u u' : db.Txn × List ChangeOp) (m : Map K V) (key : K) (found : Bool)
      → Holds u.0 m
      → db_erase db connection s table key u ≡ ok (found, u')
      → (found ≡ is_some (m key)) × Holds u'.0 (unassign s.equal_keys key m)
  unfolding db_erase
  db_erase-eq-ok u u' m key found r h =
      let (b, hb, j) =
        key-eq-ok db laws connection s serializes table key
          (λ b. in_txn db (delete_record db connection s table b) >>= (λ made.
            if made then (record_op db connection table delete b [] >> pure true) else pure false))
          u u' found h in
      let (made, w, e, i) =
        bind-eq-ok (in_txn db (delete_record db connection s table b))
          (λ made.
            if made then (record_op db connection table delete b [] >> pure true) else pure false)
          u j in
      let (called, pending) = in_txn-eq-ok db (delete_record db connection s table b) u w e in
      let (there, gone) = delete_record-eq-ok u.0 w.0 m key b made r hb called in
      let (same, kept) = recorded-eq-ok delete b [] made found w u' i in
      (same ∙ sym there, subst (λ t. Holds t (unassign s.equal_keys key m)) kept gone)

  abbrev update_found : K → (V → V) → Option V → InSession db Bool
  update_found key fn current = elim current [
    | none ↦ pure false
    | some value ↦ db_insert_or_assign db connection s table key (fn value) >> pure true
  ]

  abbrev update_read : K → (V → V) → Option Bytes → InSession db Bool
  update_read key fn db_val =
      of_result db (decoded s.deserialize_value db_val) >>= update_found key fn

  update_found-eq-ok :
      (u u' : db.Txn × List ChangeOp) (m : Map K V) (key : K) (fn : V → V) (updated : Bool)
      (o : Option V)
      → Holds u.0 m
      → update_found key fn o u ≡ ok (updated, u')
      → (updated ≡ is_some o)
        × Holds u'.0 (elim o [ none ↦ m | some value ↦ assign s.equal_keys key (fn value) m ])
  update_found-eq-ok u u' m key fn updated none r h =
      let (e, same) = pure-eq-ok false updated u h in (sym e, subst (λ x. Holds x.0 m) same r)
  update_found-eq-ok u u' m key fn updated (some value) r h =
      let (w, i, j) =
        then-eq-ok (db_insert_or_assign db connection s table key (fn value)) (pure true) u h in
      let (e, same) = pure-eq-ok true updated w j in
      (
        sym e,
        subst (λ x. Holds x.0 (assign s.equal_keys key (fn value) m)) same
            (db_insert_or_assign-Represents db laws connection s serializes table u w m key
              (fn value) r i),
      )

  pub db_update-eq-ok :
      (u u' : db.Txn × List ChangeOp) (m : Map K V) (key : K) (fn : V → V) (updated : Bool)
      (o : Option V)
      → m key ≡ o
      → Holds u.0 m
      → db_update db connection s table key fn u ≡ ok (updated, u')
      → (updated ≡ is_some o)
        × Holds u'.0 (elim o [ none ↦ m | some value ↦ assign s.equal_keys key (fn value) m ])
  unfolding db_update
  db_update-eq-ok u u' m key fn updated o e r h =
      let (b, hb, j) =
        key-eq-ok db laws connection s serializes table key
          (λ b.
            in_txn db (find db (c_str table.dbi_name) b "Failed to read value for update")
            >>= update_read key fn)
          u u' updated h in
      let i =
        find_next db laws connection s serializes table m key b "Failed to read value for update"
          (update_read key fn) u u' updated r hb j in
      let (current, w, read, l) =
        bind-eq-ok
          (of_result db
            (decoded s.deserialize_value (encoded db laws connection s serializes table (m key))))
          (update_found key fn) u i in
      let (is, same) =
        of_result-eq-ok db
          (decoded s.deserialize_value (encoded db laws connection s serializes table (m key))) u w
          read in
      let value : current ≡ o =
        ground (arith, decoded-encoded db laws connection s serializes table (m key)) in
      update_found-eq-ok u u' m key fn updated o r
        (ap (λ c. update_found key fn c u) (sym value) ∙ ap (update_found key fn current) same ∙ l)

  pub db_append-Represents :
      (u u' : db.Txn × List ChangeOp) (m : Map K V) (container : List (K × V))
      → Holds u.0 m
      → db_append db connection s table container u ≡ ok (tt, u')
      → Holds u'.0 (assign_all s.equal_keys container m)
  unfolding db_append
  db_append-Represents u u' m [] r h = subst (λ x. Holds x.0 m) (pure-eq-ok tt tt u h).1 r
  db_append-Represents u u' m ((key, value) ∷ container) r h =
      let v = s.serialize_value value in
      let (b, hb, j) =
        key-eq-ok db laws connection s serializes table key
          (λ b.
            write db connection s table b v "Failed to write record"
            >> db_append db connection s table container)
          u u' tt h in
      let (w, e, i) =
        then-eq-ok (write db connection s table b v "Failed to write record")
          (db_append db connection s table container) u j in
      db_append-Represents w u' (assign s.equal_keys key value m) container
        (write-Represents db laws connection s serializes table u w m key value b
          "Failed to write record" r hb e)
        i

  pub db_clear-Represents :
      (u u' : db.Txn × List ChangeOp) (m : Map K V)
      → Holds u.0 m
      → db_clear db connection s table u ≡ ok (tt, u')
      → Holds u'.0 (λ k. none)
  unfolding db_clear
  db_clear-Represents u u' m r h =
      let call = db.clear (c_str table.dbi_name) in
      let (w, e, j) =
        then-eq-ok (in_txn db (check_write "Failed to clear table" call))
          (record_op db connection table clear_table [] []) u h in
      let cleared =
        check_write-eq-ok db laws connection s serializes table "Failed to clear table" call u.0 w.0
          (in_txn-eq-ok db (check_write "Failed to clear table" call) u w e).0 in
      subst (λ t. Holds t (λ k. none)) (record_op_same db connection table clear_table [] [] w u' j)
        (record {
          holds = λ k c hc. ground (
            arith,
            laws.get-clear (c_str table.dbi_name) u.0 w.0 (c_str table.dbi_name) c cleared,
            bytes_eq_refl (c_str table.dbi_name),
          );
        })
