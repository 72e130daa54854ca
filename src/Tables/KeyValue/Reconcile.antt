-- ===== src/Tables/KeyValue/Reconcile.antt =====
-- include/mdbx_containers/KeyValueTable.hpp: `db_reconcile` leaves exactly the container.
use mdbx_containers.Prelude.{
  ◌≡◌, refl, sym, ap, ◌∙◌, true, false, not, ◌&&◌, Option, none, some, List, [], ◌∷◌, ok, arith,
  bytes_eq, bytes_eq_iff, bytes_eq_refl, if◌then◌else◌, not_found, String, Bool-cases, Option-cases,
  inl, inr,
}
use mdbx_containers.Stateful.{◌>>=◌, ◌>>◌, pure}
use mdbx_containers.Stateful.Laws.{bind-eq-ok, then-eq-ok, pure-eq-ok}
use mdbx_containers.Mdbx.{c_str, Bytes, Mdbx, IsMdbx, failed, check_write}
use mdbx_containers.Entries.{Entry, lookup}
use mdbx_containers.Protocol.Batch.{ChangeOp, delete}
use mdbx_containers.Tables.{
  BaseTable, Connection, Serializer, IsSerializer, in_txn, reading, of_result, record_op,
}
use mdbx_containers.Tables.Laws.{of_result-eq-ok, in_txn-eq-ok, reading-eq-ok, record_op_same}
use mdbx_containers.Tables.KeyValue.Bulk.{db_append, remove, holds_key, remove_stale, db_reconcile}
use mdbx_containers.Tables.KeyValue.Spec.{Map, assign, assign_all, is_some}
use mdbx_containers.Tables.KeyValue.Refinement.{Represents, stored, check_write-eq-ok}
use mdbx_containers.Tables.KeyValue.Refined.{db_append-Represents}

module _ {K V : Type 0} (db : Mdbx) (laws : IsMdbx db) (connection : Connection db)
    (s : Serializer K V) (serializes : IsSerializer s) (table : BaseTable) where
  remove-get :
      (k : Bytes) (context : String) (u u' : db.Txn × List ChangeOp) (b : Bytes)
      → remove db connection s table k context u ≡ ok (tt, u')
      → db.get (c_str table.dbi_name) b u'.0
        ≡ (if bytes_eq k b then failed not_found else db.get (c_str table.dbi_name) b u.0)
  unfolding remove
  remove-get k context u u' b h =
      let call = db.del (c_str table.dbi_name) k in
      let (w, e, j) =
        then-eq-ok (in_txn db (check_write context call))
          (record_op db connection table delete k []) u h in
      let deleted =
        check_write-eq-ok db laws connection s serializes table context call u.0 w.0
          (in_txn-eq-ok db (check_write context call) u w e).0 in
      let l = laws.get-del (c_str table.dbi_name) k u.0 w.0 (c_str table.dbi_name) b deleted in
      ap (λ t. db.get (c_str table.dbi_name) b t)
        (sym (record_op_same db connection table delete k [] w u' j))
      ∙ (rw (bytes_eq_refl (c_str table.dbi_name)) at l)

  -- The record of a key goes where the loop meets it and the container does not hold the key.
  remove_stale-get :
      (container : List (K × V)) (l : List Entry) (u u' : db.Txn × List ChangeOp) (b : Bytes)
      (k : K)
      → s.deserialize_key b ≡ ok k
      → remove_stale db connection s table container l u ≡ ok (tt, u')
      → db.get (c_str table.dbi_name) b u'.0 ≡ (
          if is_some (lookup b l) && not (holds_key db connection s table k container)
          then failed not_found
          else db.get (c_str table.dbi_name) b u.0)
  unfolding remove_stale lookup
  remove_stale-get container [] u u' b k hk h =
      ap (λ x. db.get (c_str table.dbi_name) b x.0) (sym (pure-eq-ok tt tt u h).1)
  remove_stale-get container ((j, v) ∷ l) u u' b k hk h =
      let one = λ (key : K).
        if holds_key db connection s table key container
        then pure tt
        else remove db connection s table j "Failed to delete record using cursor" in
      let rest = remove_stale db connection s table container l in
      let (key, w, e, i) =
        bind-eq-ok (of_result db (s.deserialize_key j)) (λ key. one key >> rest) u h in
      let (hj, same) = of_result-eq-ok db (s.deserialize_key j) u w e in
      let (x, f, g) = then-eq-ok (one key) rest w i in
      let after = remove_stale-get container l x u' b k hk g in
      elim (Bool-cases (holds_key db connection s table key container)) [
        | inl held ↦
            let kept = (pure-eq-ok tt tt w (rw held at f)).1 in
            ground (arith, after, bytes_eq_iff j b)
        | inr stale ↦
            let gone = remove-get j "Failed to delete record using cursor" w x b (rw stale at f) in
            ground (arith, after, bytes_eq_iff j b)
      ]

  -- What a container assigns does not depend on the map before, where it holds the key.
  assign_all_same :
      (container : List (K × V)) (m n : Map K V) (k : K)
      → m k ≡ n k
      → assign_all s.equal_keys container m k ≡ assign_all s.equal_keys container n k
  assign_all_same [] m n k e = e
  assign_all_same ((key, value) ∷ container) m n k e =
      assign_all_same container (assign s.equal_keys key value m) (assign s.equal_keys key value n)
        k (rw e refl)

  assign_all-held :
      (container : List (K × V)) (m n : Map K V) (k : K)
      → holds_key db connection s table k container ≡ true
      → assign_all s.equal_keys container m k ≡ assign_all s.equal_keys container n k
  unfolding holds_key
  assign_all-held [] m n k h = cc
  assign_all-held ((key, value) ∷ container) m n k h =
      let m' = assign s.equal_keys key value m in
      let n' = assign s.equal_keys key value n in
      elim (Bool-cases (s.equal_keys key k)) [
        | inl e ↦ assign_all_same container m' n' k (rw e refl)
        | inr e ↦ assign_all-held container m' n' k (rw e at h)
      ]

  assign_all-absent :
      (container : List (K × V)) (m : Map K V) (k : K)
      → holds_key db connection s table k container ≡ false
      → assign_all s.equal_keys container m k ≡ m k
  unfolding holds_key
  assign_all-absent [] m k h = refl
  assign_all-absent ((key, value) ∷ container) m k h =
      ground (arith, assign_all-absent container (assign s.equal_keys key value m) k)

  missing :
      (t : db.Txn) (o : Option V) (b : Bytes) (l : List Entry)
      → db.get (c_str table.dbi_name) b t ≡ stored db laws connection s serializes table o
      → l ≡ db.entries (c_str table.dbi_name) t
      → lookup b l ≡ none
      → db.get (c_str table.dbi_name) b t ≡ failed not_found
  missing t none b l held read h = held
  missing t (some value) b l held read h =
      let there = (laws.get-entries (c_str table.dbi_name) b t (s.serialize_value value)).0 held in
      absurd (ground (arith, there))

  settled :
      (t t' : db.Txn) (m : Map K V) (container : List (K × V)) (k : K) (b : Bytes)
      → db.get (c_str table.dbi_name) b t
        ≡ stored db laws connection s serializes table (assign_all s.equal_keys container m k)
      → (l : List Entry) → l ≡ db.entries (c_str table.dbi_name) t
      → db.get (c_str table.dbi_name) b t' ≡ (
          if is_some (lookup b l) && not (holds_key db connection s table k container)
          then failed not_found
          else db.get (c_str table.dbi_name) b t)
      → db.get (c_str table.dbi_name) b t'
        ≡ stored db laws connection s serializes table
            (assign_all s.equal_keys container (λ k. none) k)
  settled t t' m container k b held l read after =
      elim (Bool-cases (holds_key db connection s table k container)) [
        | inl there ↦
            let same = assign_all-held container m (λ k. none) k there in
            ground (arith, after, there, held, same)
        | inr absent ↦
            let nothing = assign_all-absent container (λ k. none) k absent in
            elim (Option-cases (lookup b l)) [
              | inl none_there ↦
                  let gone =
                    missing t (assign_all s.equal_keys container m k) b l held read none_there in
                  ground (arith, after, gone, nothing)
              | inr (v, found) ↦ ground (arith, after, nothing)
            ]
      ]

  -- `db_reconcile`, when it returns on a table that holds some map, leaves exactly the container: every key that
  -- can be serialized has the last value that the container gives it, and no value where the container has none.
  pub db_reconcile-Represents :
      (u u' : db.Txn × List ChangeOp) (m : Map K V) (container : List (K × V))
      → Represents db laws connection s serializes table u.0 m
      → db_reconcile db connection s table container u ≡ ok (tt, u')
      → Represents db laws connection s serializes table u'.0
          (assign_all s.equal_keys container (λ k. none))
  unfolding db_reconcile
  db_reconcile-Represents u u' m container r h =
      let clean = λ (l : List Entry). remove_stale db connection s table container l in
      let (w, e, j) =
        then-eq-ok (db_append db connection s table container)
          (reading db (db.entries (c_str table.dbi_name)) >>= clean) u h in
      let (l, x, f, g) = bind-eq-ok (reading db (db.entries (c_str table.dbi_name))) clean w j in
      let (read, same) = reading-eq-ok db (db.entries (c_str table.dbi_name)) w x f in
      let appended =
        db_append-Represents db laws connection s serializes table u w m container r e in
      record {
        holds = λ k b hb.
            let after =
              remove_stale-get container l x u' b k (serializes.deserialize-serialize_key k b hb)
                g in
            settled x.0 u'.0 m container k b
              (ap (λ y. db.get (c_str table.dbi_name) b y.0) (sym same) ∙ appended.holds k b hb) l
              (sym read ∙ ap (λ y. db.entries (c_str table.dbi_name) y.0) same) after;
      }
