-- ===== src/Tables/SequenceLaws.antt =====
-- include/mdbx_containers/SequenceTable.hpp: what `append` adds.
use mdbx_containers.Prelude.{
  ℕ, ◌-◌, ◌+◌, ◌⊎◌, inl, inr, ◌∷◌, length, ◌^◌, ◌<◌, ◌≡◌, ◌≢◌, refl, sym, ap, ◌∙◌, subst, false,
  Option, some, List, [], ◌++◌, ok, Result, arith, if◌then◌else◌, ◌&&◌, bytes_eq, bytes_eq_iff,
  bytes_eq_refl, not_found,
}
use mdbx_containers.Bytes.{read_u64_le, write_u64_le}
use mdbx_containers.Bytes.Words.{read-write_u64_le}
use mdbx_containers.Stateful.{◌>>=◌, ◌>>◌, pure}
use mdbx_containers.Stateful.Laws.{bind-eq-ok, then-eq-ok, pure-eq-ok}
use mdbx_containers.Mdbx.{c_str, Bytes, Mdbx, IsMdbx, Call, done, failed}
use mdbx_containers.Protocol.Batch.{ChangeOp, put}
use mdbx_containers.Entries.{Entry}
use mdbx_containers.Stores.{find}
use mdbx_containers.Tables.{BaseTable, Connection, InSession, in_txn, of_result, record_op, reading}
use mdbx_containers.Tables.Laws.{of_result-eq-ok, in_txn-eq-ok, record_op_same, reading-eq-ok}
use mdbx_containers.Tables.KeyValue.{decoded}
use mdbx_containers.Tables.Sequence.{
  next_id, read_index_key, index_at, last_record, db_last_index, put_next, db_append, db_get,
  db_contains,
}

different_keys :
    (i j : ℕ) → i < 2 ^ 64 → j < 2 ^ 64 → j ≢ i → bytes_eq (write_u64_le i) (write_u64_le j) ≡ false
different_keys i j hi hj differ = ground (
  arith,
  bytes_eq_iff (write_u64_le i) (write_u64_le j),
  λ (e : write_u64_le i ≡ write_u64_le j). differ (
      sym (read-write_u64_le j [] hj)
      ∙ ap (λ b. read_u64_le (b ++ [])) (sym e)
      ∙ read-write_u64_le i [] hi),
)

-- The index after the last of the records: 0 where there is none, else one more than the number that the key of the
-- last one holds, which is not the greatest one of 64 bits.
abbrev pub IsNextIndex : List Entry → ℕ → Type 0
IsNextIndex entries id =
    (entries ≡ []) × (id ≡ 0)
    ⊎ (front : List Entry) × (key : Bytes) × (value : Bytes) × (entries
        ≡ front ++ (key, value) ∷ [])
      × (length key ≡ 8)
      × (read_u64_le key ≢ 2 ^ 64 - 1)
      × (id ≡ read_u64_le key + 1)

last_record-cases :
    (entries : List Entry)
    → (entries ≡ []) × (last_record entries ≡ [])
      ⊎ (front : List Entry) × (e : Entry) × (entries ≡ front ++ e ∷ [])
        × (last_record entries ≡ e ∷ [])
unfolding last_record
last_record-cases [] = inl (refl, refl)
last_record-cases (e ∷ []) = inr ([], e, refl, refl)
last_record-cases (e ∷ f ∷ l) = elim (last_record-cases (f ∷ l)) [
  | inl (none_there, nothing) ↦ absurd (cc none_there)
  | inr (front, last, split, found) ↦ inr (e ∷ front, last, ap (λ x. e ∷ x) split, found)
]

next_of-none :
    (id : ℕ) (last_id : Option ℕ) → index_at [] ≡ ok last_id → next_id last_id ≡ ok id → id ≡ 0
unfolding index_at next_id
next_of-none id last_id read next = ground arith

next_of-record :
    (id : ℕ) (last_id : Option ℕ) (key value : Bytes)
    → index_at ((key, value) ∷ []) ≡ ok last_id
    → next_id last_id ≡ ok id
    → (length key ≡ 8) × (read_u64_le key ≢ 2 ^ 64 - 1) × (id ≡ read_u64_le key + 1)
unfolding index_at next_id read_index_key
next_of-record id last_id key value read next = ground arith

index-IsNext :
    (entries : List Entry) (id : ℕ) (last_id : Option ℕ)
    → index_at (last_record entries) ≡ ok last_id
    → next_id last_id ≡ ok id
    → IsNextIndex entries id
index-IsNext entries id last_id read next = elim (last_record-cases entries) [
  | inl (nothing, at) ↦ inl (nothing, next_of-none id last_id (ap index_at (sym at) ∙ read) next)
  | inr (front, e, split, at) ↦
      let (size, room, after) =
        next_of-record id last_id e.0 e.1 (ap index_at (sym at) ∙ read) next in
      inr (front, e.0, e.1, split, size, room, after)
]

module _ {V : Type 0} (db : Mdbx) (laws : IsMdbx db) (connection : Connection db)
    (serialize_value : V → Bytes) (deserialize_value : Bytes → Result V) (table : BaseTable) where
  abbrev Session : Type 0
  Session = db.Txn × List ChangeOp

  put_next-eq-ok :
      (k v : Bytes) (t t' : db.Txn)
      → put_next db connection serialize_value deserialize_value table k v t ≡ ok (tt, t')
      → db.put_new (c_str table.dbi_name) k v t ≡ done t'
  unfolding put_next
  put_next-eq-ok k v t t' h = go (db.put_new (c_str table.dbi_name) k v t) refl
    where
      go :
          (r : Call db.Txn)
          → db.put_new (c_str table.dbi_name) k v t ≡ r
          → db.put_new (c_str table.dbi_name) k v t ≡ done t'
      go (done w) e = ground arith
      go (failed rc) e = absurd (ground arith)

  last_index_same :
      (u w : Session) (last_id : Option ℕ)
      → db_last_index db connection serialize_value deserialize_value table u ≡ ok (last_id, w)
      → (u ≡ w) × (index_at (last_record (db.entries (c_str table.dbi_name) u.0)) ≡ ok last_id)
  unfolding db_last_index
  last_index_same u w last_id h =
      let (entries, x, e, j) =
        bind-eq-ok (reading db (λ t. last_record (db.entries (c_str table.dbi_name) t)))
          (λ entries. of_result db (index_at entries)) u h in
      let (seen, u_x) =
        reading-eq-ok db (λ t. last_record (db.entries (c_str table.dbi_name) t)) u x e in
      let (read, x_w) = of_result-eq-ok db (index_at entries) x w j in
      (u_x ∙ x_w, ap index_at seen ∙ read)

  -- The index is the one after the last, and one record was added under it.
  record Appended (value : V) (id : ℕ) (u u' : Session) : Type 0 where
    next : IsNextIndex (db.entries (c_str table.dbi_name) u.0) id
    added :
        db.put_new (c_str table.dbi_name) (write_u64_le id) (serialize_value value) u.0 ≡ done u'.0

  db_append-Appended :
      (u u' : Session) (value : V) (id : ℕ)
      → db_append db connection serialize_value deserialize_value table value u ≡ ok (id, u')
      → Appended value id u u'
  unfolding db_append
  db_append-Appended u u' value id h =
      let v = serialize_value value in
      let stored : ℕ → InSession db ℕ =
        λ n. record_op db connection table put (write_u64_le n) v >> pure n in
      let placed : ℕ → InSession db (Unit {0}) = λ n.
        in_txn db
          (put_next db connection serialize_value deserialize_value table (write_u64_le n) v) in
      let (last_id, w, e, j) =
        bind-eq-ok (db_last_index db connection serialize_value deserialize_value table)
          (λ last_id. of_result db (next_id last_id) >>= (λ n. placed n >> stored n)) u h in
      let (n, x, f, i) =
        bind-eq-ok (of_result db (next_id last_id)) (λ n. placed n >> stored n) w j in
      let (next, w_x) = of_result-eq-ok db (next_id last_id) w x f in
      let (y, g, l) = then-eq-ok (placed n) (stored n) x i in
      let (called, pending) =
        in_txn-eq-ok db
          (put_next db connection serialize_value deserialize_value table (write_u64_le n) v) x y
          g in
      let (z, r, m) =
        then-eq-ok (record_op db connection table put (write_u64_le n) v) (pure n) y l in
      let (same_id, z_end) = pure-eq-ok n id z m in
      let (u_w, read) = last_index_same u w last_id e in
      let y_end =
        record_op_same db connection table put (write_u64_le n) v y z r ∙ ap (λ q. q.0) z_end in
      let done_at = put_next-eq-ok (write_u64_le n) v x.0 y.0 called in
      record {
        next =
            index-IsNext (db.entries (c_str table.dbi_name) u.0) id last_id read
              (next ∙ ap ok same_id);
        added =
            subst (λ q. db.put_new (c_str table.dbi_name) (write_u64_le id) v q.0 ≡ done u'.0)
              (sym (u_w ∙ w_x))
              (subst (λ q. db.put_new (c_str table.dbi_name) (write_u64_le id) v x.0 ≡ done q) y_end
                (subst (λ q. db.put_new (c_str table.dbi_name) (write_u64_le q) v x.0 ≡ done y.0)
                  same_id done_at));
      }

  get_missing :
      (id : ℕ) (u : Session)
      → db.get (c_str table.dbi_name) (write_u64_le id) u.0 ≡ failed not_found
      → db_contains db connection serialize_value deserialize_value table id u ≡ ok (false, u)
  unfolding db_contains in_txn find ◌>>=◌ pure write_u64_le
  get_missing id u h = rw (h, db_contains, ◌>>=◌, in_txn, find) refl

  get_present :
      ((value : V) → deserialize_value (serialize_value value) ≡ ok value)
      → (id : ℕ) (value : V) (u : Session)
      → db.get (c_str table.dbi_name) (write_u64_le id) u.0 ≡ done (serialize_value value)
      → db_get db connection serialize_value deserialize_value table id u ≡ ok (some value, u)
  unfolding db_get in_txn find ◌>>=◌ decoded of_result write_u64_le
  get_present reads id value u h =
      rw (h, reads value, db_get, ◌>>=◌, in_txn, find, decoded, of_result) refl

  -- An append gives its value an index that no record had: 0 in a table without records, else one more than the
  -- number in the key of the last record, which is not the greatest one. After it that index reads back the value,
  -- and the record of every other index is as before. Both indices are numbers of 64 bits, and values are read
  -- back as they were written.
  pub db_append-get :
      ((value : V) → deserialize_value (serialize_value value) ≡ ok value)
      → (u u' : db.Txn × List ChangeOp) (value : V) (id : ℕ) → id < 2 ^ 64
      → db_append db connection serialize_value deserialize_value table value u ≡ ok (id, u')
      → IsNextIndex (db.entries (c_str table.dbi_name) u.0) id
        × (db_contains db connection serialize_value deserialize_value table id u ≡ ok (false, u))
        × (db_get db connection serialize_value deserialize_value table id u' ≡ ok (some value, u'))
        × ((j : ℕ)
            → j < 2 ^ 64
            → j ≢ id
            → db.get (c_str table.dbi_name) (write_u64_le j) u'.0
              ≡ db.get (c_str table.dbi_name) (write_u64_le j) u.0)
  db_append-get reads u u' value id fits h =
      let a = db_append-Appended u u' value id h in
      let key = write_u64_le id in
      let v = serialize_value value in
      let got : (k : Bytes)
          → db.get (c_str table.dbi_name) k u'.0 ≡ (
              if bytes_eq (c_str table.dbi_name) (c_str table.dbi_name) && bytes_eq key k
              then done v
              else db.get (c_str table.dbi_name) k u.0) =
        λ k.
          laws.get-put_new (c_str table.dbi_name) key v u.0 u'.0 (c_str table.dbi_name) k a.added in
      (
        a.next,
        get_missing id u (laws.put_new_once (c_str table.dbi_name) key v u.0 u'.0 a.added),
        get_present reads id value u'
            (ground (arith, got key, bytes_eq_refl key, bytes_eq_refl (c_str table.dbi_name))),
        λ j hj differ. ground (
          arith,
          got (write_u64_le j),
          different_keys id j fits hj differ,
          bytes_eq_refl (c_str table.dbi_name),
        ),
      )
