-- ===== src/Tables/KeyValue/Refinement.antt =====
-- include/mdbx_containers/KeyValueTable.hpp: each method against the map that the table stands for.
use mdbx_containers.Prelude.{
  ◌≡◌, refl, sym, ap, ◌∙◌, subst, Bool, true, false, Option, none, some, List, ok, arith, bytes_eq,
  bytes_eq_iff, bytes_eq_refl, if◌then◌else◌, not_found, String,
}
use mdbx_containers.Stateful.{◌>>=◌, pure}
use mdbx_containers.Stateful.Laws.{bind-eq-ok, then-eq-ok, pure-eq-ok}
use mdbx_containers.Mdbx.{c_str, Bytes, Mdbx, IsMdbx, Call, done, failed, check_write}
use mdbx_containers.Protocol.Batch.{ChangeOp, put}
use mdbx_containers.Stores.{find}
use mdbx_containers.Tables.{
  BaseTable, Connection, Serializer, IsSerializer, InSession, in_txn, of_result, record_op,
}
use mdbx_containers.Tables.Laws.{of_result-eq-ok, in_txn-eq-ok, record_op_same}
use mdbx_containers.Tables.KeyValue.{decoded, db_get, db_contains, write, db_insert_or_assign}
use mdbx_containers.Tables.KeyValue.Spec.{Map, assign, is_some}

module _ {K V : Type 0} (db : Mdbx) (laws : IsMdbx db) (connection : Connection db)
    (s : Serializer K V) (serializes : IsSerializer s) (table : BaseTable) where
  abbrev pub Session : Type 0
  Session = db.Txn × List ChangeOp

  -- What the database holds for a key with this value.
  abbrev pub encoded : Option V → Option Bytes
  encoded none = none
  encoded (some value) = some (s.serialize_value value)

  abbrev pub stored : Option V → Call Bytes
  stored none = failed not_found
  stored (some value) = done (s.serialize_value value)

  -- The table holds what the map says, for every key that can be serialized.
  pub record Represents (t : db.Txn) (m : Map K V) : Type 0 where
    pub holds :
        (k : K) (b : Bytes)
        → s.serialize_key k ≡ ok b
        → db.get (c_str table.dbi_name) b t ≡ stored (m k)

  pub same_keys :
      (j k : K) (b c : Bytes)
      → s.serialize_key j ≡ ok b
      → s.serialize_key k ≡ ok c
      → bytes_eq b c ≡ s.equal_keys j k
  same_keys j k b c hj hk = ground (
    arith,
    bytes_eq_iff b c,
    serializes.equal_keys_iff j k,
    serializes.deserialize-serialize_key j b hj,
    serializes.deserialize-serialize_key k c hk,
  )

  pub check_write-eq-ok :
      (context : String) (call : db.Txn → Call db.Txn) (t t' : db.Txn)
      → check_write context call t ≡ ok (tt, t')
      → call t ≡ done t'
  unfolding check_write
  check_write-eq-ok context call t t' h = ground arith

  pub put-Represents :
      (t t' : db.Txn) (m : Map K V) (key : K) (value : V) (b : Bytes)
      → Represents t m
      → s.serialize_key key ≡ ok b
      → ((c : Bytes)
          → db.get (c_str table.dbi_name) c t' ≡ (
              if bytes_eq b c
              then done (s.serialize_value value)
              else db.get (c_str table.dbi_name) c t))
      → Represents t' (assign s.equal_keys key value m)
  put-Represents t t' m key value b r hb wrote = record {
    holds = λ k c hc. ground (arith, wrote c, same_keys key k b c hb hc, r.holds k c hc);
  }

  pub write-Represents :
      (u u' : Session) (m : Map K V) (key : K) (value : V) (b : Bytes) (context : String)
      → Represents u.0 m
      → s.serialize_key key ≡ ok b
      → write db connection s table b (s.serialize_value value) context u ≡ ok (tt, u')
      → Represents u'.0 (assign s.equal_keys key value m)
  unfolding write
  write-Represents u u' m key value b context r hb h =
      let v = s.serialize_value value in
      let call = db.put (c_str table.dbi_name) b v in
      let (w, e, j) =
        then-eq-ok (in_txn db (check_write context call)) (record_op db connection table put b v) u
          h in
      let wrote =
        check_write-eq-ok context call u.0 w.0
          (in_txn-eq-ok db (check_write context call) u w e).0 in
      subst (λ t. Represents t (assign s.equal_keys key value m))
        (record_op_same db connection table put b v w u' j)
        (put-Represents u.0 w.0 m key value b r hb (λ c.
          let l = laws.get-put (c_str table.dbi_name) b v u.0 w.0 (c_str table.dbi_name) c wrote in
          rw (bytes_eq_refl (c_str table.dbi_name)) at l))

  find-eq-ok :
      (t t' : db.Txn) (m : Map K V) (key : K) (b : Bytes) (context : String) (value : Option Bytes)
      → Represents t m
      → s.serialize_key key ≡ ok b
      → find db (c_str table.dbi_name) b context t ≡ ok (value, t')
      → (value ≡ encoded (m key)) × (t ≡ t')
  unfolding find
  find-eq-ok t t' m key b context value r hb h = ground (arith, r.holds key b hb)

  pub decoded-encoded : (o : Option V) → decoded s.deserialize_value (encoded o) ≡ ok o
  unfolding decoded
  decoded-encoded none = refl
  decoded-encoded (some v) = rw (serializes.deserialize-serialize_value v) refl

  -- The steps that most methods begin with: the key is serialized, and its record looked up.
  pub key-eq-ok :
      {A : Type 0} (key : K) (next : Bytes → InSession db A) (u u' : Session) (a : A)
      → (of_result db (s.serialize_key key) >>= next) u ≡ ok (a, u')
      → (b : Bytes) × (s.serialize_key key ≡ ok b) × (next b u ≡ ok (a, u'))
  key-eq-ok key next u u' a h =
      let (b, w, e, j) = bind-eq-ok (of_result db (s.serialize_key key)) next u h in
      let (hb, same) = of_result-eq-ok db (s.serialize_key key) u w e in
      (b, hb, ap (next b) same ∙ j)

  pub find_next :
      {A : Type 0} (m : Map K V) (key : K) (b : Bytes) (context : String)
      (next : Option Bytes → InSession db A) (u u' : Session) (a : A)
      → Represents u.0 m
      → s.serialize_key key ≡ ok b
      → (in_txn db (find db (c_str table.dbi_name) b context) >>= next) u ≡ ok (a, u')
      → next (encoded (m key)) u ≡ ok (a, u')
  find_next m key b context next u u' a r hb h =
      let (value, w, e, j) =
        bind-eq-ok (in_txn db (find db (c_str table.dbi_name) b context)) next u h in
      let (called, pending) = in_txn-eq-ok db (find db (c_str table.dbi_name) b context) u w e in
      let (found, same) = find-eq-ok u.0 w.0 m key b context value r hb called in
      let state : u ≡ w = ground arith in ap (λ o. next o u) (sym found) ∙ ap (next value) state ∙ j

  pub db_get-eq-ok :
      (u u' : Session) (m : Map K V) (key : K) (value : Option V)
      → Represents u.0 m
      → db_get db connection s table key u ≡ ok (value, u')
      → (value ≡ m key) × (u ≡ u')
  unfolding db_get
  db_get-eq-ok u u' m key value r h =
      let lookup = λ (b : Bytes).
        in_txn db (find db (c_str table.dbi_name) b "Failed to retrieve value")
        >>= (λ db_val. of_result db (decoded s.deserialize_value db_val)) in
      let (b, hb, j) = key-eq-ok key lookup u u' value h in
      let i =
        find_next m key b "Failed to retrieve value"
          (λ db_val. of_result db (decoded s.deserialize_value db_val)) u u' value r hb j in
      let (read, same) =
        of_result-eq-ok db (decoded s.deserialize_value (encoded (m key))) u u' i in
      (ground (arith, decoded-encoded (m key)), same)

  present-eq-ok :
      (o : Option V) (present : Bool) (u u' : Session)
      → pure (elim (encoded o) [ none ↦ false | some bytes ↦ true ]) u ≡ ok (present, u')
      → (present ≡ is_some o) × (u ≡ u')
  present-eq-ok none present u u' h = let (e, same) = pure-eq-ok false present u h in (sym e, same)
  present-eq-ok (some v) present u u' h =
      let (e, same) = pure-eq-ok true present u h in (sym e, same)

  pub db_contains-eq-ok :
      (u u' : Session) (m : Map K V) (key : K) (present : Bool)
      → Represents u.0 m
      → db_contains db connection s table key u ≡ ok (present, u')
      → (present ≡ is_some (m key)) × (u ≡ u')
  unfolding db_contains
  db_contains-eq-ok u u' m key present r h =
      let (b, hb, j) =
        key-eq-ok key
          (λ b.
            in_txn db (find db (c_str table.dbi_name) b "Failed to check key presence")
            >>= (λ o. pure (elim o [ none ↦ false | some bytes ↦ true ])))
          u u' present h in
      let i =
        find_next m key b "Failed to check key presence"
          (λ o. pure (elim o [ none ↦ false | some bytes ↦ true ])) u u' present r hb j in
      present-eq-ok (m key) present u u' i

  pub db_insert_or_assign-Represents :
      (u u' : Session) (m : Map K V) (key : K) (value : V)
      → Represents u.0 m
      → db_insert_or_assign db connection s table key value u ≡ ok (tt, u')
      → Represents u'.0 (assign s.equal_keys key value m)
  unfolding db_insert_or_assign
  db_insert_or_assign-Represents u u' m key value r h =
      let (b, hb, j) =
        key-eq-ok key
          (λ b.
            write db connection s table b (s.serialize_value value)
              "Failed to insert or assign key-value pair")
          u u' tt h in
      write-Represents u u' m key value b "Failed to insert or assign key-value pair" r hb j
