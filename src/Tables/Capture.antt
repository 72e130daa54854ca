-- ===== src/Tables/Capture.antt =====
-- What the methods of a table record (detail/BaseTable.hpp: `record_op`), against what they do to the records.
use mdbx_containers.Prelude.{
  ◌≡◌, refl, sym, ap, ◌∙◌, Bool, true, false, ◌&&◌, Option, none, some, List, [], ◌∷◌, ◌++◌,
  append_assoc, append-nil, ok, Result, arith, bytes_eq, if◌then◌else◌, not_found, String,
}
use mdbx_containers.Stateful.{◌>>=◌, ◌>>◌, pure}
use mdbx_containers.Stateful.Laws.{bind-eq-ok, then-eq-ok, pure-eq-ok}
use mdbx_containers.Mdbx.{c_str, Bytes, Mdbx, IsMdbx, InTxn, Call, done, failed, check_write}
use mdbx_containers.Protocol.Batch.{ChangeOpType, put, delete, clear_table, other, ChangeOp}
use mdbx_containers.Tables.{
  BaseTable, Connection, InSession, in_txn, reading, of_result, record_op, change,
}
use mdbx_containers.Tables.Laws.{
  IsCapturing, of_result-eq-ok, in_txn-eq-ok, reading-eq-ok, record_op_same, record_op_pending,
}

-- All records of a database, by table and key.
abbrev pub Records : Type 0
Records = Bytes → Bytes → Call Bytes

-- What an operation says of the records, by its type.
unfoldable pub effect : ChangeOpType → ChangeOp → Records → Records
effect put op r n k =
    if bytes_eq (c_str op.dbi_name) n && bytes_eq op.storage_key k then done op.value else r n k
effect delete op r n k =
    if bytes_eq (c_str op.dbi_name) n && bytes_eq op.storage_key k then failed not_found else r n k
effect clear_table op r n k = if bytes_eq (c_str op.dbi_name) n then failed not_found else r n k
effect (other type) op r n k = r n k

unfoldable pub effects : List ChangeOp → Records → Records
unfolding effect
effects [] r = r
effects (op ∷ ops) r = effects ops (effect op.op_type op r)

abbrev pub records : (db : Mdbx) → db.Txn → Records
records db t n k = db.get n k t

pub effect_at :
    (type : ChangeOpType) (op : ChangeOp) (r q : Records) (n k : Bytes)
    → r n k ≡ q n k
    → effect type op r n k ≡ effect type op q n k
unfolding effect
effect_at put op r q n k e = rw e refl
effect_at delete op r q n k e = rw e refl
effect_at clear_table op r q n k e = rw e refl
effect_at (other type) op r q n k e = e

-- What operations do to a record depends on that record only.
pub effects_at :
    (ops : List ChangeOp) (r q : Records) (n k : Bytes)
    → r n k ≡ q n k
    → effects ops r n k ≡ effects ops q n k
unfolding effects
effects_at [] r q n k e = e
effects_at (op ∷ ops) r q n k e =
    effects_at ops (effect op.op_type op r) (effect op.op_type op q) n k
      (effect_at op.op_type op r q n k e)

pub effects-append :
    (ops more : List ChangeOp) (r : Records) (n k : Bytes)
    → effects (ops ++ more) r n k ≡ effects more (effects ops r) n k
unfolding effects
effects-append [] more r n k = refl
effects-append (op ∷ ops) more r n k = effects-append ops more (effect op.op_type op r) n k

-- The operations that were recorded between two states say what happened to every record in between.
pub record Captured (db : Mdbx) (s s' : db.Txn × List ChangeOp) (ops : List ChangeOp) : Type 0 where
  pub pending : s'.1 ≡ s.1 ++ ops
  pub happened : (n k : Bytes) → records db s'.0 n k ≡ effects ops (records db s.0) n k

module _ {db : Mdbx} where
  pub Captured-nothing : (s s' : db.Txn × List ChangeOp) → s ≡ s' → Captured db s s' []
  unfolding effects
  Captured-nothing s s' e = record {
    pending = ap (λ x. x.1) (sym e) ∙ sym (append-nil s.1);
    happened = λ n k. ap (λ x. records db x.0 n k) (sym e);
  }

  pub Captured-and :
      (s u s' : db.Txn × List ChangeOp) (ops more : List ChangeOp)
      → Captured db s u ops
      → Captured db u s' more
      → Captured db s s' (ops ++ more)
  Captured-and s u s' ops more c d = record {
    pending = d.pending ∙ ap (λ p. p ++ more) c.pending ∙ append_assoc s.1 ops more;
    happened = λ n k.
        d.happened n k
        ∙ effects_at more (records db u.0) (effects ops (records db s.0)) n k (c.happened n k)
        ∙ sym (effects-append ops more (records db s.0) n k);
  }

-- A method whose changes are all recorded.
pub record Captures {A : Type 0} (db : Mdbx) (m : InSession db A) : Type 0 where
  pub run :
      (s : db.Txn × List ChangeOp) {a : A} {s' : db.Txn × List ChangeOp}
      → m s ≡ ok (a, s')
      → (ops : List ChangeOp) × Captured db s s' ops

module _ {db : Mdbx} where
  pub Captures-bind :
      {A B : Type 0} (m : InSession db A) (f : A → InSession db B)
      → Captures db m
      → ((a : A) → Captures db (f a))
      → Captures db (m >>= f)
  Captures-bind m f cm cf = record {
    run = λ s {a} {s'} h.
        let (a, u, e, j) = bind-eq-ok m f s h in
        let (ops, c) = cm.run s e in
        let (more, d) = (cf a).run u j in (ops ++ more, Captured-and s u s' ops more c d);
  }

  pub Captures-then :
      {B : Type 0} (m : InSession db (Unit {0})) (f : InSession db B)
      → Captures db m
      → Captures db f
      → Captures db (m >> f)
  Captures-then m f cm cf = record {
    run = λ s {a} {s'} h.
        let (u, e, j) = then-eq-ok m f s h in
        let (ops, c) = cm.run s e in
        let (more, d) = cf.run u j in (ops ++ more, Captured-and s u s' ops more c d);
  }

  pub Captures-pure : {B : Type 0} (b : B) → Captures {A = B} db (pure b)
  Captures-pure b = record {
    run = λ s {a} {s'} h. ([], Captured-nothing s s' (pure-eq-ok b a s h).1);
  }

  pub Captures-of_result : {B : Type 0} (r : Result B) → Captures db (of_result db r)
  Captures-of_result r = record {
    run = λ s {a} {s'} h. ([], Captured-nothing s s' (of_result-eq-ok db r s s' h).1);
  }

  pub Captures-reading : {B : Type 0} (f : db.Txn → B) → Captures db (reading db f)
  Captures-reading f = record {
    run = λ s {a} {s'} h. ([], Captured-nothing s s' (reading-eq-ok db f s s' h).1);
  }

  pub Captures-if :
      {B : Type 0} (b : Bool) (m f : InSession db B)
      → Captures db m
      → Captures db f
      → Captures db (if b then m else f)
  Captures-if true m f cm cf = cm
  Captures-if false m f cm cf = cf

  pub Captures-option :
      {A B : Type 0} (o : Option A) (m : InSession db B) (f : A → InSession db B)
      → Captures db m
      → ((a : A) → Captures db (f a))
      → Captures db (elim o [ none ↦ m | some a ↦ f a ])
  Captures-option none m f cm cf = cm
  Captures-option (some a) m f cm cf = cf a

  pub Captures-reads :
      {B : Type 0} (m : InTxn db B)
      → ((t t' : db.Txn) (b : B) (n k : Bytes) → m t ≡ ok (b, t') → db.get n k t' ≡ db.get n k t)
      → Captures db (in_txn db m)
  unfolding effects
  Captures-reads m same = record {
    run = λ s {a} {s'} h.
        let (e, j) = in_txn-eq-ok db m s s' h in
        (
          [],
          record {
            pending = sym j ∙ sym (append-nil s.1);
            happened = λ n k. same s.0 s'.0 a n k e;
          },
        );
  }

module _ {db : Mdbx} (laws : IsMdbx db) (connection : Connection db)
    (capturing : IsCapturing connection) (table : BaseTable) where
  -- A write with its record.
  Captured-write :
      (s u s' : db.Txn × List ChangeOp) (type : ChangeOpType) (k v : Bytes)
      → u.1 ≡ s.1
      → ((n j : Bytes)
          → records db u.0 n j
            ≡ effect type (change db connection table type k v) (records db s.0) n j)
      → record_op db connection table type k v u ≡ ok (tt, s')
      → Captured db s s' (change db connection table type k v ∷ [])
  unfolding effects
  Captured-write s u s' type k v p wrote h = record {
    pending =
        record_op_pending db connection table capturing type k v u s' h
        ∙ ap (λ x. x ++ change db connection table type k v ∷ []) p;
    happened = λ n j.
        ap (λ t. records db t n j) (sym (record_op_same db connection table type k v u s' h))
        ∙ wrote n j;
  }

  check_write-eq-ok :
      (context : String) (call : db.Txn → Call db.Txn) (t t' : db.Txn)
      → check_write context call t ≡ ok (tt, t')
      → call t ≡ done t'
  unfolding check_write
  check_write-eq-ok context call t t' h = ground arith

  pub Captures-check_write :
      (context : String) (call : db.Txn → Call db.Txn) (type : ChangeOpType) (k v : Bytes)
      → ((t t' : db.Txn) (n j : Bytes)
          → call t ≡ done t'
          → records db t' n j
            ≡ effect type (change db connection table type k v) (records db t) n j)
      → Captures db (in_txn db (check_write context call) >> record_op db connection table type k v)
  Captures-check_write context call type k v wrote = record {
    run = λ s {a} {s'} h.
        let (u, e, j) =
          then-eq-ok (in_txn db (check_write context call)) (record_op db connection table type k v)
            s h in
        let (called, same) = in_txn-eq-ok db (check_write context call) s u e in
        (
          change db connection table type k v ∷ [],
          Captured-write s u s' type k v (sym same)
              (λ n i. wrote s.0 u.0 n i (check_write-eq-ok context call s.0 u.0 called)) j,
        );
  }

  -- A write that is recorded where the call says that it was made.
  pub Captures-when :
      (call : InTxn db Bool) (type : ChangeOpType) (k v : Bytes)
      → ((t t' : db.Txn) (n j : Bytes)
          → call t ≡ ok (true, t')
          → records db t' n j
            ≡ effect type (change db connection table type k v) (records db t) n j)
      → ((t t' : db.Txn) (n j : Bytes)
          → call t ≡ ok (false, t')
          → records db t' n j ≡ records db t n j)
      → Captures db (
          in_txn db call >>= (λ made.
            if made then (record_op db connection table type k v >> pure true) else pure false))
  unfolding effects
  Captures-when call type k v wrote kept = record {
    run = λ s {a} {s'} h.
        let (made, u, e, j) =
          bind-eq-ok (in_txn db call)
            (λ made.
              if made then (record_op db connection table type k v >> pure true) else pure false)
            s h in
        let (called, same) = in_txn-eq-ok db call s u e in by_made s u s' made called same j;
  }
    where
      by_made :
          (s u s' : db.Txn × List ChangeOp) {result : Bool} (made : Bool)
          → call s.0 ≡ ok (made, u.0)
          → s.1 ≡ u.1
          → (if made then (record_op db connection table type k v >> pure true) else pure false) u
            ≡ ok (result, s')
          → (ops : List ChangeOp) × Captured db s s' ops
      by_made s u s' {result} true called same j =
          let (w, e, i) = then-eq-ok (record_op db connection table type k v) (pure true) u j in
          let end = (pure-eq-ok true result w i).1 in
          (
            change db connection table type k v ∷ [],
            Captured-write s u s' type k v (sym same) (λ n i. wrote s.0 u.0 n i called)
                (e ∙ ap (λ x. ok (tt, x)) end),
          )
      by_made s u s' {result} false called same j =
          let end = (pure-eq-ok false result u j).1 in
          (
            [],
            record {
              pending = ap (λ x. x.1) (sym end) ∙ sym same ∙ sym (append-nil s.1);
              happened = λ n i. ap (λ x. records db x.0 n i) (sym end) ∙ kept s.0 u.0 n i called;
            },
          )
