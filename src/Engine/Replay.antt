-- ===== src/Engine/Replay.antt =====
-- include/mdbx_containers/sync/engine/SyncEngine.hpp: `apply_batch_ex` for a batch that the database has.
use mdbx_containers.Prelude.{
  ℕ, ◌≤◌, leb, ◌==◌, ◌≡◌, refl, sym, ap, ◌∙◌, subst, Bool, true, false, not, Option, none, some,
  length, ok, arith, if◌then◌else◌, String, runtime_error,
}
use mdbx_containers.Stateful.{◌>>=◌, ◌>>◌, pure, throw_when}
use mdbx_containers.Stateful.Laws.{bind-ok, then-ok}
use mdbx_containers.Bytes.{IsU64}
use mdbx_containers.NodeId.{NodeId, is_same, compare_node_id}
use mdbx_containers.Mdbx.{Bytes, Mdbx, IsMdbx, InTxn, done, failed, check_write}
use mdbx_containers.Protocol.Batch.{ChangeBatch}
use mdbx_containers.Stores
use mdbx_containers.Stores.{Store, opened, find, open_table, ensure_open}
use mdbx_containers.Stores.Meta
use mdbx_containers.Stores.Meta.{key_node_id}
use mdbx_containers.Stores.Applied
use mdbx_containers.Stores.Applied.{applied_name, stored_seq}
use mdbx_containers.Engine.{ConflictPolicy, applied, skipped, ApplyOutcome, make_apply_outcome}
use mdbx_containers.Engine.Apply.{apply_batch_ex, check_order}
use mdbx_containers.Engine.Cursor.{cursor, cursor-same, apply_batch_ex-cursor}
use mdbx_containers.Engine.Monotone.{apply_batch_ex-monotone}
use mdbx_containers.Engine.Refusals.{apply_batch_ex-refused}

-- The calls by which `apply_batch_ex` gets to the cursor of `origin` succeed on `t` and end in `u`: the two
-- tables open, the database has an identity of 16 bytes, and the origin has a cursor.
pub record IsReady (db : Mdbx) (origin : NodeId) (t u : db.Txn) : Type 0 where
  pub middle : db.Txn
  pub meta_opens : db.dbi_open Meta.make.dbi_name db.create_flag t ≡ done middle
  pub applied_opens : db.dbi_open applied_name db.create_flag middle ≡ done u
  pub node : NodeId
  pub has_node : db.get Meta.make.dbi_name key_node_id t ≡ done node
  pub node_size : length node ≡ 16
  pub record_of_origin : Bytes
  pub has_cursor : db.get applied_name origin t ≡ done record_of_origin

module _ (db : Mdbx) where
  meta_open-runs :
      (t u : db.Txn)
      → db.dbi_open Meta.make.dbi_name db.create_flag t ≡ done u
      → Meta.open_store db Meta.make t ≡ ok (opened Meta.make, u)
  unfolding Meta.open_store Stores.open_store
  meta_open-runs t u h = rw h refl

  open_table-runs :
      (table : Bytes) (flags : ℕ) (context : String) (t u : db.Txn)
      → db.dbi_open table flags t ≡ done u
      → open_table db table flags context t ≡ ok (tt, u)
  unfolding open_table check_write
  open_table-runs table flags context t u h = rw (h, check_write) refl

  applied_open-runs :
      (t u : db.Txn)
      → db.dbi_open applied_name db.create_flag t ≡ done u
      → Applied.open_store db Applied.make t ≡ ok (opened Applied.make, u)
  unfolding Applied.open_store pure
  applied_open-runs t u h =
      then-ok (open_table db applied_name db.create_flag _) (pure (opened Applied.make)) t
        (open_table-runs applied_name db.create_flag _ t u h) refl

  find-runs :
      (table key : Bytes) (context : String) (t : db.Txn) (v : Bytes)
      → db.get table key t ≡ done v
      → find db table key context t ≡ ok (some v, t)
  unfolding find
  find-runs table key context t v h = rw (h, find) refl

  try_get_node_id-runs :
      (t : db.Txn) (node : NodeId)
      → db.get Meta.make.dbi_name key_node_id t ≡ done node
      → length node ≡ 16
      → Meta.try_get_node_id db (opened Meta.make) t ≡ ok (some node, t)
  unfolding Meta.try_get_node_id pure ensure_open throw_when
  try_get_node_id-runs t node h size =
      let lookup : InTxn db (Option Bytes) =
        find db Meta.make.dbi_name key_node_id "MetaStore node identity read failed" in
      let check : Option Bytes → InTxn db (Option NodeId) = λ value.
        throw_when (elim value [ none ↦ false | some v ↦ not (length v == 16) ])
          (runtime_error "MetaStore node identity has invalid size")
        >> pure value in
      then-ok (ensure_open db (opened Meta.make) "MetaStore is not open") (lookup >>= check) t refl
        (bind-ok lookup check t (find-runs _ _ _ t node h) (
          then-ok
            (throw_when (not (length node == 16))
              (runtime_error "MetaStore node identity has invalid size"))
            (pure (some node)) t (rw size refl) refl))

  get_node_id-runs :
      (t : db.Txn) (node : NodeId)
      → db.get Meta.make.dbi_name key_node_id t ≡ done node
      → length node ≡ 16
      → Meta.get_node_id db (opened Meta.make) t ≡ ok (node, t)
  unfolding Meta.get_node_id pure
  get_node_id-runs t node h size =
      bind-ok (Meta.try_get_node_id db (opened Meta.make)) _ t (try_get_node_id-runs t node h size)
        refl

  last_applied_seq-runs :
      (origin : NodeId) (t : db.Txn) (v : Bytes)
      → db.get applied_name origin t ≡ done v
      → Applied.last_applied_seq db (opened Applied.make) origin t ≡ ok (cursor db origin t, t)
  unfolding Applied.last_applied_seq pure ensure_open throw_when cursor
  last_applied_seq-runs origin t v h =
      then-ok (ensure_open db (opened Applied.make) "AppliedStore is not open")
        (find db applied_name origin "AppliedStore read failed" >>= λ value.
          pure (stored_seq value))
        t refl
        (bind-ok (find db applied_name origin "AppliedStore read failed")
          (λ value. pure (stored_seq value)) t (find-runs _ _ _ t v h)
          (ap (λ c. ok (elim c [ done v ↦ stored_seq (some v) | failed rc ↦ 0 ], t)) (sym h)))

  when-true :
      {A : Type 0} (b : Bool) (m f : InTxn db A) (t : db.Txn)
      → b ≡ true
      → (if b then m else f) t ≡ m t
  when-true true m f t h = refl
  when-true false m f t h = cc

  check_order-skips :
      (policy : ConflictPolicy) (meta s : Store) (batch : ChangeBatch) (outcome : ApplyOutcome)
      (t : db.Txn)
      → batch.seq ≤ outcome.last_applied_seq
      → check_order db policy meta s batch outcome t ≡ ok (record outcome { result = skipped }, t)
  unfolding check_order pure
  check_order-skips policy meta s batch outcome t old =
      when-true (leb batch.seq outcome.last_applied_seq) _ _ t (ground arith)

  -- All the calls succeed, and the number is not newer than the cursor.
  apply_batch_ex-skips :
      (laws : IsMdbx db) (policy : ConflictPolicy) (batch : ChangeBatch) (t u : db.Txn)
      → IsReady db batch.origin_node_id t u
      → batch.seq ≤ cursor db batch.origin_node_id t
      → (o : ApplyOutcome) × (apply_batch_ex db policy batch t ≡ ok (o, u)) × (o.result ≡ skipped)
  unfolding apply_batch_ex
  apply_batch_ex-skips laws policy batch t u ready old =
      let (o, runs, skips) = by_node (is_same (compare_node_id batch.origin_node_id ready.node)) in
      (
        o,
        bind-ok (Meta.open_store db Meta.make) _ t (meta_open-runs t ready.middle ready.meta_opens)
            (bind-ok (Applied.open_store db Applied.make) _ ready.middle
              (applied_open-runs ready.middle u ready.applied_opens)
              (bind-ok (Meta.get_node_id db (opened Meta.make)) _ u
                (get_node_id-runs u ready.node (same _ _ ∙ ready.has_node) ready.node_size) runs)),
        skips,
      )
    where
      same : (table key : Bytes) → db.get table key u ≡ db.get table key t
      same table key =
          laws.get-dbi_open applied_name db.create_flag ready.middle u table key ready.applied_opens
          ∙ laws.get-dbi_open Meta.make.dbi_name db.create_flag t ready.middle table key
              ready.meta_opens

      by_node :
          (own : Bool)
          → (o : ApplyOutcome) × ((if own
                  then pure (record (make_apply_outcome applied batch 0) { result = skipped })
                  else Applied.last_applied_seq db (opened Applied.make) batch.origin_node_id
                    >>= λ last.
                        check_order db policy
                          (opened Meta.make)
                          (opened Applied.make)
                          batch
                          (record (make_apply_outcome applied batch 0) { last_applied_seq = last }))
                u
              ≡ ok (o, u))
            × (o.result ≡ skipped)
      by_node true = (_, refl, refl)
      by_node false = (
        _,
        bind-ok (Applied.last_applied_seq db (opened Applied.make) batch.origin_node_id) _ u
            (last_applied_seq-runs batch.origin_node_id u ready.record_of_origin
              (same _ _ ∙ ready.has_cursor))
            (check_order-skips policy (opened Meta.make) (opened Applied.make) batch _ u (
              subst (λ n. batch.seq ≤ n) (cursor-same db batch.origin_node_id t u (sym (same _ _)))
                old)),
        refl,
      )

-- What may happen to the database in between: a call of `apply_batch_ex` for any batch with a number of 64
-- bits, or anything else that leaves the cursors alone, such as writes of tables.
pub data Step (db : Mdbx) : db.Txn → db.Txn → Type 0 where
  applies :
      (policy : ConflictPolicy) (batch : ChangeBatch) (outcome : ApplyOutcome) (t u : db.Txn)
      → apply_batch_ex db policy batch t ≡ ok (outcome, u)
      → IsU64 batch.seq
      → Step db t u
  writes :
      (t u : db.Txn)
      → ((origin : NodeId) → db.get applied_name origin u ≡ db.get applied_name origin t)
      → Step db t u

pub data Reach (db : Mdbx) (s : db.Txn) : db.Txn → Type 0 where
  here : Reach db s s
  next : {t u : db.Txn} → Reach db s t → Step db t u → Reach db s u

module _ (db : Mdbx) (laws : IsMdbx db) (origin : NodeId) where
  Step-cursor : {t u : db.Txn} → Step db t u → cursor db origin t ≤ cursor db origin u
  Step-cursor (applies policy batch outcome t u h bounded) =
      (apply_batch_ex-monotone db laws policy batch t u outcome origin h bounded).0
  Step-cursor (writes t u same) = omega (arith, cursor-same db origin u t (same origin))

  Reach-cursor : {s t : db.Txn} → Reach db s t → cursor db origin s ≤ cursor db origin t
  Reach-cursor here = omega arith
  Reach-cursor (next r step) = omega (arith, Reach-cursor r, Step-cursor step)

-- A batch that was applied is skipped whenever it comes again, if the calls that lead to the cursor succeed then:
-- after any calls of `apply_batch_ex` for batches with numbers of 64 bits and any writes that leave the cursors alone,
-- `apply_batch_ex` returns, says that it has skipped the batch, and no record of any table changes.
pub apply_batch_ex-replay :
    (db : Mdbx) (laws : IsMdbx db) (policy policy' : ConflictPolicy) (batch : ChangeBatch)
    (t t' v u : db.Txn) (outcome : ApplyOutcome)
    → apply_batch_ex db policy batch t ≡ ok (outcome, t')
    → outcome.result ≡ applied
    → IsU64 batch.seq
    → Reach db t' v
    → IsReady db batch.origin_node_id v u
    → (again : ApplyOutcome) × (apply_batch_ex db policy' batch v ≡ ok (again, u))
      × (again.result ≡ skipped)
      × ((table key : Bytes) → db.get table key u ≡ db.get table key v)
apply_batch_ex-replay db laws policy policy' batch t t' v u outcome h is_applied bounded reached
      ready =
    let (moved, last, free) =
      apply_batch_ex-cursor db laws policy batch t t' outcome h is_applied bounded in
    let later = Reach-cursor db laws batch.origin_node_id reached in
    let (again, runs, skips) =
      apply_batch_ex-skips db laws policy' batch v u ready (omega (arith, moved, later)) in
    (
      again,
      runs,
      skips,
      λ table key.
          apply_batch_ex-refused db laws policy' batch v u again table key runs
            (λ e. cc (e, skips)),
    )
