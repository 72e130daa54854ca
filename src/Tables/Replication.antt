-- ===== src/Tables/Replication.antt =====
-- The changes that the tables of one database recorded, applied to another: sync/engine/SyncEngine.hpp
-- (`apply_one_op` in its loop) after detail/BaseTable.hpp (`record_op`).
use mdbx_containers.Prelude.{
  ℕ, ◌≡◌, sym, ap, ◌∙◌, Bool, false, List, [], ◌∷◌, ok, arith, bytes_eq_sound,
}
use mdbx_containers.NodeId.{NodeId}
use mdbx_containers.Stateful.{◌>>◌, pure, fail}
use mdbx_containers.Stateful.Laws.{bind-eq-ok, pure-eq-ok}
use mdbx_containers.Mdbx.{Bytes, Mdbx, IsMdbx, check_write, c_str}
use mdbx_containers.Mdbx.Keeps.{Always}
use mdbx_containers.Protocol.Batch.{ChangeOpType, put, delete, clear_table, other, ChangeOp}
use mdbx_containers.Stores.{Store, upsert}
use mdbx_containers.Engine.Operations.{Cache, erase_key, resolve_user_dbi, run_op, apply_one_op}
use mdbx_containers.Engine.Apply.{apply_ops}
use mdbx_containers.Engine.Keeps.{Keeps-resolve_user_dbi}
use mdbx_containers.Tables.Capture.{effect, effects, records, effect_at, effects_at}

-- No table of the batch keeps versions.
abbrev pub unversioned : List ChangeOp → List Bool
unversioned [] = []
unversioned (op ∷ ops) = false ∷ unversioned ops

module _ (db : Mdbx) (laws : IsMdbx db) where
  run_op-effect :
      (type : ChangeOpType) (op : ChangeOp) (cache cache' : Cache) (t t' : db.Txn) (n k : Bytes)
      → run_op db type op cache t ≡ ok (cache', t')
      → records db t' n k ≡ effect type op (records db t) n k
  unfolding run_op effect ◌>>◌ pure fail upsert erase_key check_write
  run_op-effect put op cache cache' t t' n k h =
      ground (arith, laws.get-put (c_str op.dbi_name) op.storage_key op.value t t' n k)
  run_op-effect delete op cache cache' t t' n k h = ground (
    arith,
    laws.get-del (c_str op.dbi_name) op.storage_key t t' n k,
    laws.del_missing (c_str op.dbi_name) op.storage_key t,
    bytes_eq_sound (c_str op.dbi_name) n,
    bytes_eq_sound op.storage_key k,
  )
  run_op-effect clear_table op cache cache' t t' n k h =
      ground (arith, laws.get-clear (c_str op.dbi_name) t t' n k)
  run_op-effect (other type) op cache cache' t t' n k h = cc

  apply_one_op-effect :
      (op : ChangeOp) (cache cache' : Cache) (t t' : db.Txn) (n k : Bytes)
      → apply_one_op db op cache t ≡ ok (cache', t')
      → records db t' n k ≡ effect op.op_type op (records db t) n k
  unfolding apply_one_op
  apply_one_op-effect op cache cache' t t' n k h =
      let (opened, u, e, j) =
        bind-eq-ok (resolve_user_dbi db op.dbi_name op.dbi_flags cache) (run_op db op.op_type op) t
          h in
      run_op-effect op.op_type op opened cache' u t' n k j
      ∙ effect_at op.op_type op (records db u) (records db t) n k
          ((Keeps-resolve_user_dbi {Q = Always} laws op.dbi_name op.dbi_flags cache).run t e tt)

  -- The loop over the operations of a batch does to the records what the operations say.
  pub apply_ops-effects :
      (ops : List ChangeOp) (origin : NodeId) (seq : ℕ) (index : Store) (cache : Cache)
      (t t' : db.Txn) (n k : Bytes)
      → apply_ops db ops (unversioned ops) origin seq index cache t ≡ ok (tt, t')
      → records db t' n k ≡ effects ops (records db t) n k
  unfolding apply_ops effects
  apply_ops-effects [] origin seq index cache t t' n k h =
      ap (λ x. records db x n k) (sym (pure-eq-ok tt tt t h).1)
  apply_ops-effects (op ∷ ops) origin seq index cache t t' n k h =
      let (cache', u, e, j) =
        bind-eq-ok (apply_one_op db op cache) (apply_ops db ops (unversioned ops) origin seq index)
          t h in
      apply_ops-effects ops origin seq index cache' u t' n k j
      ∙ effects_at ops (records db u) (effect op.op_type op (records db t)) n k
          (apply_one_op-effect op cache cache' t u n k e)
