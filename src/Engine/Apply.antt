-- ===== src/Engine/Apply.antt =====
-- include/mdbx_containers/sync/engine/SyncEngine.hpp: `apply_batch_ex`.
use mdbx_containers.Prelude.{
  ℕ, ◌+◌, ◌%◌, ◌^◌, Bool, true, false, not, ◌||◌, List, [], ◌∷◌, leb, ◌==◌, if◌then◌else◌,
}
use mdbx_containers.NodeId.{NodeId, is_same, compare_node_id, is_zero_sync_id}
use mdbx_containers.Stateful.{◌>>=◌, ◌>>◌, pure}
use mdbx_containers.Mdbx.{Mdbx, InTxn}
use mdbx_containers.Protocol.Batch.{ChangeOp, ChangeBatch}
use mdbx_containers.Stores.{Store}
use mdbx_containers.Stores.Meta
use mdbx_containers.Stores.Applied
use mdbx_containers.Stores.VersionedDbi
use mdbx_containers.Stores.IdentityIndex
use mdbx_containers.Stores.ReceiverMode
use mdbx_containers.Engine.{
  ConflictPolicy, ApplyOutcome, accepted, refused, applied, skipped, conflict, no_reason,
  sequence_gap, receiver_mode_conflict, make_apply_outcome,
}
use mdbx_containers.Engine.Checks.{
  validate_versioned, collect_batch_dbi_flags, preflight_batch_user_dbis,
}
use mdbx_containers.Engine.Operations.{Cache, apply_one_op, apply_lww_one_op}

abbrev pub any_true : List Bool → Bool
any_true [] = false
any_true (b ∷ bs) = b || any_true bs

module _ (db : Mdbx) where
  -- The loop over the operations; `versioned` has one entry for each.
  unfoldable pub apply_ops :
      List ChangeOp → List Bool → NodeId → ℕ → Store → Cache → InTxn db (Unit {0})
  unfolding ◌>>=◌ pure
  apply_ops [] versioned origin seq index cache = pure tt
  apply_ops (op ∷ ops) [] origin seq index cache = pure tt
  apply_ops (op ∷ ops) (true ∷ versioned) origin seq index cache = do
    cache' ← apply_lww_one_op db op origin seq index cache
    apply_ops ops versioned origin seq index cache'
  apply_ops (op ∷ ops) (false ∷ versioned) origin seq index cache = do
    cache' ← apply_one_op db op cache
    apply_ops ops versioned origin seq index cache'

  -- `receiver_mode.claim_full_global`, unless the database has no identity
  unfoldable pub claim_mode : Store → InTxn db Bool
  unfolding ◌>>=◌ pure
  claim_mode meta = do
    local_db_id ← Meta.get_db_uuid db meta
    if is_zero_sync_id local_db_id then pure true else do
      receiver_mode ← ReceiverMode.open_store db ReceiverMode.make
      ReceiverMode.claim_full_global db receiver_mode local_db_id

  unfoldable pub open_index : List Bool → InTxn db Store
  unfolding pure
  open_index versioned =
      if any_true versioned
      then IdentityIndex.open_store db IdentityIndex.make
      else pure IdentityIndex.make

  -- From `identity_index` on.
  unfoldable pub commit_ops :
      Store → ChangeBatch → List Bool → Cache → ApplyOutcome → InTxn db ApplyOutcome
  unfolding ◌>>=◌ ◌>>◌ pure
  commit_ops applied_store batch versioned cache outcome = do
    index ← open_index versioned
    apply_ops batch.ops versioned batch.origin_node_id batch.seq index cache
    Applied.set_last_applied_seq db applied_store batch.origin_node_id batch.seq
    pure (record outcome {
      result = applied;
      conflict_reason = no_reason;
      last_applied_seq = batch.seq;
    })

  -- From `receiver_mode` on.
  unfoldable pub claim_and_commit :
      Store → Store → ChangeBatch → List Bool → Cache → ApplyOutcome → InTxn db ApplyOutcome
  unfolding ◌>>=◌ pure
  claim_and_commit meta applied_store batch versioned cache outcome = do
    claimed ← claim_mode meta
    if claimed
        then commit_ops applied_store batch versioned cache outcome
        else pure (record outcome { result = conflict; conflict_reason = receiver_mode_conflict })

  -- From `collect_batch_dbi_flags` on.
  unfoldable pub preflight_and_commit :
      Store → Store → ChangeBatch → List Bool → ApplyOutcome → InTxn db ApplyOutcome
  unfolding ◌>>=◌ pure
  preflight_and_commit meta applied_store batch versioned outcome =
      elim (collect_batch_dbi_flags db [] batch.ops outcome) [
        | refused o ↦ pure o
        | accepted dbis ↦ do
          opened ← preflight_batch_user_dbis db dbis outcome
          elim opened [
            | refused o ↦ pure o
            | accepted cache ↦ claim_and_commit meta applied_store batch versioned cache outcome
          ]
      ]

  -- From `validate_versioned_dbi_batch` on.
  unfoldable pub check_and_commit :
      ConflictPolicy → Store → Store → ChangeBatch → ApplyOutcome → InTxn db ApplyOutcome
  unfolding ◌>>=◌ pure
  check_and_commit policy meta applied_store batch outcome = do
    checked ← validate_versioned db policy VersionedDbi.make batch.ops outcome
    elim checked [
      | refused o ↦ pure o
      | accepted versioned ↦ preflight_and_commit meta applied_store batch versioned outcome
    ]

  -- From `batch.seq <= last` on; the outcome has `last`.
  unfoldable pub check_order :
      ConflictPolicy → Store → Store → ChangeBatch → ApplyOutcome → InTxn db ApplyOutcome
  unfolding pure
  check_order policy meta applied_store batch outcome =
      if leb batch.seq outcome.last_applied_seq
      then pure (record outcome { result = skipped })
      else if not (batch.seq == (outcome.last_applied_seq + 1) % 2 ^ 64)
      then pure (record outcome { result = conflict; conflict_reason = sequence_gap })
      else check_and_commit policy meta applied_store batch outcome

  unfoldable pub apply_batch_ex : ConflictPolicy → ChangeBatch → InTxn db ApplyOutcome
  unfolding ◌>>=◌ pure
  apply_batch_ex policy batch = do
    let outcome = make_apply_outcome applied batch 0
    meta ← Meta.open_store db Meta.make
    applied_store ← Applied.open_store db Applied.make
    local_node ← Meta.get_node_id db meta
    if is_same (compare_node_id batch.origin_node_id local_node)
        then pure (record outcome { result = skipped })
        else do
          last ← Applied.last_applied_seq db applied_store batch.origin_node_id
          check_order policy meta applied_store batch (record outcome { last_applied_seq = last })
