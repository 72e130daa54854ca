-- ===== src/Engine/Push.antt =====
-- include/mdbx_containers/sync/engine/SyncEngine.hpp: `handle_push`, with `PushRequest`, `PushResponse` and
-- `SyncResponseErrorCode` of include/mdbx_containers/sync/protocol.hpp and `SyncCursor` of protocol/. The
-- state is what is committed. A read transaction leaves it, a writable one replaces it by its commit. Locks,
-- cancellation and the observers are not modelled; what the observers are told is returned.
use mdbx_containers.Prelude.{
  ℕ, ◌+◌, Bool, true, false, not, ◌&&◌, ◌||◌, List, [], ◌∷◌, ◌++◌, ok, throw, length, ◌==◌,
  if◌then◌else◌, is_empty, bytes_eq, not_found, mdbx_exception,
}
use mdbx_containers.Bytes.{read_u64_le}
use mdbx_containers.NodeId.{NodeId, is_same, compare_node_id, make_zero_node}
use mdbx_containers.Stateful.{◌>>=◌, pure}
use mdbx_containers.Mdbx.{Bytes, Mdbx, InTxn, done, failed}
use mdbx_containers.Protocol.Batch.{ChangeOp, ChangeBatch}
use mdbx_containers.Stores.Meta
use mdbx_containers.Stores.Applied.{applied_name}
use mdbx_containers.Engine.{
  ConflictPolicy, ApplyResult, applied, skipped, conflict, ApplyConflictReason, sequence_gap,
  ApplyOutcome,
}
use mdbx_containers.Engine.Apply.{apply_batch_ex}

-- `struct SyncCursor`: a `std::map` in the order of its keys
abbrev pub SyncCursor : Type 0
SyncCursor = List (NodeId × ℕ)

-- `enum class SyncResponseErrorCode`
pub data SyncResponseErrorCode : Type 0 where
  no_error db_id_mismatch unsupported_full_snapshot apply_conflict snapshot_required batch_too_large
        snapshot_not_configured snapshot_session_invalid snapshot_session_busy
        snapshot_logical_state_unsupported :
      SyncResponseErrorCode

-- `struct PushRequest`
pub record PushRequest : Type 0 where
  pub sender : NodeId
  pub db_id : NodeId
  pub batches : List ChangeBatch

-- `struct PushResponse`, without the text of the error
pub record PushResponse : Type 0 where
  pub receiver_have : SyncCursor
  pub is_ok : Bool
  pub error_code : SyncResponseErrorCode
  pub error_retryable : Bool

-- What `mark_sync_apply_committed` is called with.
pub record Notice : Type 0 where
  pub applied_batches : ℕ
  pub applied_ops : ℕ
  pub affected_dbi_names : List Bytes

abbrev pub no_notice : Notice
no_notice = record { applied_batches = 0; applied_ops = 0; affected_dbi_names = [] }

abbrev pub is_applied : ApplyResult → Bool
is_applied applied = true
is_applied skipped = false
is_applied conflict = false

abbrev pub is_conflict : ApplyResult → Bool
is_conflict applied = false
is_conflict skipped = false
is_conflict conflict = true

abbrev pub is_sequence_gap : ApplyConflictReason → Bool
is_sequence_gap sequence_gap = true
is_sequence_gap _ = false

abbrev has_name : Bytes → List Bytes → Bool
has_name dbi [] = false
has_name dbi (n ∷ names) = bytes_eq n dbi || has_name dbi names

unfoldable pub add_unique_dbi_name : List Bytes → Bytes → List Bytes
add_unique_dbi_name names dbi = if has_name dbi names then names else names ++ dbi ∷ []

unfoldable pub add_dbi_names : List Bytes → List ChangeOp → List Bytes
unfolding add_unique_dbi_name
add_dbi_names names [] = names
add_dbi_names names (op ∷ ops) = add_dbi_names (add_unique_dbi_name names op.dbi_name) ops

-- The counts after a batch.
unfoldable pub count_batch : Notice → ApplyResult → ChangeBatch → Notice
unfolding add_dbi_names
count_batch notice result batch =
    if is_applied result && not (is_empty batch.ops)
    then record {
      applied_batches = notice.applied_batches + 1;
      applied_ops = notice.applied_ops + length batch.ops;
      affected_dbi_names = add_dbi_names notice.affected_dbi_names batch.ops;
    }
    else notice

-- The loop of `read_applied_cursor` over the records.
unfoldable pub cursor_entries : List (Bytes × Bytes) → SyncCursor
cursor_entries [] = []
cursor_entries ((k, v) ∷ records) =
    let rest = cursor_entries records in
    if length k == 16 && length v == 8 then (k, read_u64_le v) ∷ rest else rest

-- How the loop over the batches ends.
pub data Pushed : Type 0 where
  finished : Notice → Pushed
  stopped : ApplyOutcome → Pushed

module _ (db : Mdbx) where
  unfoldable pub in_read_txn : {A : Type 0} → InTxn db A → InTxn db A
  in_read_txn m t = elim (m t) [ ok (a, t') ↦ ok (a, t) | throw e ↦ throw e ]

  unfoldable pub db_uuid : InTxn db NodeId
  unfolding in_read_txn ◌>>=◌
  db_uuid = in_read_txn (do meta ← Meta.open_store db Meta.make; Meta.get_db_uuid db meta)

  unfoldable pub db_id_matches : NodeId → InTxn db Bool
  unfolding db_uuid ◌>>=◌ pure
  db_id_matches request_db_id =
      if is_same (compare_node_id request_db_id make_zero_node)
      then pure false
      else do own ← db_uuid; pure (is_same (compare_node_id request_db_id own))

  unfoldable pub read_applied_cursor : InTxn db SyncCursor
  unfolding cursor_entries
  read_applied_cursor t = elim (db.dbi_open applied_name 0 t) [
    | done t' ↦ ok (cursor_entries (db.entries applied_name t'), t')
    | failed not_found ↦ ok ([], t)
    | failed rc ↦ throw (mdbx_exception rc "SyncEngine: failed to open store '_mdbxc_applied'")
  ]

  unfoldable pub applied_cursor : InTxn db SyncCursor
  unfolding in_read_txn read_applied_cursor
  applied_cursor = in_read_txn read_applied_cursor

  -- The loop over the batches, in one transaction.
  unfoldable pub apply_batches : ConflictPolicy → List ChangeBatch → Notice → InTxn db Pushed
  unfolding ◌>>=◌ pure count_batch apply_batch_ex
  apply_batches policy [] notice = pure (finished notice)
  apply_batches policy (batch ∷ batches) notice = do
    outcome ← apply_batch_ex db policy batch
    if is_conflict outcome.result
        then pure (stopped outcome)
        else apply_batches policy batches (count_batch notice outcome.result batch)

  -- The response, made behind the transaction.
  unfoldable pub respond :
      Bool → SyncResponseErrorCode → Bool → Notice → InTxn db (PushResponse × Notice)
  unfolding ◌>>=◌ pure applied_cursor
  respond is_ok code retryable notice = do
    have ← applied_cursor
    pure (
      record {
        receiver_have = have;
        is_ok = is_ok;
        error_code = code;
        error_retryable = retryable;
      },
      notice,
    )

  -- The transaction is committed or rolled back; an exception aborts it.
  unfoldable pub push_batches : ConflictPolicy → List ChangeBatch → InTxn db (PushResponse × Notice)
  unfolding apply_batches respond
  push_batches policy batches t = elim (apply_batches policy batches no_notice t) [
    | ok (finished notice, t') ↦ respond true no_error false notice t'
    | ok (stopped o, t') ↦
        respond false apply_conflict (is_sequence_gap o.conflict_reason) no_notice t
    | throw e ↦ throw e
  ]

  unfoldable pub handle_push : ConflictPolicy → PushRequest → InTxn db (PushResponse × Notice)
  unfolding ◌>>=◌ db_id_matches respond push_batches
  handle_push policy request = do
    matches ← db_id_matches request.db_id
    if not matches
        then respond false db_id_mismatch false no_notice
        else push_batches policy request.batches
