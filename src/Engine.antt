-- ===== src/Engine.antt =====
-- include/mdbx_containers/sync/engine/SyncEngine.hpp and core/ConflictPolicy.hpp: the outcome of applying a
-- batch.
pub mod Checks
pub mod Operations
pub mod Apply
pub mod Keeps
pub mod Refusals
pub mod Effects
pub mod Cursor
pub mod Untouched
pub mod Replay
pub mod Monotone
pub mod Push
pub mod Pull
pub mod PullPage
pub mod PullLaws
pub mod PullPages
pub mod PullAnswers
pub mod PullMissing
pub mod PullSpec
pub mod PullRetained
pub mod PullSent
pub mod PullHandler
pub mod PushLaws
use mdbx_containers.Prelude.{ℕ, Bool, true, false, Option, none, [], ReturnCode}
use mdbx_containers.NodeId.{NodeId}
use mdbx_containers.Mdbx.{Bytes}
use mdbx_containers.Protocol.Batch.{ChangeBatch}

-- `enum class ConflictPolicy`
pub data ConflictPolicy : Type 0 where
  reject last_writer_wins : ConflictPolicy

-- `enum class ApplyResult`
pub data ApplyResult : Type 0 where
  applied skipped conflict : ApplyResult

-- `enum class ApplyConflictReason`
pub data ApplyConflictReason : Type 0 where
  no_reason sequence_gap inconsistent_batch_dbi_flags existing_dbi_flags_mismatch reserved_dbi_name
        missing_lww_revision unsupported_lww_operation lww_policy_disabled unexpected_lww_revision
        receiver_mode_conflict :
      ApplyConflictReason

-- `struct ApplyOutcome`. `actual_dbi_flags` is none while `actual_dbi_flags_available` is false, and
-- `mdbx_error_code` is none for MDBX_SUCCESS.
pub record ApplyOutcome : Type 0 where
  pub result : ApplyResult
  pub conflict_reason : ApplyConflictReason
  pub origin_node_id : NodeId
  pub last_applied_seq : ℕ
  pub batch_seq : ℕ
  pub dbi_name : Bytes
  pub expected_dbi_flags : ℕ
  pub incoming_dbi_flags : ℕ
  pub actual_dbi_flags : Option ℕ
  pub mdbx_error_code : Option ReturnCode

-- `make_apply_outcome`
unfoldable pub make_apply_outcome : ApplyResult → ChangeBatch → ℕ → ApplyOutcome
make_apply_outcome result batch last = record {
  result = result;
  conflict_reason = no_reason;
  origin_node_id = batch.origin_node_id;
  last_applied_seq = last;
  batch_seq = batch.seq;
  dbi_name = [];
  expected_dbi_flags = 0;
  incoming_dbi_flags = 0;
  actual_dbi_flags = none;
  mdbx_error_code = none;
}

-- What a check of a batch gives: its product, or the outcome that it has filled in.
pub data Checked (A : Type 0) : Type 0 where
  accepted : A → Checked A
  refused : ApplyOutcome → Checked A
