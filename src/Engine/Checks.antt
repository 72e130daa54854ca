-- ===== src/Engine/Checks.antt =====
-- include/mdbx_containers/sync/engine/SyncEngine.hpp: the checks of a batch before it is applied.
use mdbx_containers.Prelude.{
  ℕ, bit_and, bit_or, Bool, true, false, not, ◌||◌, Option, none, some, List, [], ◌∷◌, ◌++◌, ok,
  throw, ◌==◌, if◌then◌else◌, is_empty, bytes_eq, ReturnCode, not_found, incompatible, einval,
  mdbx_exception,
}
use mdbx_containers.Stateful.{◌>>=◌, pure}
use mdbx_containers.Mdbx.{Bytes, Mdbx, InTxn, Call, done, failed, c_str}
use mdbx_containers.Protocol.Batch.{
  ChangeOpType, put, delete, clear_table, other, ChangeOp, has_bits, op_has_identity_key,
  op_has_revision_key,
}
use mdbx_containers.Stores.{Store}
use mdbx_containers.Stores.VersionedDbi.{is_reserved_dbi_name, contains}
use mdbx_containers.Engine.{
  ConflictPolicy, reject, last_writer_wins, conflict, ApplyConflictReason, ApplyOutcome, Checked,
  accepted, refused, unexpected_lww_revision, lww_policy_disabled, missing_lww_revision,
  unsupported_lww_operation, reserved_dbi_name, inconsistent_batch_dbi_flags,
  existing_dbi_flags_mismatch,
}

abbrev is_last_writer_wins : ConflictPolicy → Bool
is_last_writer_wins reject = false
is_last_writer_wins last_writer_wins = true

abbrev is_point_operation : ChangeOpType → Bool
is_point_operation put = true
is_point_operation delete = true
is_point_operation clear_table = false
is_point_operation (other n) = false

-- The body of the loop of `validate_versioned_dbi_batch` behind `registry.contains`: why an operation is
-- refused, if it is.
unfoldable pub refusal : ConflictPolicy → Bool → ChangeOp → Option ApplyConflictReason
refusal policy is_versioned op =
    let has_revision = has_bits op.op_flags op_has_revision_key || not (is_empty op.revision_key) in
    if not is_versioned
    then (if not has_revision then none else some unexpected_lww_revision)
    else if not (is_last_writer_wins policy)
    then some lww_policy_disabled
    else if not has_revision || is_empty op.revision_key
    then some missing_lww_revision
    else if has_bits op.op_flags op_has_identity_key || not (is_point_operation op.op_type)
    then some unsupported_lww_operation
    else none

abbrev pub refuse : ApplyConflictReason → Bytes → ApplyOutcome → ApplyOutcome
refuse reason dbi outcome = record outcome {
  result = conflict;
  conflict_reason = reason;
  dbi_name = dbi;
}

abbrev pub also : {A : Type 0} → A → Checked (List A) → Checked (List A)
also a (accepted l) = accepted (a ∷ l)
also a (refused o) = refused o

-- `std::vector<BatchDbiFlags>`
abbrev pub BatchDbis : Type 0
BatchDbis = List (Bytes × ℕ)

unfoldable pub flags_of : Bytes → BatchDbis → Option ℕ
flags_of dbi [] = none
flags_of dbi ((n, flags) ∷ dbis) = if bytes_eq n dbi then some flags else flags_of dbi dbis

-- What `open_existing_user_dbi` finds.
pub data Existing : Type 0 where
  absent present : Existing
  mismatch : ReturnCode → Existing

module _ (db : Mdbx) where
  -- `validate_versioned_dbi_batch`: which operations are on a versioned table
  unfoldable pub validate_versioned :
      ConflictPolicy → Store → List ChangeOp → ApplyOutcome → InTxn db (Checked (List Bool))
  unfolding ◌>>=◌ pure
  validate_versioned policy registry [] outcome = pure (accepted [])
  validate_versioned policy registry (op ∷ ops) outcome = do
    (registry', is_versioned) ← contains db registry op.dbi_name
    elim (refusal policy is_versioned op) [
      | some reason ↦ pure (refused (refuse reason op.dbi_name outcome))
      | none ↦ do
        rest ← validate_versioned policy registry' ops outcome
        pure (also is_versioned rest)
    ]

  abbrev persistent_dbi_flags_mask : ℕ
  persistent_dbi_flags_mask =
      bit_or
        (bit_or (bit_or (bit_or (bit_or db.reverse_key db.dup_sort) db.integer_key) db.dup_fixed)
          db.integer_dup)
        db.reverse_dup

  unfoldable pub persistent_dbi_flags : ℕ → ℕ
  persistent_dbi_flags flags = bit_and flags persistent_dbi_flags_mask

  -- `collect_batch_dbi_flags`; the first argument is what the loop has collected.
  unfoldable pub collect_batch_dbi_flags :
      BatchDbis → List ChangeOp → ApplyOutcome → Checked BatchDbis
  unfolding flags_of persistent_dbi_flags is_reserved_dbi_name
  collect_batch_dbi_flags dbis [] outcome = accepted dbis
  collect_batch_dbi_flags dbis (op ∷ ops) outcome =
      let flags = persistent_dbi_flags op.dbi_flags in
      let next = collect_batch_dbi_flags (dbis ++ (op.dbi_name, flags) ∷ []) ops outcome in
      let same = collect_batch_dbi_flags dbis ops outcome in
      if is_reserved_dbi_name op.dbi_name
      then refused
          (record (refuse reserved_dbi_name op.dbi_name outcome) { incoming_dbi_flags = flags })
      else elim (flags_of op.dbi_name dbis) [
        | none ↦ next
        | some existing ↦
            if existing == flags
            then same
            else refused (record (refuse inconsistent_batch_dbi_flags op.dbi_name outcome) {
              expected_dbi_flags = existing;
              incoming_dbi_flags = flags;
            })
      ]

  -- `mdbx_dbi_open`, and once more with MDBX_INTEGERKEY where the flags are incompatible without it
  unfoldable pub open_compatible : Bytes → ℕ → ℕ → db.Txn → Call db.Txn
  unfolding c_str
  open_compatible dbi open_dbi_flags extra t =
      elim (db.dbi_open (c_str dbi) (bit_or open_dbi_flags extra) t) [
        | done t' ↦ done t'
        | failed incompatible ↦
            if bit_and open_dbi_flags db.integer_key == 0
            then db.dbi_open (c_str dbi) (bit_or (bit_or open_dbi_flags extra) db.integer_key) t
            else failed incompatible
        | failed rc ↦ failed rc
      ]

  unfoldable pub open_existing_user_dbi : Bytes → ℕ → InTxn db Existing
  unfolding open_compatible persistent_dbi_flags
  open_existing_user_dbi dbi flags t = elim (open_compatible dbi (persistent_dbi_flags flags) 0 t) [
    | done t' ↦ ok (present, t')
    | failed not_found ↦ ok (absent, t)
    | failed incompatible ↦ ok (mismatch incompatible, t)
    | failed einval ↦ ok (mismatch einval, t)
    | failed rc ↦ throw (mdbx_exception rc "SyncEngine: failed to preflight user DBI")
  ]

  unfoldable pub read_existing_user_dbi_flags : Bytes → InTxn db (Option ℕ)
  unfolding persistent_dbi_flags c_str
  read_existing_user_dbi_flags dbi t = elim (db.dbi_open (c_str dbi) db.accede_flag t) [
    | done t' ↦ elim (db.dbi_flags (c_str dbi) t') [
      | done raw ↦ ok (some (persistent_dbi_flags raw), t')
      | failed rc ↦
          throw (mdbx_exception rc "SyncEngine: failed to read flags for existing user DBI")
    ]
    | failed not_found ↦ ok (none, t)
    | failed incompatible ↦ ok (none, t)
    | failed einval ↦ ok (none, t)
    | failed rc ↦ throw (mdbx_exception rc "SyncEngine: failed to probe existing user DBI")
  ]

  -- `preflight_batch_user_dbis`: the tables that are open
  unfoldable pub preflight_batch_user_dbis :
      BatchDbis → ApplyOutcome → InTxn db (Checked (List Bytes))
  unfolding ◌>>=◌ pure open_existing_user_dbi read_existing_user_dbi_flags
  preflight_batch_user_dbis [] outcome = pure (accepted [])
  preflight_batch_user_dbis ((dbi, flags) ∷ dbis) outcome = do
    found ← open_existing_user_dbi dbi flags
    elim found [
      | mismatch rc ↦ do
        actual ← read_existing_user_dbi_flags dbi
        pure (
            refused (record (refuse existing_dbi_flags_mismatch dbi outcome) {
              incoming_dbi_flags = flags;
              actual_dbi_flags = actual;
              mdbx_error_code = some rc;
            }))
      | absent ↦ preflight_batch_user_dbis dbis outcome
      | present ↦ do rest ← preflight_batch_user_dbis dbis outcome; pure (also dbi rest)
    ]
