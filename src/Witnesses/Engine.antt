-- ===== src/Witnesses/Engine.antt =====
-- The engine on a database in memory.
use mdbx_containers.Prelude.{
  ℕ, ◌+◌, ◌≤◌, ◌≡◌, ◌≢◌, ◌⊎◌, refl, true, false, none, [], ◌∷◌, ok, arith,
}
use mdbx_containers.NodeId.{NodeId, compare_node_id, is_zero_sync_id, compare_bytes}
use mdbx_containers.Mdbx.{Bytes, c_str, name, check_write}
use mdbx_containers.Mdbx.Memory.{memory, memory-IsMdbx}
use mdbx_containers.Protocol.Batch.{ChangeOp, ChangeBatch, put}
use mdbx_containers.Stores.Meta.{key_db_uuid, key_node_id}
use mdbx_containers.Engine.{
  reject, ApplyResult, applied, skipped, conflict, ApplyConflictReason, no_reason, sequence_gap,
  ApplyOutcome,
}
use mdbx_containers.Bytes.{read_u64_le, read_u32_le, write_u64_le, write_u32_le, append_u32_le}
use mdbx_containers.Reader.{read_bytes, read_number, read_u8, read_u32, check_bounds}
use mdbx_containers.Stateful
use mdbx_containers.Stores
use mdbx_containers.Stores.Meta
use mdbx_containers.Stores.Applied
use mdbx_containers.Stores.VersionedDbi
use mdbx_containers.Stores.ReceiverMode
use mdbx_containers.Engine.{make_apply_outcome}
use mdbx_containers.Engine.Checks.{
  open_compatible, persistent_dbi_flags, validate_versioned, refusal, collect_batch_dbi_flags,
  flags_of, preflight_batch_user_dbis, open_existing_user_dbi,
}
use mdbx_containers.Engine.Operations.{apply_one_op, run_op, resolve_user_dbi, cached}
use mdbx_containers.Engine.Apply.{
  apply_batch_ex, check_order, check_and_commit, preflight_and_commit, claim_and_commit, claim_mode,
  commit_ops, open_index, apply_ops,
}
use mdbx_containers.Engine.Effects.{NoReserved}
use mdbx_containers.Engine.Refusals.{apply_batch_ex-refused}
use mdbx_containers.Engine.Cursor.{cursor, apply_batch_ex-next, apply_batch_ex-cursor}
use mdbx_containers.Engine.Replay.{applies, writes, here, next, apply_batch_ex-replay}
use mdbx_containers.Engine.Monotone.{apply_batch_ex-monotone}
use mdbx_containers.Engine.Untouched.{apply_batch_ex-elsewhere}
use mdbx_containers.Engine.Push.{
  PushRequest, PushResponse, no_error, Notice, no_notice, handle_push, push_batches, apply_batches,
  respond, applied_cursor, read_applied_cursor, cursor_entries, db_id_matches, db_uuid, in_read_txn,
  count_batch, add_dbi_names, add_unique_dbi_name,
}
use mdbx_containers.Engine.PushLaws.{Applies, handle_push-all_or_nothing, handle_push-monotone}

abbrev id : ℕ → NodeId
id n = n ∷ 0 ∷ 0 ∷ 0 ∷ 0 ∷ 0 ∷ 0 ∷ 0 ∷ 0 ∷ 0 ∷ 0 ∷ 0 ∷ 0 ∷ 0 ∷ 0 ∷ 0 ∷ []

-- A node with the identity 1 in the database 9, which has applied nothing.
abbrev fresh : memory.Txn
unfolding memory
fresh = (name "_mdbxc_meta", key_db_uuid, id 9) ∷ (name "_mdbxc_meta", key_node_id, id 1) ∷ []

abbrev put_kv : ChangeOp
put_kv = record {
  op_type = put;
  op_flags = 0;
  dbi_flags = 0;
  dbi_name = name "users";
  storage_key = 7 ∷ [];
  value = 8 ∷ [];
  identity_key = [];
  revision_key = [];
}

abbrev batch : ℕ → ChangeBatch
batch n = record {
  version = 1;
  batch_flags = 0;
  origin_node_id = id 2;
  seq = n;
  time_unix_ns = 0;
  ops = put_kv ∷ [];
}

-- The database after the batch `n` of the node 2.
abbrev after : ℕ → memory.Txn
unfolding memory
after n =
    (name "_mdbxc_meta", key_db_uuid, id 9)
    ∷ (name "_mdbxc_meta", key_node_id, id 1)
    ∷ (name "_mdbxc_receiver_mode", id 9, 1 ∷ 0 ∷ 0 ∷ 0 ∷ 1 ∷ 0 ∷ 0 ∷ 0 ∷ 0 ∷ [])
    ∷ (name "users", 7 ∷ [], 8 ∷ [])
    ∷ (name "_mdbxc_applied", id 2, n ∷ 0 ∷ 0 ∷ 0 ∷ 0 ∷ 0 ∷ 0 ∷ 0 ∷ [])
    ∷ []

abbrev outcome_of : ApplyResult → ApplyConflictReason → ℕ → ℕ → ApplyOutcome
outcome_of result reason last n = record {
  result = result;
  conflict_reason = reason;
  origin_node_id = id 2;
  last_applied_seq = last;
  batch_seq = n;
  dbi_name = [];
  expected_dbi_flags = 0;
  incoming_dbi_flags = 0;
  actual_dbi_flags = none;
  mdbx_error_code = none;
}

too_early :
    apply_batch_ex memory reject (batch 3) fresh ≡ ok (outcome_of conflict sequence_gap 0 3, fresh)
unfolding apply_batch_ex check_order check_and_commit preflight_and_commit claim_and_commit
    claim_mode commit_ops open_index apply_ops apply_one_op run_op resolve_user_dbi cached
    open_compatible persistent_dbi_flags validate_versioned refusal collect_batch_dbi_flags flags_of
    preflight_batch_user_dbis open_existing_user_dbi make_apply_outcome Meta.open_store
    Meta.get_node_id Meta.try_get_node_id Meta.get_db_uuid Meta.read_fixed Meta.fixed
    Meta.over_zeros Applied.open_store Applied.last_applied_seq Applied.set_last_applied_seq
    Applied.stored_seq VersionedDbi.contains VersionedDbi.lookup VersionedDbi.is_reserved_dbi_name
    ReceiverMode.open_store ReceiverMode.claim_full_global ReceiverMode.get ReceiverMode.put
    ReceiverMode.check_id ReceiverMode.decoded ReceiverMode.decode ReceiverMode.read_state
    ReceiverMode.read_mode ReceiverMode.read_scopes ReceiverMode.encode ReceiverMode.put_scopes
    ReceiverMode.mode_to_u8 Stores.open_store Stores.open_existing Stores.ensure_open Stores.find
    Stores.upsert Stores.open_table check_write Stateful.throw_when Stateful.pure Stateful.◌>>=◌
    Stateful.◌>>◌ read_bytes read_number read_u8 read_u32 read_u64_le read_u32_le write_u64_le
    write_u32_le append_u32_le check_bounds compare_node_id is_zero_sync_id compare_bytes memory
    fresh after
too_early = refl

first_applied :
    apply_batch_ex memory reject (batch 1) fresh ≡ ok (outcome_of applied no_reason 1 1, after 1)
unfolding apply_batch_ex check_order check_and_commit preflight_and_commit claim_and_commit
    claim_mode commit_ops open_index apply_ops apply_one_op run_op resolve_user_dbi cached
    open_compatible persistent_dbi_flags validate_versioned refusal collect_batch_dbi_flags flags_of
    preflight_batch_user_dbis open_existing_user_dbi make_apply_outcome Meta.open_store
    Meta.get_node_id Meta.try_get_node_id Meta.get_db_uuid Meta.read_fixed Meta.fixed
    Meta.over_zeros Applied.open_store Applied.last_applied_seq Applied.set_last_applied_seq
    Applied.stored_seq VersionedDbi.contains VersionedDbi.lookup VersionedDbi.is_reserved_dbi_name
    ReceiverMode.open_store ReceiverMode.claim_full_global ReceiverMode.get ReceiverMode.put
    ReceiverMode.check_id ReceiverMode.decoded ReceiverMode.decode ReceiverMode.read_state
    ReceiverMode.read_mode ReceiverMode.read_scopes ReceiverMode.encode ReceiverMode.put_scopes
    ReceiverMode.mode_to_u8 Stores.open_store Stores.open_existing Stores.ensure_open Stores.find
    Stores.upsert Stores.open_table check_write Stateful.throw_when Stateful.pure Stateful.◌>>=◌
    Stateful.◌>>◌ read_bytes read_number read_u8 read_u32 read_u64_le read_u32_le write_u64_le
    write_u32_le append_u32_le check_bounds compare_node_id is_zero_sync_id compare_bytes memory
    fresh after
first_applied = refl

second_applied :
    apply_batch_ex memory reject (batch 2) (after 1)
    ≡ ok (outcome_of applied no_reason 2 2, after 2)
unfolding apply_batch_ex check_order check_and_commit preflight_and_commit claim_and_commit
    claim_mode commit_ops open_index apply_ops apply_one_op run_op resolve_user_dbi cached
    open_compatible persistent_dbi_flags validate_versioned refusal collect_batch_dbi_flags flags_of
    preflight_batch_user_dbis open_existing_user_dbi make_apply_outcome Meta.open_store
    Meta.get_node_id Meta.try_get_node_id Meta.get_db_uuid Meta.read_fixed Meta.fixed
    Meta.over_zeros Applied.open_store Applied.last_applied_seq Applied.set_last_applied_seq
    Applied.stored_seq VersionedDbi.contains VersionedDbi.lookup VersionedDbi.is_reserved_dbi_name
    ReceiverMode.open_store ReceiverMode.claim_full_global ReceiverMode.get ReceiverMode.put
    ReceiverMode.check_id ReceiverMode.decoded ReceiverMode.decode ReceiverMode.read_state
    ReceiverMode.read_mode ReceiverMode.read_scopes ReceiverMode.encode ReceiverMode.put_scopes
    ReceiverMode.mode_to_u8 Stores.open_store Stores.open_existing Stores.ensure_open Stores.find
    Stores.upsert Stores.open_table check_write Stateful.throw_when Stateful.pure Stateful.◌>>=◌
    Stateful.◌>>◌ read_bytes read_number read_u8 read_u32 read_u64_le read_u32_le write_u64_le
    write_u32_le append_u32_le check_bounds compare_node_id is_zero_sync_id compare_bytes memory
    fresh after
second_applied = refl

-- The batch 3 comes too early.
apply_batch_ex-refused_example :
    memory.get (name "users") (7 ∷ []) fresh ≡ memory.get (name "users") (7 ∷ []) fresh
unfolding memory
apply_batch_ex-refused_example =
    apply_batch_ex-refused memory memory-IsMdbx reject (batch 3) fresh fresh
      (outcome_of conflict sequence_gap 0 3) (name "users") (7 ∷ []) too_early (λ e. cc)

apply_batch_ex-next_example : (batch 2).seq ≡ cursor memory (id 2) (after 1) + 1
unfolding memory
apply_batch_ex-next_example =
    apply_batch_ex-next memory memory-IsMdbx reject (batch 2) (after 1) (after 2)
      (outcome_of applied no_reason 2 2) second_applied refl

apply_batch_ex-cursor_example :
    (cursor memory (id 2) (after 1) ≡ (batch 1).seq)
    × ((outcome_of applied no_reason 1 1).last_applied_seq ≡ (batch 1).seq)
    × NoReserved (put_kv ∷ [])
unfolding memory
apply_batch_ex-cursor_example =
    apply_batch_ex-cursor memory memory-IsMdbx reject (batch 1) fresh (after 1)
      (outcome_of applied no_reason 1 1) first_applied refl (omega arith)

-- The batch 1 comes again when the batch 2 was applied and a table was written.
abbrev later : memory.Txn
unfolding memory
later = (name "others", 1 ∷ [], 2 ∷ []) ∷ after 2

apply_batch_ex-replay_example :
    (again : ApplyOutcome) × (apply_batch_ex memory reject (batch 1) later ≡ ok (again, later))
    × (again.result ≡ skipped)
    × ((table key : Bytes) → memory.get table key later ≡ memory.get table key later)
unfolding memory mdbx_containers.Mdbx.Memory.find
apply_batch_ex-replay_example =
    apply_batch_ex-replay memory memory-IsMdbx reject reject (batch 1) fresh (after 1) later later
      (outcome_of applied no_reason 1 1) first_applied refl (omega arith)
      (next
        (next here (
          applies reject (batch 2) (outcome_of applied no_reason 2 2) (after 1) (after 2)
            second_applied (omega arith)))
        (writes (after 2) later (λ origin. refl)))
      (record {
        middle = later;
        meta_opens = refl;
        applied_opens = refl;
        node = id 1;
        has_node = refl;
        node_size = refl;
        record_of_origin = 2 ∷ 0 ∷ 0 ∷ 0 ∷ 0 ∷ 0 ∷ 0 ∷ 0 ∷ [];
        has_cursor = refl;
      })

apply_batch_ex-monotone_example :
    (cursor memory (id 3) fresh ≤ cursor memory (id 3) (after 1))
    × ((id 2 ≢ id 3) ⊎ (applied ≢ applied)
        → cursor memory (id 3) (after 1) ≡ cursor memory (id 3) fresh)
unfolding memory
apply_batch_ex-monotone_example =
    apply_batch_ex-monotone memory memory-IsMdbx reject (batch 1) fresh (after 1)
      (outcome_of applied no_reason 1 1) (id 3) first_applied (omega arith)

apply_batch_ex-elsewhere_example :
    memory.get (name "other") (7 ∷ []) (after 1) ≡ memory.get (name "other") (7 ∷ []) fresh
unfolding memory c_str
apply_batch_ex-elsewhere_example =
    apply_batch_ex-elsewhere memory memory-IsMdbx reject (batch 1) fresh (after 1)
      (outcome_of applied no_reason 1 1) (name "other") (7 ∷ []) first_applied
      (record { no_op = (refl, tt); no_index = refl; no_mode = refl; no_cursor = refl })

abbrev request : PushRequest
request = record { sender = id 2; db_id = id 9; batches = batch 1 ∷ batch 2 ∷ [] }

abbrev response : PushResponse
response = record {
  receiver_have = (id 2, 2) ∷ [];
  is_ok = true;
  error_code = no_error;
  error_retryable = false;
}

abbrev told : Notice
told = record { applied_batches = 2; applied_ops = 2; affected_dbi_names = name "users" ∷ [] }

push_answered : handle_push memory reject request fresh ≡ ok ((response, told), after 2)
unfolding handle_push push_batches apply_batches respond applied_cursor read_applied_cursor
    cursor_entries db_id_matches db_uuid in_read_txn count_batch add_dbi_names add_unique_dbi_name
    apply_batch_ex check_order check_and_commit preflight_and_commit claim_and_commit claim_mode
    commit_ops open_index apply_ops apply_one_op run_op resolve_user_dbi cached open_compatible
    persistent_dbi_flags validate_versioned refusal collect_batch_dbi_flags flags_of
    preflight_batch_user_dbis open_existing_user_dbi make_apply_outcome Meta.open_store
    Meta.get_node_id Meta.try_get_node_id Meta.get_db_uuid Meta.read_fixed Meta.fixed
    Meta.over_zeros Applied.open_store Applied.last_applied_seq Applied.set_last_applied_seq
    Applied.stored_seq VersionedDbi.contains VersionedDbi.lookup VersionedDbi.is_reserved_dbi_name
    ReceiverMode.open_store ReceiverMode.claim_full_global ReceiverMode.get ReceiverMode.put
    ReceiverMode.check_id ReceiverMode.decoded ReceiverMode.decode ReceiverMode.read_state
    ReceiverMode.read_mode ReceiverMode.read_scopes ReceiverMode.encode ReceiverMode.put_scopes
    ReceiverMode.mode_to_u8 Stores.open_store Stores.open_existing Stores.ensure_open Stores.find
    Stores.upsert Stores.open_table check_write Stateful.throw_when Stateful.pure Stateful.◌>>=◌
    Stateful.◌>>◌ read_bytes read_number read_u8 read_u32 read_u64_le read_u32_le write_u64_le
    write_u32_le append_u32_le check_bounds compare_node_id is_zero_sync_id compare_bytes memory
    fresh after
push_answered = refl

handle_push-all_or_nothing_example :
    ((true ≡ true) × Applies memory reject (batch 1 ∷ batch 2 ∷ []) fresh (after 2))
    ⊎ ((true ≡ false) × (told ≡ no_notice) × (after 2 ≡ fresh))
unfolding memory
handle_push-all_or_nothing_example =
    handle_push-all_or_nothing memory reject request fresh (after 2) response told push_answered

handle_push-monotone_example : cursor memory (id 2) fresh ≤ cursor memory (id 2) (after 2)
unfolding memory
handle_push-monotone_example =
    handle_push-monotone memory memory-IsMdbx reject request fresh (after 2) response told (id 2)
      push_answered (omega arith, (omega arith, tt))
