-- ===== src/Witnesses/Tables.antt =====
-- Tables of strings on a database in memory.
use mdbx_containers.Prelude.{◌≡◌, refl, true, false, none, some, List, [], ◌∷◌, ok, arith, bytes_eq}
use mdbx_containers.NodeId.{compare_bytes}
use mdbx_containers.Mdbx.{Bytes, c_str, name, check_write, failed}
use mdbx_containers.Mdbx.Memory.{memory, memory-IsMdbx}
use mdbx_containers.Stateful
use mdbx_containers.Stateful.{◌>>◌}
use mdbx_containers.Stores
use mdbx_containers.Entries.{seek, place}
use mdbx_containers.Protocol.Batch.{ChangeOp, put, delete}
use mdbx_containers.Engine.Operations.{
  apply_one_op, run_op, resolve_user_dbi, cached, uncache, erase_key,
}
use mdbx_containers.Engine.Checks.{open_compatible, persistent_dbi_flags}
use mdbx_containers.Engine.Apply.{apply_ops}
use mdbx_containers.Tables.{
  BaseTable, Connection, in_txn, reading, of_result, record_op, record_change_op, change,
}
use mdbx_containers.Tables.Laws.{IsCapturing}
use mdbx_containers.Tables.Strings.{
  strings, strings-IsSerializer, serialize_string_key, deserialize_string_key,
  serialize_string_value, deserialize_string_value,
}
use mdbx_containers.Tables.Replication.{unversioned}
use mdbx_containers.Tables.KeyValue.{
  decoded, db_get, db_contains, write, db_insert_or_assign, put_if_absent, db_insert_if_absent,
  db_update, delete_record, db_erase, db_clear,
}
use mdbx_containers.Tables.KeyValue.Ranges.{upto, between, pair_of, pairs_of, db_range}
use mdbx_containers.Tables.KeyValue.Bulk.{
  db_append, remove, holds_key, remove_stale, db_reconcile, erase_loop, from_lower, db_erase_range,
}
use mdbx_containers.Tables.KeyValue.Spec.{
  Command, insert_or_assign, insert_if_absent, update, erase, find, contains, append, Answer, done,
  flag, found, run, run_all, steps, Map, assign_all,
}
use mdbx_containers.Tables.KeyValue.Refinement.{Represents}
use mdbx_containers.Tables.KeyValue.Steps.{run_all-steps}
use mdbx_containers.Tables.KeyValue.Replay.{run_all-replayed, bulk-replayed}
use mdbx_containers.Tables.KeyValue.Reconcile.{db_reconcile-Represents}
use mdbx_containers.Tables.KeyValue.Between.{IsCanonical, value_in, value_in-db_range}

abbrev users : BaseTable
users = record { dbi_name = name "users"; dbi_flags = 0 }

abbrev plain : Connection memory
plain = record {
  is_read_only = false;
  validate_sync_dbi_write = λ dbi_name type t. ok tt;
  sync_capture_suppressed = λ t. false;
  has_sync_capture = true;
}

plain-IsCapturing : IsCapturing plain
plain-IsCapturing = record { writable = refl; attached = refl; unsuppressed = λ t. refl }

strings-IsCanonical : IsCanonical strings
unfolding strings serialize_string_key deserialize_string_key
strings-IsCanonical = record { serialize-deserialize_key = λ b k h. ground arith }

abbrev start : memory.Txn
unfolding memory
start = []

nothing-Represents :
    Represents memory memory-IsMdbx plain strings strings-IsSerializer users start (λ k. none)
unfolding memory mdbx_containers.Mdbx.Memory.find
nothing-Represents = record { holds = λ k b h. refl }

abbrev commands : List (Command Bytes Bytes)
commands =
    insert_or_assign (1 ∷ []) (10 ∷ [])
    ∷ insert_if_absent (1 ∷ []) (11 ∷ [])
    ∷ update (1 ∷ []) (λ v. 9 ∷ v)
    ∷ insert_if_absent (2 ∷ []) (12 ∷ [])
    ∷ find (1 ∷ [])
    ∷ erase (2 ∷ [])
    ∷ contains (2 ∷ [])
    ∷ append ((3 ∷ [], 13 ∷ []) ∷ [])
    ∷ []

abbrev answers : List (Answer Bytes)
answers =
    done
    ∷ flag false
    ∷ flag true
    ∷ flag true
    ∷ found (some (9 ∷ 10 ∷ []))
    ∷ flag true
    ∷ flag false
    ∷ done
    ∷ []

abbrev after : memory.Txn
unfolding memory
after = (name "users", 1 ∷ [], 9 ∷ 10 ∷ []) ∷ (name "users", 3 ∷ [], 13 ∷ []) ∷ []

abbrev put_user : Bytes → Bytes → ChangeOp
put_user k v = change memory plain users put k v

abbrev ops : List ChangeOp
ops =
    put_user (1 ∷ []) (10 ∷ [])
    ∷ put_user (1 ∷ []) (9 ∷ 10 ∷ [])
    ∷ put_user (2 ∷ []) (12 ∷ [])
    ∷ change memory plain users delete (2 ∷ []) []
    ∷ put_user (3 ∷ []) (13 ∷ [])
    ∷ []

commands_run : run_all memory plain strings users commands (start, []) ≡ ok (answers, (after, ops))
unfolding run_all run decoded db_get db_contains write db_insert_or_assign put_if_absent
    db_insert_if_absent db_update delete_record db_erase db_clear db_append in_txn reading of_result
    record_op record_change_op Stores.find check_write Stateful.pure Stateful.◌>>=◌ Stateful.◌>>◌
    memory strings serialize_string_key serialize_string_value deserialize_string_value
    deserialize_string_key compare_bytes mdbx_containers.Mdbx.Memory.find
    mdbx_containers.Mdbx.Memory.insert mdbx_containers.Mdbx.Memory.without
    mdbx_containers.Mdbx.Memory.put_new mdbx_containers.Mdbx.Memory.del c_str
commands_run = refl

run_all-steps_example :
    (answers ≡ (steps bytes_eq commands (λ k. none)).1)
    × Represents memory memory-IsMdbx plain strings strings-IsSerializer users after
        (steps bytes_eq commands (λ k. none)).0
unfolding strings
run_all-steps_example =
    run_all-steps memory memory-IsMdbx plain strings strings-IsSerializer users commands (start, [])
      (after, ops) (λ k. none) answers nothing-Represents commands_run

-- Another database, with a table of its own.
abbrev other_start : memory.Txn
unfolding memory
other_start = (name "other", 5 ∷ [], 6 ∷ []) ∷ []

abbrev other_after : memory.Txn
unfolding memory
other_after =
    (name "other", 5 ∷ [], 6 ∷ [])
    ∷ (name "users", 1 ∷ [], 9 ∷ 10 ∷ [])
    ∷ (name "users", 3 ∷ [], 13 ∷ [])
    ∷ []

replay_run :
    apply_ops memory ops
      (unversioned ops)
      (1 ∷ [])
      1
      mdbx_containers.Stores.IdentityIndex.make
      []
      other_start
    ≡ ok (tt, other_after)
unfolding apply_ops apply_one_op run_op resolve_user_dbi cached uncache erase_key open_compatible
    persistent_dbi_flags Stores.upsert check_write Stateful.pure Stateful.◌>>=◌ Stateful.◌>>◌ memory
    compare_bytes mdbx_containers.Mdbx.Memory.find mdbx_containers.Mdbx.Memory.insert
    mdbx_containers.Mdbx.Memory.without mdbx_containers.Mdbx.Memory.del
replay_run = refl

no_user : (k : Bytes) → memory.get (name "users") k other_start ≡ memory.get (name "users") k start
unfolding memory mdbx_containers.Mdbx.Memory.find
no_user k = refl

run_all-replayed_example :
    memory.get (name "users") (1 ∷ []) other_after ≡ memory.get (name "users") (1 ∷ []) after
run_all-replayed_example =
    run_all-replayed memory memory-IsMdbx plain plain-IsCapturing strings users commands start after
      other_start other_after answers ops (1 ∷ []) 1 mdbx_containers.Stores.IdentityIndex.make []
      (name "users") (1 ∷ []) commands_run replay_run (no_user (1 ∷ []))

abbrev container : List (Bytes × Bytes)
container = (4 ∷ [], 14 ∷ []) ∷ (1 ∷ [], 15 ∷ []) ∷ []

-- The table when it holds the container.
abbrev reconciled : memory.Txn
unfolding memory
reconciled = (name "users", 1 ∷ [], 15 ∷ []) ∷ (name "users", 4 ∷ [], 14 ∷ []) ∷ []

abbrev reconcile_ops : List ChangeOp
reconcile_ops =
    put_user (4 ∷ []) (14 ∷ [])
    ∷ put_user (1 ∷ []) (15 ∷ [])
    ∷ change memory plain users delete (3 ∷ []) []
    ∷ []

abbrev held : Map Bytes Bytes
unfolding strings
held = (steps bytes_eq commands (λ k. none)).0

reconcile_run :
    db_reconcile memory plain strings users container (after, [])
    ≡ ok (tt, (reconciled, reconcile_ops))
unfolding db_reconcile db_append remove_stale holds_key remove write in_txn reading of_result
    record_op record_change_op check_write Stateful.pure Stateful.◌>>=◌ Stateful.◌>>◌ memory strings
    serialize_string_key serialize_string_value deserialize_string_key compare_bytes place
    mdbx_containers.Mdbx.Memory.find mdbx_containers.Mdbx.Memory.insert
    mdbx_containers.Mdbx.Memory.without mdbx_containers.Mdbx.Memory.del
    mdbx_containers.Mdbx.Memory.table c_str
reconcile_run = refl

db_reconcile-Represents_example :
    Represents memory memory-IsMdbx plain strings strings-IsSerializer users reconciled
      (assign_all bytes_eq container (λ k. none))
unfolding strings
db_reconcile-Represents_example =
    db_reconcile-Represents memory memory-IsMdbx plain strings strings-IsSerializer users
      (after, []) (reconciled, reconcile_ops) held container
      (run_all-steps memory memory-IsMdbx plain strings strings-IsSerializer users commands
        (start, []) (after, ops) (λ k. none) answers nothing-Represents commands_run).1
      reconcile_run

abbrev low_users : List (Bytes × Bytes)
low_users = (1 ∷ [], 9 ∷ 10 ∷ []) ∷ []

range_run :
    db_range memory plain strings users (1 ∷ []) (2 ∷ []) (after, []) ≡ ok (low_users, (after, []))
unfolding db_range between pair_of pairs_of upto seek place in_txn reading of_result Stateful.pure
    Stateful.◌>>=◌ Stateful.◌>>◌ memory strings serialize_string_key deserialize_string_key
    deserialize_string_value compare_bytes mdbx_containers.Mdbx.Memory.table c_str
range_run = refl

value_in-db_range_example : value_in bytes_eq (3 ∷ []) low_users ≡ none
unfolding strings compare_bytes serialize_string_key memory
value_in-db_range_example =
    value_in-db_range memory memory-IsMdbx plain strings strings-IsSerializer users
      strings-IsCanonical (after, []) (after, []) held (1 ∷ []) (2 ∷ []) low_users (1 ∷ []) (2 ∷ [])
      (run_all-steps memory memory-IsMdbx plain strings strings-IsSerializer users commands
        (start, []) (after, ops) (λ k. none) answers nothing-Represents commands_run).1
      refl refl refl range_run (3 ∷ []) (3 ∷ []) refl

abbrev erased : memory.Txn
unfolding memory
erased = (name "users", 4 ∷ [], 14 ∷ []) ∷ []

abbrev bulk_ops : List ChangeOp
bulk_ops =
    put_user (4 ∷ []) (14 ∷ [])
    ∷ put_user (1 ∷ []) (15 ∷ [])
    ∷ change memory plain users delete (3 ∷ []) []
    ∷ change memory plain users delete (1 ∷ []) []
    ∷ []

bulk_run :
    (db_reconcile memory plain strings users container
        >> db_erase_range memory plain strings users (0 ∷ []) (2 ∷ []))
      (after, [])
    ≡ ok (1, (erased, bulk_ops))
unfolding db_reconcile db_append remove_stale holds_key remove write in_txn reading of_result
    record_op record_change_op check_write Stateful.pure Stateful.◌>>=◌ Stateful.◌>>◌ memory strings
    serialize_string_key serialize_string_value deserialize_string_key compare_bytes place seek
    db_erase_range erase_loop from_lower mdbx_containers.Mdbx.Memory.find
    mdbx_containers.Mdbx.Memory.insert mdbx_containers.Mdbx.Memory.without
    mdbx_containers.Mdbx.Memory.del mdbx_containers.Mdbx.Memory.table c_str
bulk_run = refl

bulk_replay_run :
    apply_ops memory bulk_ops
      (unversioned bulk_ops)
      (1 ∷ [])
      2
      mdbx_containers.Stores.IdentityIndex.make
      []
      after
    ≡ ok (tt, erased)
unfolding apply_ops apply_one_op run_op resolve_user_dbi cached uncache erase_key open_compatible
    persistent_dbi_flags Stores.upsert check_write Stateful.pure Stateful.◌>>=◌ Stateful.◌>>◌ memory
    compare_bytes mdbx_containers.Mdbx.Memory.find mdbx_containers.Mdbx.Memory.insert
    mdbx_containers.Mdbx.Memory.without mdbx_containers.Mdbx.Memory.del
bulk_replay_run = refl

bulk-replayed_example :
    memory.get (name "users") (4 ∷ []) erased ≡ memory.get (name "users") (4 ∷ []) erased
bulk-replayed_example =
    bulk-replayed memory memory-IsMdbx plain plain-IsCapturing strings users container (0 ∷ [])
      (2 ∷ []) after erased after erased 1 bulk_ops (1 ∷ []) 2
      mdbx_containers.Stores.IdentityIndex.make [] (name "users") (4 ∷ []) bulk_run bulk_replay_run
      refl
