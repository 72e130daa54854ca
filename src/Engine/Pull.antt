-- ===== src/Engine/Pull.antt =====
-- include/mdbx_containers/sync/engine/SyncEngine.hpp and sync/protocol.hpp: the messages of a pull, and the origins
-- that the changelog knows. The text of an error and the fields of a snapshot chunk are left out.
use mdbx_containers.Prelude.{
  ℕ, ◌-◌, ◌^◌, Bool, true, false, not, Option, none, some, List, [], ◌∷◌, ok, throw, Result, length,
  take, drop, ◌==◌, leb, if◌then◌else◌, runtime_error,
}
use mdbx_containers.Bytes.{read_u64_be}
use mdbx_containers.NodeId.{
  NodeId, Comparison, less, same, greater, is_same, compare_node_id, compare_bytes,
}
use mdbx_containers.Mdbx.{Bytes}
use mdbx_containers.Entries.{Entry, is_less}
use mdbx_containers.Protocol.Batch.{ChangeBatch}
use mdbx_containers.Stores.ChangeLog.{encode_key}
use mdbx_containers.Engine.Push.{SyncCursor, SyncResponseErrorCode, no_error}

-- `struct PullRequest`
pub record PullRequest : Type 0 where
  pub requester : NodeId
  pub db_id : NodeId
  pub have : SyncCursor
  pub max_batches : ℕ
  pub max_bytes : ℕ
  pub request_full_snapshot : Bool
  pub full_snapshot_id : Bytes
  pub full_snapshot_continuation : Bytes
  pub max_single_batch_bytes : ℕ

-- `struct PullResponse`
pub record PullResponse : Type 0 where
  pub remote_have : SyncCursor
  pub remote_tail : SyncCursor
  pub remote_tail_known : Bool
  pub batches : List ChangeBatch
  pub has_more : Bool
  pub is_full_snapshot : Bool
  pub is_ok : Bool
  pub error_code : SyncResponseErrorCode
  pub error_retryable : Bool

abbrev pub empty_response : PullResponse
empty_response = record {
  remote_have = [];
  remote_tail = [];
  remote_tail_known = false;
  batches = [];
  has_more = false;
  is_full_snapshot = false;
  is_ok = true;
  error_code = no_error;
  error_retryable = false;
}

-- `set_snapshot_required`, `set_batch_too_large` and the refusals of a request: a response with no batch.
unfoldable pub refuse : SyncResponseErrorCode → PullResponse → PullResponse
refuse code out = record out {
  batches = [];
  has_more = false;
  is_ok = false;
  error_code = code;
  error_retryable = false;
}

-- `SyncCursor::last_seq_for`
unfoldable pub last_seq_for : SyncCursor → NodeId → ℕ
last_seq_for [] origin = 0
last_seq_for ((o, seq) ∷ cursor) origin =
    let rest = last_seq_for cursor origin in if is_same (compare_bytes o origin) then seq else rest

-- `last_seq_by_origin[origin] = seq`
unfoldable pub set_last_seq : NodeId → ℕ → SyncCursor → SyncCursor
set_last_seq origin seq [] = (origin, seq) ∷ []
set_last_seq origin seq ((o, n) ∷ cursor) =
    let rest = set_last_seq origin seq cursor in
    elim (compare_bytes origin o) [
      | less ↦ (origin, seq) ∷ (o, n) ∷ cursor
      | same ↦ (origin, seq) ∷ cursor
      | greater ↦ (o, n) ∷ rest
    ]

-- `struct PullOrigin`; the tail is none without `has_last_seq`.
pub record PullOrigin : Type 0 where
  pub origin : NodeId
  pub tail : Option ℕ

unfoldable pub origin_is_at_tail : PullOrigin → SyncCursor → Bool
unfolding last_seq_for
origin_is_at_tail o have = elim o.tail [
  | none ↦ false
  | some tail ↦ leb tail (last_seq_for have o.origin)
]

unfoldable pub changelog_key_origin : Bytes → Result NodeId
changelog_key_origin key =
    if not (length key == 24)
    then throw (runtime_error "SyncEngine: invalid changelog key size")
    else ok (take 16 key)

-- `changelog_key_seq` of a key whose size was checked
unfoldable pub changelog_key_seq : Bytes → ℕ
changelog_key_seq key = read_u64_be (drop 16 key)

abbrev pub max_seq : ℕ
max_seq = 2 ^ 64 - 1

-- The loop of `collect_changelog_origins`, one record at a time. While it skips, it is on its way to the key of
-- the origin with the greatest number (MDBX_SET_RANGE); at such a key of the same origin it takes one
-- step more.
unfoldable pub collect_origins :
    (Bytes → Bytes → Comparison) → Option NodeId → List Entry → Result (List PullOrigin)
unfolding changelog_key_origin encode_key compare_node_id
collect_origins cmp skipping [] = ok []
collect_origins cmp skipping ((k, v) ∷ l) =
    let here = collect_origins cmp none l in
    let on = collect_origins cmp skipping l in
    let new : Result (List PullOrigin) = elim (changelog_key_origin k) [
      | throw e ↦ throw e
      | ok o ↦
          let rest = collect_origins cmp (some o) l in
          elim (if is_less (cmp k (encode_key o max_seq)) then rest else here) [
            | throw e ↦ throw e
            | ok origins ↦ ok (record { origin = o; tail = none } ∷ origins)
          ]
    ] in
    elim skipping [
      | none ↦ new
      | some last ↦
          if is_less (cmp k (encode_key last max_seq)) then on else elim (changelog_key_origin k) [
            | throw e ↦ throw e
            | ok o ↦ if is_same (compare_node_id o last) then here else new
          ]
    ]

unfoldable pub copy_known_tail : List PullOrigin → SyncCursor → Option SyncCursor
unfolding set_last_seq
copy_known_tail [] out = some out
copy_known_tail (o ∷ origins) out = elim o.tail [
  | none ↦ none
  | some tail ↦ copy_known_tail origins (set_last_seq o.origin tail out)
]
