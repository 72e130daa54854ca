-- ===== src/Witnesses/Pull.antt =====
-- A pull from a database in memory.
use mdbx_containers.Prelude.{
  ℕ, ◌≤◌, ◌<◌, arith, ◌≡◌, refl, true, false, some, All, bytes_eq, List, [], ◌∷◌, ok, length,
}
use mdbx_containers.NodeId.{NodeId, compare_node_id, compare_bytes, is_zero_sync_id}
use mdbx_containers.Mdbx.{Bytes, InTxn, name, check_write}
use mdbx_containers.Mdbx.Memory.{memory}
use mdbx_containers.Entries.{Entry, IsSorted, seek, place}
use mdbx_containers.Bytes.{IsU64, read_u64_be, write_u64_be, read_u64_le, read_u32_le, read_u16_le}
use mdbx_containers.Reader.{
  read_bytes, read_number, read_u8, read_u16, read_u32, read_u64, check_bounds,
}
use mdbx_containers.Protocol.Batch.{ChangeBatch}
use mdbx_containers.Protocol.Decode.{
  decode_exact, decode, read_batch, check_magic, read_ops, finish,
}
use mdbx_containers.Protocol.Encode.{magic}
use mdbx_containers.Stores.ChangeLog.{encode_key}
use mdbx_containers.Stateful
use mdbx_containers.Stores
use mdbx_containers.Stores.Meta
use mdbx_containers.Stores.Meta.{key_db_uuid}
use mdbx_containers.Stores.OriginIndex
use mdbx_containers.Engine.Push.{
  db_id_matches, db_uuid, in_read_txn, read_applied_cursor, cursor_entries,
}
use mdbx_containers.Engine.Pull.{
  PullRequest, PullResponse, PullOrigin, empty_response, last_seq_for, set_last_seq,
  origin_is_at_tail, changelog_key_origin, changelog_key_seq, collect_origins, copy_known_tail,
  refuse,
}
use mdbx_containers.Engine.PullPage.{
  pull_loop, pull_origin_batches, changelog_earliest_seq, request_has_retained_start, all_retained,
  pull_origins, fill_page, collect_indexed_origins, of_result, collect_known_origins,
  pull_changelog_page, open_changelog_ro, handle_pull,
}
use mdbx_containers.Engine.PullAnswers.{fill_page-progress}
use mdbx_containers.Engine.PullMissing.{IsLogged, origin_of, seq_of}
use mdbx_containers.Engine.PullSpec.{IsKnown, AllSent}
use mdbx_containers.Engine.PullSent.{fill_page-AllSent}
use mdbx_containers.Engine.PullHandler.{handle_pull-bounded}

abbrev node : ℕ → NodeId
node n = n ∷ 0 ∷ 0 ∷ 0 ∷ 0 ∷ 0 ∷ 0 ∷ 0 ∷ 0 ∷ 0 ∷ 0 ∷ 0 ∷ 0 ∷ 0 ∷ 0 ∷ 0 ∷ []

-- The key of the batch `n` of the node 2.
abbrev key : ℕ → Bytes
key n =
    2 ∷ 0 ∷ 0 ∷ 0 ∷ 0 ∷ 0 ∷ 0 ∷ 0 ∷ 0 ∷ 0 ∷ 0 ∷ 0 ∷ 0 ∷ 0 ∷ 0 ∷ 0 ∷ 0 ∷ 0 ∷ 0 ∷ 0 ∷ 0 ∷ 0 ∷ 0 ∷ n
    ∷ []

abbrev batch : ℕ → ChangeBatch
batch n = record {
  version = 1;
  batch_flags = 0;
  origin_node_id = node 2;
  seq = n;
  time_unix_ns = 0;
  ops = [];
}

abbrev encoded : ℕ → Bytes
encoded n =
    77 ∷ 68 ∷ 66 ∷ 88 ∷ 67 ∷ 83 ∷ 89 ∷ 78 ∷ 1 ∷ 0 ∷ 1 ∷ 0 ∷ 0 ∷ 0 ∷ 0 ∷ 0 ∷ 0 ∷ 0 ∷ 2 ∷ 0 ∷ 0 ∷ 0
    ∷ 0 ∷ 0 ∷ 0 ∷ 0 ∷ 0 ∷ 0 ∷ 0 ∷ 0 ∷ 0 ∷ 0 ∷ 0 ∷ 0 ∷ n ∷ 0 ∷ 0 ∷ 0 ∷ 0 ∷ 0 ∷ 0 ∷ 0 ∷ 0 ∷ 0 ∷ 0 ∷ 0
    ∷ 0 ∷ 0 ∷ 0 ∷ 0 ∷ 0 ∷ 0 ∷ 0 ∷ 0 ∷ []

-- The batches 2 and 3 of the node 2 are retained.
abbrev retained : List Entry
retained = (key 2, encoded 2) ∷ (key 3, encoded 3) ∷ []

-- The requester has the batches up to 2.
abbrev request : PullRequest
request = record {
  requester = node 5;
  db_id = node 9;
  have = (node 2, 2) ∷ [];
  max_batches = 10;
  max_bytes = 1000;
  request_full_snapshot = false;
  full_snapshot_id = [];
  full_snapshot_continuation = [];
  max_single_batch_bytes = 100;
}

abbrev origins : List PullOrigin
origins = record { origin = node 2; tail = some 3 } ∷ []

abbrev response : PullResponse
response = record empty_response { batches = batch 3 ∷ [] }

page_run : fill_page compare_bytes retained request origins empty_response ≡ ok response
unfolding fill_page all_retained request_has_retained_start origin_is_at_tail last_seq_for
    changelog_earliest_seq seek encode_key changelog_key_origin changelog_key_seq compare_node_id
    pull_origins pull_origin_batches pull_loop decode_exact read_u64_be write_u64_be compare_bytes
    read_bytes read_number read_u8 read_u32 check_bounds read_u64_le read_u32_le decode read_batch
    check_magic read_ops finish magic read_u16 read_u16_le read_u64 Stateful.◌>>◌ Stateful.◌>>=◌
    Stateful.throw_when Stateful.pure
page_run = refl

retained-IsSorted : IsSorted compare_bytes retained
unfolding compare_bytes
retained-IsSorted = ((refl, tt), (tt, tt))

retained-IsLogged : All IsLogged retained
unfolding encode_key write_u64_be read_u64_be
retained-IsLogged = (
  record { origin_fits = refl; seq_fits = omega arith; is_key = refl },
  (record { origin_fits = refl; seq_fits = omega arith; is_key = refl }, tt),
)

tail-covers :
    (tail : ℕ)
    → some 3 ≡ some tail
    → IsU64 tail × All (λ e. bytes_eq (origin_of e) (node 2) ≡ true → seq_of e ≤ tail) retained
unfolding read_u64_be
tail-covers tail e =
    let three : 3 ≡ tail = cc e in
    (omega (arith, three), ((λ own. omega (arith, three)), ((λ own. omega (arith, three)), tt)))

origins-IsKnown : All (IsKnown retained request) origins
origins-IsKnown = (record { origin_fits = refl; have_fits = omega arith; covers = tail-covers }, tt)

fill_page-AllSent_example : AllSent retained request origins (batch 3 ∷ [])
fill_page-AllSent_example =
    fill_page-AllSent retained request retained-IsSorted retained-IsLogged origins empty_response
      response origins-IsKnown page_run refl refl

-- The database 9 with the retained batches.
abbrev source : memory.Txn
unfolding memory
source =
    (name "_mdbxc_meta", key_db_uuid, node 9)
    ∷ (name "_mdbxc_changelog", key 2, encoded 2)
    ∷ (name "_mdbxc_changelog", key 3, encoded 3)
    ∷ []

abbrev no_snapshots : PullRequest → InTxn memory PullResponse
no_snapshots _ = Stateful.pure empty_response

pull_run : handle_pull memory no_snapshots request source ≡ ok (response, source)
unfolding handle_pull db_id_matches db_uuid in_read_txn open_changelog_ro read_applied_cursor
    cursor_entries pull_changelog_page refuse collect_known_origins collect_indexed_origins
    collect_origins copy_known_tail set_last_seq of_result is_zero_sync_id OriginIndex.open_existing
    Stores.open_existing Stores.open_store Stores.find Stores.ensure_open Stores.open_table
    Meta.open_store Meta.get_db_uuid Meta.read_fixed Meta.fixed Meta.over_zeros memory source place
    mdbx_containers.Mdbx.Memory.find mdbx_containers.Mdbx.Memory.table fill_page all_retained
    request_has_retained_start origin_is_at_tail last_seq_for changelog_earliest_seq seek encode_key
    changelog_key_origin changelog_key_seq compare_node_id pull_origins pull_origin_batches
    pull_loop decode_exact read_u64_be write_u64_be compare_bytes read_bytes read_number read_u8
    read_u32 check_bounds read_u64_le read_u32_le decode read_batch check_magic read_ops finish
    magic read_u16 read_u16_le read_u64 Stateful.◌>>◌ Stateful.◌>>=◌ Stateful.throw_when
    Stateful.pure
pull_run = refl

handle_pull-bounded_example : (source ≡ source) × (length (batch 3 ∷ []) ≤ 10)
handle_pull-bounded_example =
    handle_pull-bounded memory no_snapshots request source source response refl pull_run

-- The requester takes one batch at a time and has none.
abbrev small : PullRequest
small = record request { have = []; max_batches = 1 }

abbrev whole : List Entry
whole = (key 1, encoded 1) ∷ (key 2, encoded 2) ∷ []

abbrev one_page : PullResponse
one_page = record empty_response { batches = batch 1 ∷ []; has_more = true }

first_run : fill_page compare_bytes whole small origins empty_response ≡ ok one_page
unfolding fill_page all_retained request_has_retained_start origin_is_at_tail last_seq_for
    changelog_earliest_seq seek encode_key changelog_key_origin changelog_key_seq compare_node_id
    pull_origins pull_origin_batches pull_loop decode_exact read_u64_be write_u64_be compare_bytes
    read_bytes read_number read_u8 read_u32 check_bounds read_u64_le read_u32_le decode read_batch
    check_magic read_ops finish magic read_u16 read_u16_le read_u64 Stateful.◌>>◌ Stateful.◌>>=◌
    Stateful.throw_when Stateful.pure
first_run = refl

fill_page-progress_example : 0 < length (batch 1 ∷ [])
fill_page-progress_example =
    fill_page-progress compare_bytes whole small origins empty_response one_page first_run
      (omega arith) (omega arith) refl
