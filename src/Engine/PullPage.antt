-- ===== src/Engine/PullPage.antt =====
-- include/mdbx_containers/sync/engine/SyncEngine.hpp: `pull_changelog_page` and `handle_pull`. Cancellation is left out;
-- `handle_full_snapshot_pull` is an argument.
use mdbx_containers.Prelude.{
  ℕ, ◌+◌, ◌%◌, ◌^◌, Bool, true, false, not, ◌||◌, Option, none, some, List, [], ◌∷◌, ◌++◌, map, ok,
  throw, Result, length, ◌==◌, leb, ltb, if◌then◌else◌, is_empty, not_found, mdbx_exception,
  runtime_error,
}
use mdbx_containers.NodeId.{NodeId, Comparison, is_same, compare_node_id}
use mdbx_containers.Stateful.{◌>>=◌, pure}
use mdbx_containers.Mdbx.{Bytes, Mdbx, InTxn, done, failed, name}
use mdbx_containers.Entries.{Entry, seek}
use mdbx_containers.Protocol.Batch.{ChangeBatch}
use mdbx_containers.Protocol.Decode.{decode_exact}
use mdbx_containers.Stores.ChangeLog.{encode_key}
use mdbx_containers.Stores.OriginIndex
use mdbx_containers.Stores.OriginIndex.{OriginTail}
use mdbx_containers.Engine.Push.{
  db_id_mismatch, unsupported_full_snapshot, snapshot_required, batch_too_large, in_read_txn,
  db_id_matches, read_applied_cursor,
}
use mdbx_containers.Engine.Pull.{
  PullRequest, PullResponse, empty_response, refuse, last_seq_for, PullOrigin, origin_is_at_tail,
  changelog_key_origin, changelog_key_seq, max_seq, collect_origins, copy_known_tail,
}

-- The batches of the page, and `total_bytes`.
pub record Page : Type 0 where
  pub taken : List ChangeBatch
  pub total_bytes : ℕ

-- How `pull_origin_batches` ends: it returned false; it returned true with the page full; it
-- returned true with `set_batch_too_large`.
pub data Walk : Type 0 where
  origin_done page_full too_large : Walk

-- The loop of `pull_origin_batches` from the record that the cursor is at.
unfoldable pub pull_loop : NodeId → PullRequest → List Entry → Page → Result (Page × Walk)
unfolding changelog_key_origin changelog_key_seq compare_node_id decode_exact
pull_loop origin request [] page = ok (page, origin_done)
pull_loop origin request ((k, v) ∷ l) page = elim (changelog_key_origin k) [
  | throw e ↦ throw e
  | ok o ↦
      if not (is_same (compare_node_id o origin))
      then ok (page, origin_done)
      else if leb request.max_batches (length page.taken) || leb request.max_bytes page.total_bytes
      then ok (page, page_full)
      else if ltb request.max_single_batch_bytes (length v)
      then ok (page, too_large)
      else elim (decode_exact v none) [
        | throw e ↦ throw e
        | ok batch ↦
            if not (is_same (compare_node_id batch.origin_node_id origin))
              || not (batch.seq == changelog_key_seq k)
            then throw (runtime_error "SyncEngine: changelog key/value mismatch")
            else pull_loop origin request l (record {
              taken = page.taken ++ batch ∷ [];
              total_bytes = (page.total_bytes + length v) % 2 ^ 64;
            })
      ]
]

module _ (cmp : Bytes → Bytes → Comparison) (entries : List Entry) (request : PullRequest) where
  unfoldable pub pull_origin_batches : NodeId → Page → Result (Page × Walk)
  unfolding last_seq_for seek encode_key pull_loop
  pull_origin_batches origin page =
      let have_seq = last_seq_for request.have origin in
      if have_seq == max_seq
      then ok (page, origin_done)
      else pull_loop origin request (seek cmp (encode_key origin (have_seq + 1)) entries) page

  -- The number of the first record of the origin.
  unfoldable pub changelog_earliest_seq : NodeId → Result (Option ℕ)
  unfolding seek encode_key changelog_key_origin changelog_key_seq compare_node_id
  changelog_earliest_seq origin = elim (seek cmp (encode_key origin 0) entries) [
    | [] ↦ ok none
    | (k, v) ∷ l ↦ elim (changelog_key_origin k) [
      | throw e ↦ throw e
      | ok o ↦
          if not (is_same (compare_node_id o origin))
          then ok none
          else ok (some (changelog_key_seq k))
    ]
  ]

  -- `request_has_retained_start`; where it is false, the response says that a snapshot is required.
  unfoldable pub request_has_retained_start : PullOrigin → Result Bool
  unfolding origin_is_at_tail last_seq_for changelog_earliest_seq
  request_has_retained_start o =
      let have_seq = last_seq_for request.have o.origin in
      if origin_is_at_tail o request.have
      then ok true
      else if have_seq == max_seq
      then ok true
      else elim (changelog_earliest_seq o.origin) [
        | throw e ↦ throw e
        | ok none ↦ elim o.tail [ none ↦ ok true | some tail ↦ ok (not (ltb have_seq tail)) ]
        | ok (some earliest) ↦ ok (not (ltb (have_seq + 1) earliest))
      ]

  unfoldable pub all_retained : List PullOrigin → Result Bool
  unfolding request_has_retained_start
  all_retained [] = ok true
  all_retained (o ∷ origins) = elim (request_has_retained_start o) [
    | throw e ↦ throw e
    | ok false ↦ ok false
    | ok true ↦ all_retained origins
  ]

  -- The loop over the origins.
  unfoldable pub pull_origins : List PullOrigin → Page → Result (Page × Walk)
  unfolding origin_is_at_tail pull_origin_batches
  pull_origins [] page = ok (page, origin_done)
  pull_origins (o ∷ origins) page =
      let rest = pull_origins origins page in
      if origin_is_at_tail o request.have then rest else elim (pull_origin_batches o.origin page) [
        | throw e ↦ throw e
        | ok (page', origin_done) ↦ pull_origins origins page'
        | ok (page', page_full) ↦ ok (page', page_full)
        | ok (page', too_large) ↦ ok (page', too_large)
      ]

  -- `pull_changelog_page` from the checks of the origins on.
  unfoldable pub fill_page : List PullOrigin → PullResponse → Result PullResponse
  unfolding all_retained pull_origins refuse
  fill_page origins out = elim (all_retained origins) [
    | throw e ↦ throw e
    | ok false ↦ ok (refuse snapshot_required out)
    | ok true ↦ elim (pull_origins origins (record { taken = []; total_bytes = 0 })) [
      | throw e ↦ throw e
      | ok (page, origin_done) ↦ ok (record out { batches = page.taken; has_more = false })
      | ok (page, page_full) ↦ ok (record out { batches = page.taken; has_more = true })
      | ok (page, too_large) ↦ ok (refuse batch_too_large out)
    ]
  ]

abbrev pub changelog_name : Bytes
changelog_name = name "_mdbxc_changelog"

module _ (db : Mdbx) where
  unfoldable pub collect_indexed_origins : InTxn db (List PullOrigin)
  unfolding ◌>>=◌ pure OriginIndex.open_existing OriginIndex.origin_tails
  collect_indexed_origins = do
    index ← OriginIndex.open_existing db OriginIndex.make
    if not index.1 then pure [] else do
      tails ← OriginIndex.origin_tails db index.0
      pure (map (λ tail. record { origin = tail.origin; tail = some tail.last_seq }) tails)

  unfoldable pub of_result : {A : Type 0} → Result A → InTxn db A
  of_result (ok a) t = ok (a, t)
  of_result (throw e) t = throw e

  unfoldable pub collect_known_origins : InTxn db (List PullOrigin)
  unfolding ◌>>=◌ pure collect_indexed_origins collect_origins
  collect_known_origins = do
    indexed ← collect_indexed_origins
    if not (is_empty indexed) then pure indexed else (λ t.
        of_result (collect_origins (db.cmp changelog_name t) none (db.entries changelog_name t)) t)

  abbrev pub known_tail : List PullOrigin → PullResponse → PullResponse
  known_tail origins out = elim (copy_known_tail origins []) [
    | none ↦ record out { remote_tail = []; remote_tail_known = false }
    | some tail ↦ record out { remote_tail = tail; remote_tail_known = true }
  ]

  unfoldable pub pull_changelog_page : PullRequest → InTxn db PullResponse
  unfolding ◌>>=◌ pure refuse read_applied_cursor collect_known_origins copy_known_tail fill_page
      of_result
  pull_changelog_page request =
      if request.request_full_snapshot
      then pure (refuse unsupported_full_snapshot empty_response)
      else do
        have ← read_applied_cursor db
        origins ← collect_known_origins
        λ t.
            of_result
              (fill_page (db.cmp changelog_name t) (db.entries changelog_name t) request origins
                (known_tail origins (record empty_response { remote_have = have })))
              t

  -- `open_changelog_ro`: whether the table exists.
  unfoldable pub open_changelog_ro : InTxn db Bool
  open_changelog_ro t = elim (db.dbi_open changelog_name 0 t) [
    | done t' ↦ ok (true, t')
    | failed not_found ↦ ok (false, t)
    | failed rc ↦ throw (mdbx_exception rc "SyncEngine: failed to open store '_mdbxc_changelog'")
  ]

  unfoldable pub handle_pull :
      (PullRequest → InTxn db PullResponse) → PullRequest → InTxn db PullResponse
  unfolding ◌>>=◌ pure refuse db_id_matches in_read_txn open_changelog_ro read_applied_cursor
      pull_changelog_page
  handle_pull handle_full_snapshot_pull request = do
    right ← db_id_matches db request.db_id
    if not right
        then pure (refuse db_id_mismatch empty_response)
        else if request.request_full_snapshot
        then handle_full_snapshot_pull request
        else in_read_txn db (do
          exists ← open_changelog_ro
          if exists then pull_changelog_page request else do
            have ← read_applied_cursor db
            pure (record empty_response { remote_have = have; remote_tail_known = true }))
