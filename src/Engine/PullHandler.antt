-- ===== src/Engine/PullHandler.antt =====
-- include/mdbx_containers/sync/engine/SyncEngine.hpp: the bound of a pull.
use mdbx_containers.Prelude.{
  ◌≤◌, ◌≡◌, refl, sym, ap, ◌∙◌, subst, Bool, true, false, not, List, [], ok, throw, Result, arith,
  length, if◌then◌else◌, Bool-cases, inl, inr,
}
use mdbx_containers.Mdbx.{Mdbx}
use mdbx_containers.Engine.Pull.{PullRequest, PullResponse, PullOrigin, refuse}
use mdbx_containers.Engine.PullPage.{fill_page, pull_changelog_page}
use mdbx_containers.Engine.PullAnswers.{fill_page-bounded}
use mdbx_containers.Engine.PushLaws.{in_read_txn-same, db_id_matches-same}
use mdbx_containers.Engine.Push.{
  unsupported_full_snapshot, SyncCursor, in_read_txn, db_id_matches, read_applied_cursor,
  db_id_mismatch,
}
use mdbx_containers.Mdbx.{InTxn}
use mdbx_containers.Stateful.{◌>>=◌, pure}
use mdbx_containers.Stateful.Laws.{bind-eq-ok, pure-eq-ok}
use mdbx_containers.Engine.Pull.{empty_response}
use mdbx_containers.Engine.PullPage.{
  of_result, collect_known_origins, known_tail, changelog_name, open_changelog_ro, handle_pull,
}

module _ (db : Mdbx) where
  of_result-eq-ok :
      {A : Type 0} (r : Result A) (t t' : db.Txn) (a : A) → of_result db r t ≡ ok (a, t') → r ≡ ok a
  unfolding of_result
  of_result-eq-ok (ok b) t t' a h = ground arith
  of_result-eq-ok (throw e) t t' a h = cc

  abbrev page_of : PullRequest → SyncCursor → List PullOrigin → InTxn db PullResponse
  page_of request have origins t =
      of_result db
        (fill_page (db.cmp changelog_name t) (db.entries changelog_name t) request origins
          (known_tail db origins (record empty_response { remote_have = have })))
        t

  abbrev incremental : PullRequest → InTxn db PullResponse
  incremental request =
      read_applied_cursor db
      >>= (λ have. collect_known_origins db >>= (λ origins. page_of request have origins))

  incremental-bounded :
      (request : PullRequest) (t t' : db.Txn) (response : PullResponse)
      → incremental request t ≡ ok (response, t')
      → length response.batches ≤ request.max_batches
  incremental-bounded request t t' response h =
      let (have, u, e, j) =
        bind-eq-ok (read_applied_cursor db)
          (λ have. collect_known_origins db >>= (λ origins. page_of request have origins)) t h in
      let (origins, w, f, i) =
        bind-eq-ok (collect_known_origins db) (λ origins. page_of request have origins) u j in
      fill_page-bounded (db.cmp changelog_name w) (db.entries changelog_name w) request origins
        (known_tail db origins (record empty_response { remote_have = have })) response
        (of_result-eq-ok _ w t' response i)

  pull_changelog_page-bounded :
      (request : PullRequest) (t t' : db.Txn) (response : PullResponse)
      → pull_changelog_page db request t ≡ ok (response, t')
      → length response.batches ≤ request.max_batches
  unfolding pull_changelog_page refuse
  pull_changelog_page-bounded request t t' response h =
      elim (Bool-cases request.request_full_snapshot) [
        | inl full ↦
            let refused : response.batches ≡ [] = ground arith in omega (arith, ap length refused)
        | inr changes ↦ incremental-bounded request t t' response (
            subst
              (λ b.
                (if b
                    then pure (refuse unsupported_full_snapshot empty_response)
                    else incremental request)
                  t
                ≡ ok (response, t'))
              changes h)
      ]

  in_read_txn-inner :
      {A : Type 0} (m : InTxn db A) (t t' : db.Txn) (a : A)
      → in_read_txn db m t ≡ ok (a, t')
      → (u : db.Txn) × (m t ≡ ok (a, u))
  unfolding in_read_txn
  in_read_txn-inner {A = A} m t t' a h = go (m t) refl
    where
      go : (r : Result (A × db.Txn)) → m t ≡ r → (u : db.Txn) × (m t ≡ ok (a, u))
      go (throw e) er = absurd (ground arith)
      go (ok (b, u)) er = (u, ground arith)

  -- The answer where there is no changelog.
  abbrev without_changelog : InTxn db PullResponse
  without_changelog =
      read_applied_cursor db
      >>= (λ have. pure (record empty_response { remote_have = have; remote_tail_known = true }))

  unfoldable page_if : PullRequest → Bool → InTxn db PullResponse
  page_if request exists = if exists then pull_changelog_page db request else without_changelog

  page_if-bounded :
      (request : PullRequest) (exists : Bool) (t t' : db.Txn) (response : PullResponse)
      → page_if request exists t ≡ ok (response, t')
      → length response.batches ≤ request.max_batches
  unfolding page_if
  page_if-bounded request true t t' response h = pull_changelog_page-bounded request t t' response h
  page_if-bounded request false t t' response h =
      let (have, u, e, j) =
        bind-eq-ok (read_applied_cursor db)
          (λ have. pure (record empty_response { remote_have = have; remote_tail_known = true })) t
          h in
      let (same, end) =
        pure-eq-ok (record empty_response { remote_have = have; remote_tail_known = true }) response
          u j in
      omega (arith, ap (λ r. length r.batches) same)

  unfoldable answer :
      (PullRequest → InTxn db PullResponse) → PullRequest → Bool → InTxn db PullResponse
  unfolding page_if
  answer handle_full_snapshot_pull request right =
      if not right
      then pure (refuse db_id_mismatch empty_response)
      else if request.request_full_snapshot
      then handle_full_snapshot_pull request
      else in_read_txn db (open_changelog_ro db >>= page_if request)

  answer-bounded :
      (handle_full_snapshot_pull : PullRequest → InTxn db PullResponse) (request : PullRequest)
      (right : Bool) (t t' : db.Txn) (response : PullResponse)
      → request.request_full_snapshot ≡ false
      → answer handle_full_snapshot_pull request right t ≡ ok (response, t')
      → (t' ≡ t) × (length response.batches ≤ request.max_batches)
  unfolding answer refuse
  answer-bounded handle_full_snapshot_pull request false t t' response changes h =
      let (same, end) = pure-eq-ok (refuse db_id_mismatch empty_response) response t h in
      (sym end, omega (arith, ap (λ r. length r.batches) same))
  answer-bounded handle_full_snapshot_pull request true t t' response changes h =
      let k : in_read_txn db (open_changelog_ro db >>= page_if request) t ≡ ok (response, t') =
        subst
          (λ b.
            (if b
                then handle_full_snapshot_pull request
                else in_read_txn db (open_changelog_ro db >>= page_if request))
              t
            ≡ ok (response, t'))
          changes h in
      let (u, e) = in_read_txn-inner (open_changelog_ro db >>= page_if request) t t' response k in
      let (exists, w, f, j) = bind-eq-ok (open_changelog_ro db) (page_if request) t e in
      (
        in_read_txn-same db (open_changelog_ro db >>= page_if request) t t' response k,
        page_if-bounded request exists w u response j,
      )

  -- A pull of changes, when it returns, leaves the database as it was and answers with at most as many batches as
  -- the request allows.
  pub handle_pull-bounded :
      (handle_full_snapshot_pull : PullRequest → InTxn db PullResponse) (request : PullRequest)
      (t t' : db.Txn) (response : PullResponse)
      → request.request_full_snapshot ≡ false
      → handle_pull db handle_full_snapshot_pull request t ≡ ok (response, t')
      → (t' ≡ t) × (length response.batches ≤ request.max_batches)
  unfolding handle_pull answer page_if
  handle_pull-bounded handle_full_snapshot_pull request t t' response changes h =
      let (right, t1, e, j) =
        bind-eq-ok (db_id_matches db request.db_id) (answer handle_full_snapshot_pull request) t
          h in
      let (same, bound) =
        answer-bounded handle_full_snapshot_pull request right t1 t' response changes j in
      (same ∙ db_id_matches-same db request.db_id t t1 right e, bound)
