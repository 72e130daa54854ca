-- ===== src/Engine/PushLaws.antt =====
-- include/mdbx_containers/sync/engine/SyncEngine.hpp: `handle_push` is all or nothing.
use mdbx_containers.Prelude.{
  ◌≤◌, ◌≡◌, ◌≢◌, refl, sym, ap, ◌∙◌, subst, Bool, true, false, not, List, [], ◌∷◌, ok, throw,
  Result, arith, All, ◌⊎◌, inl, inr, if◌then◌else◌,
}
use mdbx_containers.Bytes.{IsU64}
use mdbx_containers.Stateful.{◌>>=◌, pure}
use mdbx_containers.Stateful.Laws.{bind-eq-ok, pure-eq-ok}
use mdbx_containers.NodeId.{NodeId, is_same, compare_node_id, make_zero_node}
use mdbx_containers.Mdbx.{Mdbx, IsMdbx, InTxn}
use mdbx_containers.Protocol.Batch.{ChangeBatch}
use mdbx_containers.Stores.Meta
use mdbx_containers.Engine.{ConflictPolicy, ApplyResult, applied, skipped, conflict, ApplyOutcome}
use mdbx_containers.Engine.Apply.{apply_batch_ex}
use mdbx_containers.Engine.Cursor.{cursor}
use mdbx_containers.Engine.Monotone.{apply_batch_ex-monotone}
use mdbx_containers.Engine.Push.{
  PushRequest, PushResponse, SyncResponseErrorCode, db_id_mismatch, apply_conflict, no_error,
  Notice, no_notice, Pushed, finished, stopped, in_read_txn, db_uuid, db_id_matches,
  read_applied_cursor, applied_cursor, apply_batches, respond, push_batches, handle_push,
  count_batch, is_conflict, is_sequence_gap,
}

module _ (db : Mdbx) where
  pub in_read_txn-same :
      {A : Type 0} (m : InTxn db A) (t t' : db.Txn) (a : A)
      → in_read_txn db m t ≡ ok (a, t')
      → t' ≡ t
  unfolding in_read_txn
  in_read_txn-same m t t' a h = ground arith

  own_id-same :
      (id : NodeId) (t t' : db.Txn) (b : Bool)
      → (db_uuid db >>= λ own. pure (is_same (compare_node_id id own))) t ≡ ok (b, t')
      → t' ≡ t
  unfolding db_uuid
  own_id-same id t t' b h =
      let (own, t1, e, j) =
        bind-eq-ok (db_uuid db) (λ own. pure (is_same (compare_node_id id own))) t h in
      sym (pure-eq-ok _ b t1 j).1
      ∙ in_read_txn-same (Meta.open_store db Meta.make >>= λ meta. Meta.get_db_uuid db meta) t t1
          own e

  if-same :
      {A : Type 0} (b : Bool) (m f : InTxn db A) (t t' : db.Txn) (a : A)
      → (m t ≡ ok (a, t') → t' ≡ t)
      → (f t ≡ ok (a, t') → t' ≡ t)
      → (if b then m else f) t ≡ ok (a, t')
      → t' ≡ t
  if-same true m f t t' a hm hf = hm
  if-same false m f t t' a hm hf = hf

  pub db_id_matches-same :
      (id : NodeId) (t t' : db.Txn) (b : Bool) → db_id_matches db id t ≡ ok (b, t') → t' ≡ t
  unfolding db_id_matches
  db_id_matches-same id t t' b =
      if-same (is_same (compare_node_id id make_zero_node)) _ _ t t' b
        (λ h. sym (pure-eq-ok false b t h).1) (own_id-same id t t' b)

  respond-same :
      (is_ok : Bool) (code : SyncResponseErrorCode) (retry : Bool) (notice : Notice) (t t' : db.Txn)
      (response : PushResponse) (told : Notice)
      → respond db is_ok code retry notice t ≡ ok ((response, told), t')
      → (t' ≡ t) × (response.is_ok ≡ is_ok) × (told ≡ notice)
  unfolding respond applied_cursor
  respond-same is_ok code retry notice t t' response told h =
      let (have, t1, e, j) = bind-eq-ok (applied_cursor db) _ t h in
      let (same, end) = pure-eq-ok _ (response, told) t1 j in
      (
        sym end ∙ in_read_txn-same (read_applied_cursor db) t t1 have e,
        ap (λ p. p.0.is_ok) (sym same),
        ap (λ p. p.1) (sym same),
      )

-- The batches are applied or skipped one after the other, none of them in conflict.
pub data Applies (db : Mdbx) (policy : ConflictPolicy)
    : List ChangeBatch → db.Txn → db.Txn → Type 0 where
  none_left : (t : db.Txn) → Applies db policy [] t t
  next :
      (batch : ChangeBatch) (batches : List ChangeBatch) (outcome : ApplyOutcome) (t u t' : db.Txn)
      → apply_batch_ex db policy batch t ≡ ok (outcome, u)
      → outcome.result ≢ conflict
      → Applies db policy batches u t'
      → Applies db policy (batch ∷ batches) t t'

module _ (db : Mdbx) (policy : ConflictPolicy) where
  continues :
      (r : ApplyResult) (o : ApplyOutcome) (m : InTxn db Pushed) (u t' : db.Txn) (last : Notice)
      → (if is_conflict r then pure (stopped o) else m) u ≡ ok (finished last, t')
      → (r ≢ conflict) × (m u ≡ ok (finished last, t'))
  continues applied o m u t' last h = (λ e. cc, h)
  continues skipped o m u t' last h = (λ e. cc, h)
  continues conflict o m u t' last h = absurd (cc (pure-eq-ok (stopped o) (finished last) u h).0)

  apply_batches-Applies :
      (batches : List ChangeBatch) (notice last : Notice) (t t' : db.Txn)
      → apply_batches db policy batches notice t ≡ ok (finished last, t')
      → Applies db policy batches t t'
  unfolding apply_batches
  apply_batches-Applies [] notice last t t' h =
      subst (λ u. Applies db policy [] t u) (pure-eq-ok (finished notice) (finished last) t h).1
        (none_left t)
  apply_batches-Applies (batch ∷ batches) notice last t t' h =
      let (outcome, u, e, j) = bind-eq-ok (apply_batch_ex db policy batch) _ t h in
      let (free, k) = continues outcome.result outcome _ u t' last j in
      next batch batches outcome t u t' e free
        (apply_batches-Applies batches (count_batch notice outcome.result batch) last u t' k)

  -- How `push_batches` ends: with the batches applied, or with the state that it was given.
  push_batches-ends :
      (batches : List ChangeBatch) (t t' : db.Txn) (response : PushResponse) (told : Notice)
      → push_batches db policy batches t ≡ ok ((response, told), t')
      → ((response.is_ok ≡ true) × Applies db policy batches t t')
        ⊎ ((response.is_ok ≡ false) × (told ≡ no_notice) × (t' ≡ t))
  unfolding push_batches
  push_batches-ends batches t t' response told h =
      by_loop (apply_batches db policy batches no_notice t) refl h
    where
      by_loop :
          (r : Result (Pushed × db.Txn))
          → apply_batches db policy batches no_notice t ≡ r
          → (elim r [
            | ok (finished notice, u) ↦ respond db true no_error false notice u
            | ok (stopped o, u) ↦
                respond db false apply_conflict (is_sequence_gap o.conflict_reason) no_notice t
            | throw e ↦ throw e
          ])
            ≡ ok ((response, told), t')
          → ((response.is_ok ≡ true) × Applies db policy batches t t')
            ⊎ ((response.is_ok ≡ false) × (told ≡ no_notice) × (t' ≡ t))
      by_loop (ok (finished notice, u)) e k =
          let (same, positive, notices) =
            respond-same db true no_error false notice u t' response told k in
          inl (
            positive,
            subst (λ v. Applies db policy batches t v) (sym same)
                (apply_batches-Applies batches no_notice notice t u e),
          )
      by_loop (ok (stopped o, u)) e k =
          let (same, negative, notices) =
            respond-same db false apply_conflict (is_sequence_gap o.conflict_reason) no_notice t t'
              response told k in
          inr (negative, notices, same)
      by_loop (throw x) e k = cc

-- `handle_push` is all or nothing. If its response is positive, what is committed is the result of applying
-- or skipping all batches of the request in their order, each by `apply_batch_ex`. If it is negative, the
-- database is what it was before, and the observers are told of no batch.
pub handle_push-all_or_nothing :
    (db : Mdbx) (policy : ConflictPolicy) (request : PushRequest) (t t' : db.Txn)
    (response : PushResponse) (told : Notice)
    → handle_push db policy request t ≡ ok ((response, told), t')
    → ((response.is_ok ≡ true) × Applies db policy request.batches t t')
      ⊎ ((response.is_ok ≡ false) × (told ≡ no_notice) × (t' ≡ t))
unfolding handle_push
handle_push-all_or_nothing db policy request t t' response told h =
    let (matches, u, e, j) = bind-eq-ok (db_id_matches db request.db_id) _ t h in
    let start = db_id_matches-same db request.db_id t u matches e in
    subst
      (λ v.
        ((response.is_ok ≡ true) × Applies db policy request.batches v t')
        ⊎ ((response.is_ok ≡ false) × (told ≡ no_notice) × (t' ≡ v)))
      start (by_match matches u j)
  where
    by_match :
        (b : Bool) (u : db.Txn)
        → (if not b
              then respond db false db_id_mismatch false no_notice
              else push_batches db policy request.batches)
            u
          ≡ ok ((response, told), t')
        → ((response.is_ok ≡ true) × Applies db policy request.batches u t')
          ⊎ ((response.is_ok ≡ false) × (told ≡ no_notice) × (t' ≡ u))
    by_match true u j = push_batches-ends db policy request.batches u t' response told j
    by_match false u j =
        let (same, negative, notices) =
          respond-same db false db_id_mismatch false no_notice u t' response told j in
        inr (negative, notices, same)

Applies-monotone :
    (db : Mdbx) (laws : IsMdbx db) (policy : ConflictPolicy) (origin : NodeId)
    (batches : List ChangeBatch) (t t' : db.Txn)
    → Applies db policy batches t t'
    → All (λ batch. IsU64 batch.seq) batches
    → cursor db origin t ≤ cursor db origin t'
Applies-monotone db laws policy origin _ t t' (none_left _) bounded = omega arith
Applies-monotone db laws policy origin _ t t' (next batch batches outcome _ u _ h free rest)
      (here, there) =
    let (first, stays) = apply_batch_ex-monotone db laws policy batch t u outcome origin h here in
    let last = Applies-monotone db laws policy origin batches u t' rest there in
    omega (arith, first, last)

-- Whatever `handle_push` answers, it sets the cursor of no origin back, if the numbers of the batches fit 64
-- bits.
pub handle_push-monotone :
    (db : Mdbx) (laws : IsMdbx db) (policy : ConflictPolicy) (request : PushRequest) (t t' : db.Txn)
    (response : PushResponse) (told : Notice) (origin : NodeId)
    → handle_push db policy request t ≡ ok ((response, told), t')
    → All (λ batch. IsU64 batch.seq) request.batches
    → cursor db origin t ≤ cursor db origin t'
handle_push-monotone db laws policy request t t' response told origin h bounded =
    elim (handle_push-all_or_nothing db policy request t t' response told h) [
      | inl (positive, applies) ↦
          Applies-monotone db laws policy origin request.batches t t' applies bounded
      | inr (negative, quiet, same) ↦ omega (arith, ap (λ u. cursor db origin u) same)
    ]
