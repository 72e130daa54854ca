-- ===== src/Engine/Refusals.antt =====
-- include/mdbx_containers/sync/engine/SyncEngine.hpp: `apply_batch_ex` where the batch is not applied.
use mdbx_containers.Prelude.{
  ◌+◌, ◌%◌, ◌^◌, leb, ◌==◌, ◌≡◌, ◌≢◌, refl, sym, ap, ◌∙◌, Bool, true, false, not, List, [], ok,
  if◌then◌else◌,
}
use mdbx_containers.Stateful.{◌>>=◌, pure}
use mdbx_containers.Stateful.Laws.{bind-eq-ok, then-eq-ok, pure-eq-ok}
use mdbx_containers.NodeId.{is_zero_sync_id}
use mdbx_containers.Mdbx.{Bytes, Mdbx, IsMdbx, InTxn}
use mdbx_containers.Mdbx.Keeps.{Keeps, Keeps-bind, Keeps-pure, Keeps-if}
use mdbx_containers.Protocol.Batch.{ChangeBatch}
use mdbx_containers.Stores.{Store}
use mdbx_containers.Stores.Applied.{set_last_applied_seq}
use mdbx_containers.Stores.Keeps.{
  Keeps-meta_open, Keeps-applied_open, Keeps-get_node_id, Keeps-get_db_uuid, Keeps-last_applied_seq,
  Keeps-mode_open, Keeps-claim_refused,
}
use mdbx_containers.Engine.{
  ConflictPolicy, applied, skipped, conflict, ApplyOutcome, Checked, accepted, refused,
  sequence_gap,
}
use mdbx_containers.Engine.Checks.{collect_batch_dbi_flags}
use mdbx_containers.Engine.Operations.{Cache}
use mdbx_containers.Engine.Apply.{
  apply_batch_ex, check_order, check_and_commit, preflight_and_commit, claim_and_commit, claim_mode,
  commit_ops, open_index, apply_ops,
}
use mdbx_containers.Engine.Keeps.{Keeps-validate_versioned, Keeps-preflight}

abbrev NotApplied : ApplyOutcome → Type 0
NotApplied o = o.result ≢ applied

module _ (db : Mdbx) where
  pub commit_ops-result :
      (applied_store : Store) (batch : ChangeBatch) (versioned : List Bool) (cache : Cache)
      (outcome : ApplyOutcome) (t : db.Txn) {o : ApplyOutcome} {t' : db.Txn}
      → commit_ops db applied_store batch versioned cache outcome t ≡ ok (o, t')
      → o.result ≡ applied
  unfolding commit_ops
  commit_ops-result applied_store batch versioned cache outcome t {o} h =
      let (index, t1, e1, h1) = bind-eq-ok (open_index db versioned) _ t h in
      let (t2, e2, h2) = then-eq-ok (apply_ops db batch.ops versioned _ _ index cache) _ t1 h1 in
      let (t3, e3, h3) = then-eq-ok (set_last_applied_seq db applied_store _ _) (pure _) t2 h2 in
      ap (λ o. o.result) (sym (pure-eq-ok _ o t3 h3).0)

module _ {db : Mdbx} {n k : Bytes} (laws : IsMdbx db) where
  Keeps-claim_mode_refused :
      (meta : Store) → Keeps db n k (λ claimed. claimed ≡ false) (claim_mode db meta)
  unfolding claim_mode
  Keeps-claim_mode_refused meta = Keeps-bind _ _ (Keeps-get_db_uuid meta) (λ id.
      Keeps-if (is_zero_sync_id id) _ _ (Keeps-pure true)
        (Keeps-bind _ _ (Keeps-mode_open laws _) (λ s. Keeps-claim_refused s id)))

  -- Where the first branch never ends in a result of `Q`, only a false test matters.
  Keeps-if_false :
      {B : Type 0} {Q : B → Type 0} (m : InTxn db Bool) (f g : InTxn db B)
      → Keeps db n k (λ b. b ≡ false) m
      → ((t : db.Txn) (b : B) (t' : db.Txn) → f t ≡ ok (b, t') → Q b → ⊥)
      → Keeps db n k Q g
      → Keeps db n k Q (m >>= λ c. if c then f else g)
  Keeps-if_false {B} {Q} m f g km never kg = record {
    run = λ t h q. let (c, t1, e, j) = bind-eq-ok m _ t h in by_test c t1 e j q;
  }
    where
      by_test :
          (c : Bool) {t t' : db.Txn} {b : B} (t1 : db.Txn)
          → m t ≡ ok (c, t1)
          → (if c then f else g) t1 ≡ ok (b, t')
          → Q b
          → db.get n k t' ≡ db.get n k t
      by_test true t1 e j q = absurd (never t1 _ _ j q)
      by_test false t1 e j q = kg.run t1 j q ∙ km.run _ e refl

  module _ (meta applied_store : Store) (batch : ChangeBatch) where
    Keeps-claim_and_commit :
        (versioned : List Bool) (cache : Cache) (outcome : ApplyOutcome)
        → Keeps db n k NotApplied
            (claim_and_commit db meta applied_store batch versioned cache outcome)
    unfolding claim_and_commit
    Keeps-claim_and_commit versioned cache outcome =
        Keeps-if_false (claim_mode db meta) _ _ (Keeps-claim_mode_refused meta)
          (λ t o t' h q. q (commit_ops-result db applied_store batch versioned cache outcome t h))
          (Keeps-pure _)

    Keeps-checked :
        {A : Type 0} (c : Checked A) (f : A → InTxn db ApplyOutcome)
        → ((a : A) → Keeps db n k NotApplied (f a))
        → Keeps db n k NotApplied (elim c [ refused o ↦ pure o | accepted a ↦ f a ])
    Keeps-checked (refused o) f kf = Keeps-pure o
    Keeps-checked (accepted a) f kf = kf a

    Keeps-preflight_and_commit :
        (versioned : List Bool) (outcome : ApplyOutcome)
        → Keeps db n k NotApplied
            (preflight_and_commit db meta applied_store batch versioned outcome)
    unfolding preflight_and_commit
    Keeps-preflight_and_commit versioned outcome =
        Keeps-checked (collect_batch_dbi_flags db [] batch.ops outcome) _ (λ dbis.
          Keeps-bind _ _ (Keeps-preflight laws dbis outcome) (λ found.
            Keeps-checked found _ (λ cache. Keeps-claim_and_commit versioned cache outcome)))

    Keeps-check_and_commit :
        (policy : ConflictPolicy) (outcome : ApplyOutcome)
        → Keeps db n k NotApplied (check_and_commit db policy meta applied_store batch outcome)
    unfolding check_and_commit
    Keeps-check_and_commit policy outcome =
        Keeps-bind _ _ (Keeps-validate_versioned laws policy _ batch.ops outcome) (λ checked.
          Keeps-checked checked _ (λ versioned. Keeps-preflight_and_commit versioned outcome))

    Keeps-check_order :
        (policy : ConflictPolicy) (outcome : ApplyOutcome)
        → Keeps db n k NotApplied (check_order db policy meta applied_store batch outcome)
    unfolding check_order
    Keeps-check_order policy outcome =
        Keeps-if (leb batch.seq outcome.last_applied_seq) _ _
          (Keeps-pure (record outcome { result = skipped }))
          (Keeps-if (not (batch.seq == (outcome.last_applied_seq + 1) % 2 ^ 64)) _ _
            (Keeps-pure (record outcome { result = conflict; conflict_reason = sequence_gap }))
            (Keeps-check_and_commit policy outcome))

  Keeps-apply_batch_ex :
      (policy : ConflictPolicy) (batch : ChangeBatch)
      → Keeps db n k NotApplied (apply_batch_ex db policy batch)
  unfolding apply_batch_ex
  Keeps-apply_batch_ex policy batch = Keeps-bind _ _ (Keeps-meta_open laws _) (λ meta.
      Keeps-bind _ _ (Keeps-applied_open laws _) (λ applied_store.
        Keeps-bind _ _ (Keeps-get_node_id meta) (λ local_node. Keeps-if _ _ _ (Keeps-pure _) (
          Keeps-bind _ _ (Keeps-last_applied_seq applied_store _)
            (λ last. Keeps-check_order meta applied_store batch policy _)))))

-- A batch that `apply_batch_ex` skips or finds in conflict changes no record of any table: each key of each
-- table has afterwards what it had before.
pub apply_batch_ex-refused :
    (db : Mdbx) (laws : IsMdbx db) (policy : ConflictPolicy) (batch : ChangeBatch) (t t' : db.Txn)
    (outcome : ApplyOutcome) (table key : Bytes)
    → apply_batch_ex db policy batch t ≡ ok (outcome, t')
    → outcome.result ≢ applied
    → db.get table key t' ≡ db.get table key t
apply_batch_ex-refused db laws policy batch t t' outcome table key h not_applied =
    (Keeps-apply_batch_ex laws policy batch).run t h not_applied
