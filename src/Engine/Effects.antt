-- ===== src/Engine/Effects.antt =====
-- include/mdbx_containers/sync/engine/SyncEngine.hpp: what the parts of `apply_batch_ex` return, and the
-- record that an applied batch leaves in `AppliedStore`.
use mdbx_containers.Prelude.{
  ℕ, ◌≡◌, refl, sym, ap, ◌∙◌, Bool, false, not, List, [], ◌∷◌, ◌++◌, bytes_eq_refl, ok, arith,
  ReturnCode, All, ◌⊎◌, inl, inr,
}
use mdbx_containers.Stateful.{pure}
use mdbx_containers.Stateful.Laws.{bind-eq-ok, then-eq-ok, guard-eq-ok, pure-eq-ok}
use mdbx_containers.Bytes.{write_u64_le}
use mdbx_containers.NodeId.{NodeId}
use mdbx_containers.Mdbx.{Bytes, Mdbx, IsMdbx, InTxn, done, check_write}
use mdbx_containers.Mdbx.Ends.{Ends, Ends-bind, Ends-next, Ends-pure, Ends-if, Ends-option}
use mdbx_containers.Protocol.Batch.{ChangeOp, ChangeBatch}
use mdbx_containers.Stores.{Store, ensure_open, upsert}
use mdbx_containers.Stores.Applied
use mdbx_containers.Stores.VersionedDbi.{is_reserved_dbi_name}
use mdbx_containers.Engine.{
  ConflictPolicy, applied, conflict, ApplyOutcome, Checked, accepted, refused,
}
use mdbx_containers.Engine.Checks.{
  refusal, also, validate_versioned, BatchDbis, persistent_dbi_flags, collect_batch_dbi_flags,
  open_existing_user_dbi, read_existing_user_dbi_flags, preflight_batch_user_dbis, Existing, absent,
  present, mismatch,
}
use mdbx_containers.Engine.Apply.{
  commit_ops, claim_and_commit, claim_mode, preflight_and_commit, check_and_commit, open_index,
  apply_ops,
}

-- A check that fails fills in a conflict.
pub IsRefusal : {A : Type 0} → Checked A → Type 0
IsRefusal (accepted a) = Unit {0}
IsRefusal (refused o) = o.result ≡ conflict

pub also-IsRefusal :
    {A : Type 0} (a : A) (c : Checked (List A)) → IsRefusal c → IsRefusal (also a c)
unfolding IsRefusal
also-IsRefusal a (accepted l) h = tt
also-IsRefusal a (refused o) h = h

module _ {db : Mdbx} where
  pub validate_versioned-IsRefusal :
      (policy : ConflictPolicy) (registry : Store) (ops : List ChangeOp) (outcome : ApplyOutcome)
      → Ends db (λ c t. IsRefusal c) (validate_versioned db policy registry ops outcome)
  unfolding validate_versioned IsRefusal
  validate_versioned-IsRefusal policy registry [] outcome = Ends-pure _ (λ t. tt)
  validate_versioned-IsRefusal policy registry (op ∷ ops) outcome =
      Ends-next _ _ (λ (registry', versioned).
        Ends-option (refusal policy versioned op) _ _
          (Ends-bind IsRefusal _ _ (validate_versioned-IsRefusal policy registry' ops outcome)
            (λ rest h. Ends-pure _ (λ t. also-IsRefusal versioned rest h)))
          (λ reason. Ends-pure _ (λ t. refl)))

  Ends-refused :
      {A : Type 0} (o : ApplyOutcome)
      → o.result ≡ conflict
      → Ends db (λ c t. IsRefusal {A = A} c) (pure (refused o))
  unfolding IsRefusal
  Ends-refused o h = Ends-pure (refused o) (λ t. h)

  Ends-existing :
      {B : Type 0} {P : B → db.Txn → Type 0} (found : Existing) (a p : InTxn db B)
      (m : ReturnCode → InTxn db B)
      → Ends db P a
      → Ends db P p
      → ((rc : ReturnCode) → Ends db P (m rc))
      → Ends db P (elim found [ absent ↦ a | present ↦ p | mismatch rc ↦ m rc ])
  Ends-existing absent a p m ea ep em = ea
  Ends-existing present a p m ea ep em = ep
  Ends-existing (mismatch rc) a p m ea ep em = em rc

  pub preflight-IsRefusal :
      (dbis : BatchDbis) (outcome : ApplyOutcome)
      → Ends db (λ c t. IsRefusal c) (preflight_batch_user_dbis db dbis outcome)
  unfolding preflight_batch_user_dbis IsRefusal
  preflight-IsRefusal [] outcome = Ends-pure _ (λ t. tt)
  preflight-IsRefusal ((dbi, flags) ∷ dbis) outcome =
      Ends-next (open_existing_user_dbi db dbi flags) _ (λ found.
        Ends-existing found _ _ _ (preflight-IsRefusal dbis outcome)
          (Ends-bind IsRefusal _ _ (preflight-IsRefusal dbis outcome)
            (λ rest h. Ends-pure _ (λ t. also-IsRefusal dbi rest h)))
          (λ rc. Ends-next (read_existing_user_dbi_flags db dbi) _ (λ actual. Ends-refused _ refl)))

-- No operation is on a table of the library's own.
abbrev pub NoReserved : List ChangeOp → Type 0
NoReserved = All (λ op. is_reserved_dbi_name op.dbi_name ≡ false)

-- One step that goes on: the operation's table is new, or has been seen with the same flags.
collect-step :
    (db : Mdbx) (dbis found : BatchDbis) (op : ChangeOp) (ops : List ChangeOp)
    (outcome : ApplyOutcome)
    → collect_batch_dbi_flags db dbis (op ∷ ops) outcome ≡ accepted found
    → (is_reserved_dbi_name op.dbi_name ≡ false)
      × ((collect_batch_dbi_flags db
              (dbis ++ (op.dbi_name, persistent_dbi_flags db op.dbi_flags) ∷ [])
              ops
              outcome
            ≡ accepted found)
          ⊎ (collect_batch_dbi_flags db dbis ops outcome ≡ accepted found))
unfolding collect_batch_dbi_flags
collect-step db dbis found op ops outcome h = ground arith

pub collect-NoReserved :
    (db : Mdbx) (dbis found : BatchDbis) (ops : List ChangeOp) (outcome : ApplyOutcome)
    → collect_batch_dbi_flags db dbis ops outcome ≡ accepted found
    → NoReserved ops
collect-NoReserved db dbis found [] outcome h = tt
collect-NoReserved db dbis found (op ∷ ops) outcome h =
    let (free, rest) = collect-step db dbis found op ops outcome h in
    (
      free,
      elim rest [
        | inl next ↦
            collect-NoReserved db (dbis ++ (op.dbi_name, persistent_dbi_flags db op.dbi_flags) ∷ [])
              found ops outcome next
        | inr same ↦ collect-NoReserved db dbis found ops outcome same
      ],
    )

pub collect-refused :
    (db : Mdbx) (dbis : BatchDbis) (ops : List ChangeOp) (outcome o : ApplyOutcome)
    → collect_batch_dbi_flags db dbis ops outcome ≡ refused o
    → o.result ≡ conflict
unfolding collect_batch_dbi_flags
collect-refused db dbis [] outcome o h = cc
collect-refused db dbis (op ∷ ops) outcome o h =
    let flags = persistent_dbi_flags db op.dbi_flags in
    let next = collect-refused db (dbis ++ (op.dbi_name, flags) ∷ []) ops outcome o in
    let same = collect-refused db dbis ops outcome o in ground (arith, next, same)

-- `AppliedStore.set_last_applied_seq` leaves the number in the record of the origin.
pub set_last_applied_seq-stored :
    (db : Mdbx) (laws : IsMdbx db) (s : Store) (origin : NodeId) (seq : ℕ) (t t' : db.Txn)
    → Applied.set_last_applied_seq db s origin seq t ≡ ok (tt, t')
    → db.get s.dbi_name origin t' ≡ done (write_u64_le seq)
unfolding Applied.set_last_applied_seq ensure_open upsert check_write
set_last_applied_seq-stored db laws s origin seq t t' h =
    let (is_open, k) = guard-eq-ok (not s.is_open) _ _ t h in
    ground (
      arith,
      laws.get-put s.dbi_name origin (write_u64_le seq) t t' s.dbi_name origin,
      bytes_eq_refl s.dbi_name,
      bytes_eq_refl origin,
    )

-- What an applied batch leaves: its number as the last one of its origin, in the outcome and in the store.
pub record IsCommitted (db : Mdbx) (s : Store) (batch : ChangeBatch) (o : ApplyOutcome) (t : db.Txn)
    : Type 0 where
  pub recorded : db.get s.dbi_name batch.origin_node_id t ≡ done (write_u64_le batch.seq)
  pub is_applied : o.result ≡ applied
  pub last_is_seq : o.last_applied_seq ≡ batch.seq
  pub no_reserved : NoReserved batch.ops

module _ {db : Mdbx} (laws : IsMdbx db) (meta s : Store) (batch : ChangeBatch) where
  commit_ops-IsCommitted :
      (versioned : List Bool) (cache : List Bytes) (outcome : ApplyOutcome)
      → NoReserved batch.ops
      → Ends db (IsCommitted db s batch) (commit_ops db s batch versioned cache outcome)
  unfolding commit_ops
  commit_ops-IsCommitted versioned cache outcome free = record {
    run = λ t {a = o} {t'} h.
        let (index, t1, e1, h1) = bind-eq-ok (open_index db versioned) _ t h in
        let (t2, e2, h2) = then-eq-ok (apply_ops db batch.ops versioned _ _ index cache) _ t1 h1 in
        let (t3, e3, h3) = then-eq-ok (Applied.set_last_applied_seq db s _ _) (pure _) t2 h2 in
        let (same_o, same_t) = pure-eq-ok _ o t3 h3 in
        record {
          recorded = cc (set_last_applied_seq-stored db laws s _ _ t2 t3 e3, same_t);
          is_applied = ap (λ x. x.result) (sym same_o);
          last_is_seq = ap (λ x. x.last_applied_seq) (sym same_o);
          no_reserved = free;
        };
  }

  -- Behind the test of the number a batch is in conflict or applied.
  abbrev pub Outcome : ApplyOutcome → db.Txn → Type 0
  Outcome o t = (o.result ≡ conflict) ⊎ IsCommitted db s batch o t

  Outcome-conflict : (o : ApplyOutcome) → o.result ≡ conflict → Ends db Outcome (pure o)
  Outcome-conflict o h = Ends-pure o (λ t. inl h)

  Outcome-checked :
      {A : Type 0} (c : Checked A) (f : A → InTxn db ApplyOutcome)
      → ((o : ApplyOutcome) → c ≡ refused o → o.result ≡ conflict)
      → ((a : A) → c ≡ accepted a → Ends db Outcome (f a))
      → Ends db Outcome (elim c [ refused o ↦ pure o | accepted a ↦ f a ])
  Outcome-checked (refused o) f r ef = Outcome-conflict o (r o refl)
  Outcome-checked (accepted a) f r ef = ef a refl

  claim_and_commit-Outcome :
      (versioned : List Bool) (cache : List Bytes) (outcome : ApplyOutcome)
      → NoReserved batch.ops
      → Ends db Outcome (claim_and_commit db meta s batch versioned cache outcome)
  unfolding claim_and_commit
  claim_and_commit-Outcome versioned cache outcome free =
      Ends-next (claim_mode db meta) _ (λ claimed.
        Ends-if claimed _ _
          (record {
            run = λ t h. inr ((commit_ops-IsCommitted versioned cache outcome free).run t h);
          })
          (Outcome-conflict _ refl))

  IsRefusal-conflict :
      {A : Type 0} (c : Checked A)
      → IsRefusal c
      → (o : ApplyOutcome) → c ≡ refused o
      → o.result ≡ conflict
  unfolding IsRefusal
  IsRefusal-conflict (accepted a) h o e = cc
  IsRefusal-conflict (refused x) h o e =
      let same : x ≡ o = ground arith in ap (λ o. o.result) (sym same) ∙ h

  preflight_and_commit-Outcome :
      (versioned : List Bool) (outcome : ApplyOutcome)
      → Ends db Outcome (preflight_and_commit db meta s batch versioned outcome)
  unfolding preflight_and_commit
  preflight_and_commit-Outcome versioned outcome =
      Outcome-checked (collect_batch_dbi_flags db [] batch.ops outcome) _
        (collect-refused db [] batch.ops outcome)
        (λ dbis e. Ends-bind IsRefusal _ _ (preflight-IsRefusal dbis outcome) (λ found h.
          Outcome-checked found _ (IsRefusal-conflict found h) (λ cache e'.
            claim_and_commit-Outcome versioned cache outcome
              (collect-NoReserved db [] dbis batch.ops outcome e))))

  pub check_and_commit-Outcome :
      (policy : ConflictPolicy) (outcome : ApplyOutcome)
      → Ends db Outcome (check_and_commit db policy meta s batch outcome)
  unfolding check_and_commit
  check_and_commit-Outcome policy outcome =
      Ends-bind IsRefusal _ _ (validate_versioned-IsRefusal policy _ batch.ops outcome)
        (λ checked h.
          Outcome-checked checked _ (IsRefusal-conflict checked h)
            (λ versioned e. preflight_and_commit-Outcome versioned outcome))
