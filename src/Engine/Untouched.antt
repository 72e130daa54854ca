-- ===== src/Engine/Untouched.antt =====
-- include/mdbx_containers/sync/engine/SyncEngine.hpp: the records that `apply_batch_ex` does not change,
-- whatever its outcome is.
use mdbx_containers.Prelude.{
  ◌+◌, ◌%◌, ◌^◌, leb, ◌==◌, ◌≡◌, refl, sym, ap, ◌∙◌, subst, Bool, true, false, not, ◌&&◌, List, [],
  bytes_eq, ok, arith, All, String,
}
use mdbx_containers.Stateful.{◌>>=◌, pure}
use mdbx_containers.Stateful.Laws.{bind-eq-ok, then-eq-ok, pure-eq-ok}
use mdbx_containers.NodeId.{is_zero_sync_id}
use mdbx_containers.Mdbx.{Bytes, Mdbx, IsMdbx, InTxn, c_str}
use mdbx_containers.Mdbx.Keeps.{Keeps, Always, Keeps-bind, Keeps-then, Keeps-pure, Keeps-if}
use mdbx_containers.Mdbx.Ends.{Ends, Ends-if, Ends-pure}
use mdbx_containers.Protocol.Batch.{ChangeBatch}
use mdbx_containers.Stores
use mdbx_containers.Stores.{Store, opened, open_table}
use mdbx_containers.Stores.Applied
use mdbx_containers.Stores.Applied.{applied_name}
use mdbx_containers.Stores.IdentityIndex
use mdbx_containers.Stores.ReceiverMode
use mdbx_containers.Stores.Keeps.{
  Keeps-meta_open, Keeps-applied_open, Keeps-get_node_id, Keeps-get_db_uuid, Keeps-last_applied_seq,
  Keeps-mode_open, Keeps-claim, Keeps-index_open, Keeps-set_last_applied_seq,
}
use mdbx_containers.Engine.{
  ConflictPolicy, skipped, conflict, sequence_gap, ApplyOutcome, Checked, accepted, refused,
}
use mdbx_containers.Engine.Checks.{collect_batch_dbi_flags}
use mdbx_containers.Engine.Apply.{
  apply_batch_ex, check_order, check_and_commit, preflight_and_commit, claim_and_commit, claim_mode,
  commit_ops, open_index, any_true,
}
use mdbx_containers.Engine.Keeps.{Keeps-validate_versioned, Keeps-preflight, Keeps-apply_ops}

-- The batch has nothing to do with the key `k` of the table `n`: no operation opens the table, which is
-- neither the index nor the table of the receiver's mode, and the record is not the cursor of the origin.
pub record IsElsewhere (batch : ChangeBatch) (n k : Bytes) : Type 0 where
  pub no_op : All (λ op. bytes_eq (c_str op.dbi_name) n ≡ false) batch.ops
  pub no_index : bytes_eq IdentityIndex.make.dbi_name n ≡ false
  pub no_mode : bytes_eq ReceiverMode.make.dbi_name n ≡ false
  pub no_cursor : (bytes_eq applied_name n && bytes_eq batch.origin_node_id k) ≡ false

-- A store stays on its table when it is opened.
On : Bytes → Store → Type 0
On table s = s.dbi_name ≡ table

module _ {db : Mdbx} where
  applied_open-On : Ends db (λ s t. On applied_name s) (Applied.open_store db Applied.make)
  unfolding On Applied.open_store
  applied_open-On = record {
    run = λ t {a} h.
        let (t1, e, j) = then-eq-ok (open_table db _ _ _) (pure (opened Applied.make)) t h in
        ap (λ s. s.dbi_name) (sym (pure-eq-ok _ a t1 j).0);
  }

  index_opened-On :
      Ends db
        (λ s t. On IdentityIndex.make.dbi_name s)
        (IdentityIndex.open_store db IdentityIndex.make)
  unfolding On IdentityIndex.open_store
  index_opened-On = record {
    run = λ t {a} h.
        let (t1, e, j) = then-eq-ok (open_table db _ _ _) (pure (opened IdentityIndex.make)) t h in
        ap (λ s. s.dbi_name) (sym (pure-eq-ok _ a t1 j).0);
  }

  open_index-On :
      (versioned : List Bool)
      → Ends db (λ s t. On IdentityIndex.make.dbi_name s) (open_index db versioned)
  unfolding On open_index
  open_index-On versioned =
      Ends-if (any_true versioned) _ _ index_opened-On (Ends-pure IdentityIndex.make (λ t. refl))

  open_store-On :
      (s : Store) (context : String)
      → Ends db (λ s' t. On s.dbi_name s') (Stores.open_store db s context)
  unfolding On Stores.open_store
  open_store-On s context = record { run = λ t {a} h. ground arith }

  mode_open-On :
      Ends db
        (λ s t. On ReceiverMode.make.dbi_name s)
        (ReceiverMode.open_store db ReceiverMode.make)
  unfolding ReceiverMode.open_store
  mode_open-On = open_store-On ReceiverMode.make _

module _ {db : Mdbx} {n k : Bytes} where
  -- The rest of the block may use what the first call returns.
  Keeps-next :
      {A B : Type 0} {V : A → Type 0} {Q : B → Type 0} (m : InTxn db A) (f : A → InTxn db B)
      → Keeps db n k Always m
      → Ends db (λ a t. V a) m
      → ((a : A) → V a → Keeps db n k Q (f a))
      → Keeps db n k Q (m >>= f)
  Keeps-next m f km em kf = record {
    run = λ t h q.
        let (a, u, e, j) = bind-eq-ok m f t h in (kf a (em.run t e)).run u j q ∙ km.run t e tt;
  }

module _ {db : Mdbx} {n k : Bytes} (laws : IsMdbx db) (batch : ChangeBatch)
    (apart : IsElsewhere batch n k) where
  Keeps-claim_mode : (meta : Store) → Keeps db n k Always (claim_mode db meta)
  unfolding claim_mode On
  Keeps-claim_mode meta = Keeps-bind _ _ (Keeps-get_db_uuid meta) (λ id.
      Keeps-if (is_zero_sync_id id) _ _ (Keeps-pure true) (
        Keeps-next _ _ (Keeps-mode_open laws _) mode_open-On (λ s named.
          Keeps-claim laws s id (subst (λ m. bytes_eq m n ≡ false) (sym named) apart.no_mode))))

  Keeps-open_index : (versioned : List Bool) → Keeps db n k Always (open_index db versioned)
  unfolding open_index
  Keeps-open_index versioned =
      Keeps-if _ _ _ (Keeps-index_open laws _) (Keeps-pure IdentityIndex.make)

  module _ (meta s : Store) (named : On applied_name s) where
    Keeps-commit_ops :
        (versioned : List Bool) (cache : List Bytes) (outcome : ApplyOutcome)
        → Keeps db n k Always (commit_ops db s batch versioned cache outcome)
    unfolding commit_ops On
    Keeps-commit_ops versioned cache outcome =
        Keeps-next (open_index db versioned) _ (Keeps-open_index versioned)
          (open_index-On versioned)
          (λ index on_index.
            Keeps-then _ _
              (Keeps-apply_ops laws batch.ops versioned _ _ index cache apart.no_op
                (subst (λ m. bytes_eq m n ≡ false) (sym on_index) apart.no_index))
              (Keeps-then _ _
                (Keeps-set_last_applied_seq laws s _ _ (
                  subst (λ m. (bytes_eq m n && bytes_eq batch.origin_node_id k) ≡ false) (sym named)
                    apart.no_cursor))
                (Keeps-pure _)))

    Keeps-claim_and_commit :
        (versioned : List Bool) (cache : List Bytes) (outcome : ApplyOutcome)
        → Keeps db n k Always (claim_and_commit db meta s batch versioned cache outcome)
    unfolding claim_and_commit
    Keeps-claim_and_commit versioned cache outcome =
        Keeps-bind _ _ (Keeps-claim_mode meta) (λ claimed.
          Keeps-if claimed _ _ (Keeps-commit_ops versioned cache outcome) (Keeps-pure _))

    Keeps-checked :
        {A : Type 0} (c : Checked A) (f : A → InTxn db ApplyOutcome)
        → ((a : A) → Keeps db n k Always (f a))
        → Keeps db n k Always (elim c [ refused o ↦ pure o | accepted a ↦ f a ])
    Keeps-checked (refused o) f kf = Keeps-pure o
    Keeps-checked (accepted a) f kf = kf a

    Keeps-check_and_commit :
        (policy : ConflictPolicy) (outcome : ApplyOutcome)
        → Keeps db n k Always (check_and_commit db policy meta s batch outcome)
    unfolding check_and_commit preflight_and_commit
    Keeps-check_and_commit policy outcome =
        Keeps-bind _ _ (Keeps-validate_versioned laws policy _ batch.ops outcome) (λ checked.
          Keeps-checked checked _ (λ versioned.
            Keeps-checked (collect_batch_dbi_flags db [] batch.ops outcome) _ (λ dbis.
              Keeps-bind _ _ (Keeps-preflight laws dbis outcome) (λ found.
                Keeps-checked found _ (λ cache. Keeps-claim_and_commit versioned cache outcome)))))

    Keeps-check_order :
        (policy : ConflictPolicy) (outcome : ApplyOutcome)
        → Keeps db n k Always (check_order db policy meta s batch outcome)
    unfolding check_order
    Keeps-check_order policy outcome =
        Keeps-if (leb batch.seq outcome.last_applied_seq) _ _
          (Keeps-pure (record outcome { result = skipped }))
          (Keeps-if (not (batch.seq == (outcome.last_applied_seq + 1) % 2 ^ 64)) _ _
            (Keeps-pure (record outcome { result = conflict; conflict_reason = sequence_gap }))
            (Keeps-check_and_commit policy outcome))

  Keeps-apply_batch_ex :
      (policy : ConflictPolicy) → Keeps db n k Always (apply_batch_ex db policy batch)
  unfolding apply_batch_ex
  Keeps-apply_batch_ex policy = Keeps-bind _ _ (Keeps-meta_open laws _) (λ meta.
      Keeps-next _ _ (Keeps-applied_open laws _) applied_open-On (λ s named.
        Keeps-bind _ _ (Keeps-get_node_id meta) (λ local_node. Keeps-if _ _ _ (Keeps-pure _) (
          Keeps-bind _ _ (Keeps-last_applied_seq s _)
            (λ last. Keeps-check_order meta s named policy _)))))

-- Whatever `apply_batch_ex` returns, a record has afterwards what it had before, if no operation of the batch
-- opens its table (the table of an operation is its name up to the first NUL), the table is neither the identity index nor the one of the receiver's mode, and the record
-- is not the cursor of the batch's origin. So the cursors of the other origins stay.
pub apply_batch_ex-elsewhere :
    (db : Mdbx) (laws : IsMdbx db) (policy : ConflictPolicy) (batch : ChangeBatch) (t t' : db.Txn)
    (outcome : ApplyOutcome) (table key : Bytes)
    → apply_batch_ex db policy batch t ≡ ok (outcome, t')
    → IsElsewhere batch table key
    → db.get table key t' ≡ db.get table key t
apply_batch_ex-elsewhere db laws policy batch t t' outcome table key h apart =
    (Keeps-apply_batch_ex laws batch apart policy).run t h tt
