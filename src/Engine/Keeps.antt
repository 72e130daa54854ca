-- ===== src/Engine/Keeps.antt =====
-- include/mdbx_containers/sync/engine/SyncEngine.hpp: what the parts of `apply_batch_ex` leave as it was.
use mdbx_containers.Prelude.{
  ℕ, bit_or, ◌≡◌, Bool, true, false, Option, List, [], ◌∷◌, bytes_eq, arith, ReturnCode, All,
}
use mdbx_containers.NodeId.{NodeId}
use mdbx_containers.Mdbx.{Bytes, Mdbx, IsMdbx, InTxn, done, c_str}
use mdbx_containers.Mdbx.Keeps.{
  Keeps, Keeps-bind, Keeps-then, Keeps-pure, Keeps-if, Keeps-fail, Keeps-option, Keeps-clear,
}
use mdbx_containers.Protocol.Batch.{ChangeOpType, put, delete, clear_table, other, ChangeOp}
use mdbx_containers.Stores.{Store}
use mdbx_containers.Stores.IdentityIndex.{IdentityIndexValue}
use mdbx_containers.Stores.Keeps.{
  Keeps-contains, Keeps-upsert, Keeps-index_get, Keeps-index_put, Keeps-index_tombstone,
}
use mdbx_containers.Engine.{ConflictPolicy, ApplyOutcome, Checked}
use mdbx_containers.Engine.Checks.{
  refusal, validate_versioned, BatchDbis, open_compatible, open_existing_user_dbi,
  read_existing_user_dbi_flags, preflight_batch_user_dbis, persistent_dbi_flags, Existing, absent,
  present, mismatch,
}
use mdbx_containers.Engine.Operations.{
  Cache, resolve_user_dbi, erase_key, run_op, apply_one_op, write_marker, marker, apply_lww_one_op,
  is_stale,
}
use mdbx_containers.Engine.Apply.{apply_ops}

module _ {db : Mdbx} {n k : Bytes} where
  pub Keeps-validate_versioned :
      {Q : Checked (List Bool) → Type 0} (laws : IsMdbx db) (policy : ConflictPolicy)
      (registry : Store) (ops : List ChangeOp) (outcome : ApplyOutcome)
      → Keeps db n k Q (validate_versioned db policy registry ops outcome)
  unfolding validate_versioned
  Keeps-validate_versioned laws policy registry [] outcome = Keeps-pure _
  Keeps-validate_versioned laws policy registry (op ∷ ops) outcome =
      Keeps-bind _ _ (Keeps-contains laws registry op.dbi_name) (λ (registry', versioned).
        Keeps-option (refusal policy versioned op) _ _
          (Keeps-bind _ _ (Keeps-validate_versioned laws policy registry' ops outcome)
            (λ rest. Keeps-pure _))
          (λ reason. Keeps-pure _))

  pub open_compatible_lem :
      (laws : IsMdbx db) (dbi : Bytes) (flags extra : ℕ) (t t' : db.Txn)
      → open_compatible db dbi flags extra t ≡ done t'
      → db.get n k t' ≡ db.get n k t
  unfolding open_compatible
  open_compatible_lem laws dbi flags extra t t' h = ground (
    arith,
    laws.get-dbi_open (c_str dbi) (bit_or flags extra) t t' n k,
    laws.get-dbi_open (c_str dbi) (bit_or (bit_or flags extra) db.integer_key) t t' n k,
  )

  Keeps-open_existing_user_dbi :
      {Q : Existing → Type 0} (laws : IsMdbx db) (dbi : Bytes) (flags : ℕ)
      → Keeps db n k Q (open_existing_user_dbi db dbi flags)
  unfolding open_existing_user_dbi
  Keeps-open_existing_user_dbi laws dbi flags = record {
    run = λ t {a} {t'} h q.
        ground (arith, open_compatible_lem laws dbi (persistent_dbi_flags db flags) 0 t t');
  }

  Keeps-read_existing_user_dbi_flags :
      {Q : Option ℕ → Type 0} (laws : IsMdbx db) (dbi : Bytes)
      → Keeps db n k Q (read_existing_user_dbi_flags db dbi)
  unfolding read_existing_user_dbi_flags
  Keeps-read_existing_user_dbi_flags laws dbi = record {
    run = λ t {a} {t'} h q. ground (arith, laws.get-dbi_open (c_str dbi) db.accede_flag t t' n k);
  }

  Keeps-existing :
      {B : Type 0} {Q : B → Type 0} (found : Existing) (a p : InTxn db B)
      (m : ReturnCode → InTxn db B)
      → Keeps db n k Q a
      → Keeps db n k Q p
      → ((rc : ReturnCode) → Keeps db n k Q (m rc))
      → Keeps db n k Q (elim found [ absent ↦ a | present ↦ p | mismatch rc ↦ m rc ])
  Keeps-existing absent a p m ka kp km = ka
  Keeps-existing present a p m ka kp km = kp
  Keeps-existing (mismatch rc) a p m ka kp km = km rc

  pub Keeps-preflight :
      {Q : Checked (List Bytes) → Type 0} (laws : IsMdbx db) (dbis : BatchDbis)
      (outcome : ApplyOutcome)
      → Keeps db n k Q (preflight_batch_user_dbis db dbis outcome)
  unfolding preflight_batch_user_dbis
  Keeps-preflight laws [] outcome = Keeps-pure _
  Keeps-preflight laws ((dbi, flags) ∷ dbis) outcome =
      Keeps-bind _ _ (Keeps-open_existing_user_dbi laws dbi flags) (λ found.
        Keeps-existing found _ _ _ (Keeps-preflight laws dbis outcome)
          (Keeps-bind _ _ (Keeps-preflight laws dbis outcome) (λ rest. Keeps-pure _))
          (λ rc.
            Keeps-bind _ _ (Keeps-read_existing_user_dbi_flags laws dbi) (λ actual. Keeps-pure _)))

  -- Opening a user table and writing another table than `n`.
  pub Keeps-resolve_user_dbi :
      {Q : Cache → Type 0} (laws : IsMdbx db) (dbi : Bytes) (flags : ℕ) (cache : Cache)
      → Keeps db n k Q (resolve_user_dbi db dbi flags cache)
  unfolding resolve_user_dbi
  Keeps-resolve_user_dbi laws dbi flags cache = record {
    run = λ t {a} {t'} h q.
        ground
          (arith, open_compatible_lem laws dbi (persistent_dbi_flags db flags) db.create_flag t t');
  }

  Keeps-erase_key :
      {Q : Unit {0} → Type 0} (laws : IsMdbx db) (dbi key : Bytes)
      → bytes_eq dbi n ≡ false
      → Keeps db n k Q (erase_key db dbi key)
  unfolding erase_key
  Keeps-erase_key laws dbi key elsewhere = record {
    run = λ t {a} {t'} h q. ground (arith, laws.get-del dbi key t t' n k);
  }

  Keeps-run_op :
      {Q : Cache → Type 0} (laws : IsMdbx db) (type : ChangeOpType) (op : ChangeOp) (cache : Cache)
      → bytes_eq (c_str op.dbi_name) n ≡ false
      → Keeps db n k Q (run_op db type op cache)
  unfolding run_op
  Keeps-run_op laws put op cache elsewhere =
      Keeps-then _ _ (Keeps-upsert laws _ _ _ _ (ground arith)) (Keeps-pure _)
  Keeps-run_op laws delete op cache elsewhere =
      Keeps-then _ _ (Keeps-erase_key laws _ _ elsewhere) (Keeps-pure _)
  Keeps-run_op laws clear_table op cache elsewhere =
      Keeps-then _ _ (Keeps-clear laws _ _ elsewhere) (Keeps-pure _)
  Keeps-run_op laws (other m) op cache elsewhere = Keeps-fail _

  Keeps-apply_one_op :
      {Q : Cache → Type 0} (laws : IsMdbx db) (op : ChangeOp) (cache : Cache)
      → bytes_eq (c_str op.dbi_name) n ≡ false
      → Keeps db n k Q (apply_one_op db op cache)
  unfolding apply_one_op
  Keeps-apply_one_op laws op cache elsewhere =
      Keeps-bind _ _ (Keeps-resolve_user_dbi laws _ _ cache)
        (λ cache'. Keeps-run_op laws op.op_type op cache' elsewhere)

  Keeps-write_marker :
      {Q : Unit {0} → Type 0} (laws : IsMdbx db) (index : Store) (op : ChangeOp)
      (v : IdentityIndexValue)
      → bytes_eq index.dbi_name n ≡ false
      → Keeps db n k Q (write_marker db index op v)
  unfolding write_marker
  Keeps-write_marker laws index op v elsewhere =
      Keeps-if _ _ _ (Keeps-index_tombstone laws _ _ _ _ elsewhere)
        (Keeps-index_put laws _ _ _ _ elsewhere)

  Keeps-apply_lww_one_op :
      {Q : Cache → Type 0} (laws : IsMdbx db) (op : ChangeOp) (origin : NodeId) (seq : ℕ)
      (index : Store) (cache : Cache)
      → bytes_eq (c_str op.dbi_name) n ≡ false
      → bytes_eq index.dbi_name n ≡ false
      → Keeps db n k Q (apply_lww_one_op db op origin seq index cache)
  unfolding apply_lww_one_op
  Keeps-apply_lww_one_op laws op origin seq index cache elsewhere indexed =
      Keeps-bind _ _ (Keeps-index_get index _ _) (λ current.
        Keeps-if (is_stale op origin current) _ _ (Keeps-pure _) (
          Keeps-bind _ _ (Keeps-apply_one_op laws op cache elsewhere) (λ cache'.
            Keeps-then _ _ (Keeps-write_marker laws index op (marker db op origin seq) indexed)
              (Keeps-pure cache'))))

  -- No operation of the list opens the table `n`.
  pub Keeps-apply_ops :
      {Q : Unit {0} → Type 0} (laws : IsMdbx db) (ops : List ChangeOp) (versioned : List Bool)
      (origin : NodeId) (seq : ℕ) (index : Store) (cache : Cache)
      → All (λ op. bytes_eq (c_str op.dbi_name) n ≡ false) ops
      → bytes_eq index.dbi_name n ≡ false
      → Keeps db n k Q (apply_ops db ops versioned origin seq index cache)
  unfolding apply_ops
  Keeps-apply_ops laws [] versioned origin seq index cache elsewhere indexed = Keeps-pure _
  Keeps-apply_ops laws (op ∷ ops) [] origin seq index cache elsewhere indexed = Keeps-pure _
  Keeps-apply_ops laws (op ∷ ops) (true ∷ versioned) origin seq index cache (here, there) indexed =
      Keeps-bind _ _ (Keeps-apply_lww_one_op laws op origin seq index cache here indexed)
        (λ cache'. Keeps-apply_ops laws ops versioned origin seq index cache' there indexed)
  Keeps-apply_ops laws (op ∷ ops) (false ∷ versioned) origin seq index cache (here, there) indexed =
      Keeps-bind _ _ (Keeps-apply_one_op laws op cache here)
        (λ cache'. Keeps-apply_ops laws ops versioned origin seq index cache' there indexed)
