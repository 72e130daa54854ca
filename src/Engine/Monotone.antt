-- ===== src/Engine/Monotone.antt =====
-- include/mdbx_containers/sync/engine/SyncEngine.hpp: the cursors of `AppliedStore` only go forward.
use mdbx_containers.Prelude.{
  ℕ, length-append, zero, suc, length, take, ◌++◌, ◌==◌, if◌then◌else◌, ◌≤◌, ◌≡◌, ◌≢◌, refl, ap,
  subst, Bool, true, false, List, [], ◌∷◌, bytes_eq, bytes_eq_sound, ok, arith, All, ◌⊎◌, inl, inr,
}
use mdbx_containers.Bytes.{IsU64}
use mdbx_containers.NodeId.{NodeId}
use mdbx_containers.Mdbx.{Bytes, Mdbx, IsMdbx, c_str}
use mdbx_containers.Protocol.Batch.{ChangeOp, ChangeBatch}
use mdbx_containers.Stores.Applied.{applied_name}
use mdbx_containers.Stores.VersionedDbi.{is_reserved_dbi_name}
use mdbx_containers.Engine.{ConflictPolicy, ApplyResult, applied, skipped, conflict, ApplyOutcome}
use mdbx_containers.Engine.Apply.{apply_batch_ex}
use mdbx_containers.Engine.Effects.{NoReserved}
use mdbx_containers.Engine.Cursor.{cursor, cursor-same, apply_batch_ex-next, apply_batch_ex-cursor}
use mdbx_containers.Engine.Refusals.{apply_batch_ex-refused}
use mdbx_containers.Engine.Untouched.{apply_batch_ex-elsewhere}

pub result-cases : (r : ApplyResult) → (r ≡ applied) ⊎ (r ≢ applied)
result-cases applied = inl refl
result-cases skipped = inr (λ e. cc)
result-cases conflict = inr (λ e. cc)

pub bytes-cases : (xs ys : List ℕ) → (xs ≡ ys) ⊎ (bytes_eq xs ys ≡ false)
bytes-cases xs ys = by_test (bytes_eq xs ys) refl
  where
    by_test : (b : Bool) → bytes_eq xs ys ≡ b → (xs ≡ ys) ⊎ (bytes_eq xs ys ≡ false)
    by_test true e = inl (bytes_eq_sound xs ys e)
    by_test false e = inr e

reserved-apart :
    (n table : Bytes)
    → is_reserved_dbi_name n ≡ false
    → is_reserved_dbi_name table ≡ true
    → bytes_eq n table ≡ false
reserved-apart n table free taken = elim (bytes-cases n table) [
  | inl e ↦ absurd (cc (ap is_reserved_dbi_name e, free, taken))
  | inr e ↦ e
]

take-prefix : (m : ℕ) (xs ys : Bytes) → m ≤ length xs → take m (xs ++ ys) ≡ take m xs
take-prefix zero xs ys h = refl
take-prefix (suc m) [] ys h = absurd (omega arith)
take-prefix (suc m) (x ∷ xs) ys h = ap (λ l. x ∷ l) (take-prefix m xs ys (omega arith))

c_str-prefix : (n : Bytes) → (rest : Bytes) × (n ≡ c_str n ++ rest)
unfolding c_str
c_str-prefix [] = ([], refl)
c_str-prefix (x ∷ n) = let (rest, e) = c_str-prefix n in go (x == 0) rest e
  where
    go :
        (ends : Bool) (rest : Bytes)
        → n ≡ c_str n ++ rest
        → (tail : Bytes) × (x ∷ n ≡ (if ends then [] else x ∷ c_str n) ++ tail)
    go true rest e = (x ∷ n, refl)
    go false rest e = (rest, ap (λ l. x ∷ l) e)

-- A name that is cut to a reserved one is reserved itself.
reserved-c_str :
    (n : Bytes) → is_reserved_dbi_name n ≡ false → is_reserved_dbi_name (c_str n) ≡ false
unfolding is_reserved_dbi_name
reserved-c_str n free =
    let (rest, e) = c_str-prefix n in
    ground (
      arith,
      take-prefix 7 (c_str n) rest,
      ap length e,
      length-append (c_str n) rest,
      ap (take 7) e,
    )

-- No operation is on a reserved table.
NoReserved-apart :
    (table : Bytes) (ops : List ChangeOp)
    → is_reserved_dbi_name table ≡ true
    → NoReserved ops
    → All (λ op. bytes_eq (c_str op.dbi_name) table ≡ false) ops
NoReserved-apart table [] taken free = tt
NoReserved-apart table (op ∷ ops) taken (here, there) = (
  reserved-apart (c_str op.dbi_name) table (reserved-c_str op.dbi_name here) taken,
  NoReserved-apart table ops taken there,
)

module _ (db : Mdbx) (laws : IsMdbx db) (policy : ConflictPolicy) (batch : ChangeBatch)
    (t t' : db.Txn) where
  cursor-other :
      (outcome : ApplyOutcome) (origin : NodeId)
      → apply_batch_ex db policy batch t ≡ ok (outcome, t')
      → NoReserved batch.ops
      → bytes_eq batch.origin_node_id origin ≡ false
      → cursor db origin t' ≡ cursor db origin t
  unfolding is_reserved_dbi_name
  cursor-other outcome origin h free apart = cursor-same db origin t' t (
      apply_batch_ex-elsewhere db laws policy batch t t' outcome applied_name origin h (record {
        no_op = NoReserved-apart applied_name batch.ops refl free;
        no_index = refl;
        no_mode = refl;
        no_cursor = apart;
      }))

-- `apply_batch_ex` never sets the cursor of an origin back, whatever it returns, for a batch with a number of
-- 64 bits. It leaves the cursors of all origins but that of a batch that it applies.
pub apply_batch_ex-monotone :
    (db : Mdbx) (laws : IsMdbx db) (policy : ConflictPolicy) (batch : ChangeBatch) (t t' : db.Txn)
    (outcome : ApplyOutcome) (origin : NodeId)
    → apply_batch_ex db policy batch t ≡ ok (outcome, t')
    → IsU64 batch.seq
    → (cursor db origin t ≤ cursor db origin t')
      × ((batch.origin_node_id ≢ origin) ⊎ (outcome.result ≢ applied)
          → cursor db origin t' ≡ cursor db origin t)
apply_batch_ex-monotone db laws policy batch t t' outcome origin h bounded =
    elim (result-cases outcome.result) [
      | inr refused ↦
          let same = cursor-same db origin t' t (
            apply_batch_ex-refused db laws policy batch t t' outcome applied_name origin h
              refused) in
          (omega (arith, same), λ why. same)
      | inl is_applied ↦
          let (moved, last, free) =
            apply_batch_ex-cursor db laws policy batch t t' outcome h is_applied bounded in
          let next = apply_batch_ex-next db laws policy batch t t' outcome h is_applied in
          elim (bytes-cases batch.origin_node_id origin) [
            | inr apart ↦
                let same = cursor-other db laws policy batch t t' outcome origin h free apart in
                (omega (arith, same), λ why. same)
            | inl own ↦ (
              subst (λ o. cursor db o t ≤ cursor db o t') own (omega (arith, moved, next)),
              λ why. elim why [ inl p ↦ absurd (p own) | inr p ↦ absurd (p is_applied) ],
            )
          ]
    ]
