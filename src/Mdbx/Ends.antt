-- ===== src/Mdbx/Ends.antt =====
-- What a block ends in: a statement on the value that it returns and on the transaction after it, one rule
-- for each way to build a block.
use mdbx_containers.Prelude.{◌≡◌, subst, Bool, true, false, Option, none, some, ok, if◌then◌else◌}
use mdbx_containers.Stateful.{◌>>=◌, pure}
use mdbx_containers.Stateful.Laws.{bind-eq-ok, pure-eq-ok}
use mdbx_containers.Mdbx.{Mdbx, InTxn}

-- What holds of the value and the transaction that a block returns.
pub record Ends {A : Type 0} (db : Mdbx) (P : A → db.Txn → Type 0) (m : InTxn db A) : Type 0 where
  pub run : (t : db.Txn) {a : A} {t' : db.Txn} → m t ≡ ok (a, t') → P a t'

module _ {db : Mdbx} where
  pub Ends-bind :
      {A B : Type 0} (V : A → Type 0) {P : B → db.Txn → Type 0} (m : InTxn db A)
      (f : A → InTxn db B)
      → Ends db (λ a t. V a) m
      → ((a : A) → V a → Ends db P (f a))
      → Ends db P (m >>= f)
  Ends-bind V m f em ef = record {
    run = λ t h. let (a, u, e, j) = bind-eq-ok m f t h in (ef a (em.run t e)).run u j;
  }

  pub Ends-next :
      {A B : Type 0} {P : B → db.Txn → Type 0} (m : InTxn db A) (f : A → InTxn db B)
      → ((a : A) → Ends db P (f a))
      → Ends db P (m >>= f)
  Ends-next m f ef = record { run = λ t h. let (a, u, e, j) = bind-eq-ok m f t h in (ef a).run u j }

  pub Ends-pure :
      {B : Type 0} {P : B → db.Txn → Type 0} (b : B) → ((t : db.Txn) → P b t) → Ends db P (pure b)
  Ends-pure {P = P} b p = record {
    run = λ t {a} {t'} h. subst (λ c. P c t') (pure-eq-ok b a t h).0 (p t');
  }

  pub Ends-if :
      {B : Type 0} {P : B → db.Txn → Type 0} (b : Bool) (m f : InTxn db B)
      → Ends db P m
      → Ends db P f
      → Ends db P (if b then m else f)
  Ends-if true m f em ef = em
  Ends-if false m f em ef = ef

  pub Ends-option :
      {A B : Type 0} {P : B → db.Txn → Type 0} (o : Option A) (m : InTxn db B) (f : A → InTxn db B)
      → Ends db P m
      → ((a : A) → Ends db P (f a))
      → Ends db P (elim o [ none ↦ m | some a ↦ f a ])
  Ends-option none m f em ef = em
  Ends-option (some a) m f em ef = ef a
