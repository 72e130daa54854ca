-- ===== src/Mdbx/Keeps.antt =====
-- What a block leaves as it was: the record of one key, seen through `get`. One rule for each way to build
-- a block. `Q` restricts the claim to some of the values that the block may return.
use mdbx_containers.Prelude.{
  ℕ, ◌≡◌, refl, sym, ap, ◌∙◌, subst, Bool, true, false, ◌&&◌, Option, none, some, String, bytes_eq,
  Exception, ok, arith, if◌then◌else◌,
}
use mdbx_containers.Stateful.{◌>>=◌, ◌>>◌, pure, throw_when, fail}
use mdbx_containers.Stateful.Laws.{bind-eq-ok, then-eq-ok, pure-eq-ok}
use mdbx_containers.Mdbx.{Bytes, Mdbx, IsMdbx, InTxn, Call, done, failed, check_write}

pub record Keeps {A : Type 0} (db : Mdbx) (n k : Bytes) (Q : A → Type 0) (m : InTxn db A)
    : Type 0 where
  pub run :
      (t : db.Txn) {a : A} {t' : db.Txn} → m t ≡ ok (a, t') → Q a → db.get n k t' ≡ db.get n k t

abbrev pub Always : {A : Type 0} → A → Type 0
Always a = Unit {0}

module _ {db : Mdbx} {n k : Bytes} where
  pub Keeps-bind :
      {A B : Type 0} {Q : B → Type 0} (m : InTxn db A) (f : A → InTxn db B)
      → Keeps db n k Always m
      → ((a : A) → Keeps db n k Q (f a))
      → Keeps db n k Q (m >>= f)
  Keeps-bind m f km kf = record {
    run = λ t h q. let (a, u, e, j) = bind-eq-ok m f t h in (kf a).run u j q ∙ km.run t e tt;
  }

  pub Keeps-then :
      {B : Type 0} {Q : B → Type 0} (m : InTxn db (Unit {0})) (f : InTxn db B)
      → Keeps db n k Always m
      → Keeps db n k Q f
      → Keeps db n k Q (m >> f)
  Keeps-then m f km kf = record {
    run = λ t h q. let (u, e, j) = then-eq-ok m f t h in kf.run u j q ∙ km.run t e tt;
  }

  pub Keeps-pure : {B : Type 0} {Q : B → Type 0} (b : B) → Keeps db n k Q (pure b)
  Keeps-pure b = record { run = λ t h q. ap (db.get n k) (sym (pure-eq-ok b _ t h).1) }

  pub Keeps-fail : {B : Type 0} {Q : B → Type 0} (e : Exception) → Keeps db n k Q (fail e)
  unfolding fail
  Keeps-fail e = record { run = λ t h q. cc }

  pub Keeps-if :
      {B : Type 0} {Q : B → Type 0} (b : Bool) (m f : InTxn db B)
      → Keeps db n k Q m
      → Keeps db n k Q f
      → Keeps db n k Q (if b then m else f)
  Keeps-if true m f km kf = km
  Keeps-if false m f km kf = kf

  pub Keeps-option :
      {A B : Type 0} {Q : B → Type 0} (o : Option A) (m : InTxn db B) (f : A → InTxn db B)
      → Keeps db n k Q m
      → ((a : A) → Keeps db n k Q (f a))
      → Keeps db n k Q (elim o [ none ↦ m | some a ↦ f a ])
  Keeps-option none m f km kf = km
  Keeps-option (some a) m f km kf = kf a

  pub Keeps-throw_when :
      {Q : Unit {0} → Type 0} (wrong : Bool) (e : Exception) → Keeps db n k Q (throw_when wrong e)
  unfolding throw_when
  Keeps-throw_when true e = record { run = λ t h q. cc }
  Keeps-throw_when false e = record { run = λ t h q. ap (db.get n k) (ground arith) }

  -- A value that the block does not return in the cases of interest.
  pub Keeps-never :
      {B : Type 0} {Q : B → Type 0} (m : InTxn db (Unit {0})) (b : B)
      → (Q b → ⊥)
      → Keeps db n k Q (m >> pure b)
  Keeps-never {Q = Q} m b never = record {
    run = λ t h q.
        let (u, e, j) = then-eq-ok m (pure b) t h in
        absurd (never (subst Q (sym (pure-eq-ok b _ u j).0) q));
  }

pub ruleset keeps_rules =
    (Keeps-bind, Keeps-then, Keeps-pure, Keeps-fail, Keeps-if, Keeps-throw_when)

module _ {db : Mdbx} {n k : Bytes} where
  pub Keeps-check_write :
      {Q : Unit {0} → Type 0} (context : String) (call : db.Txn → Call db.Txn)
      → ((t t' : db.Txn) → call t ≡ done t' → db.get n k t' ≡ db.get n k t)
      → Keeps db n k Q (check_write context call)
  unfolding check_write
  Keeps-check_write context call keeps = record { run = λ t h q. go t (call t) refl h }
    where
      go :
          (t : db.Txn) {t' : db.Txn} {u : Unit {0}} (c : Call db.Txn)
          → call t ≡ c
          → check_write context call t ≡ ok (u, t')
          → db.get n k t' ≡ db.get n k t
      go t {t'} (done t1) e h =
          let r = rw (e, check_write) at h in
          let same : t1 ≡ t' = ground arith in ap (db.get n k) (sym same) ∙ keeps t t1 e
      go t (failed rc) e h = let r = rw (e, check_write) at h in cc

  pub Keeps-put :
      {Q : Unit {0} → Type 0} (laws : IsMdbx db) (table key value : Bytes) (context : String)
      → (bytes_eq table n && bytes_eq key k) ≡ false
      → Keeps db n k Q (check_write context (db.put table key value))
  Keeps-put laws table key value context other =
      Keeps-check_write context _
        (λ t t' h. let l = laws.get-put table key value t t' n k h in rw other at l)

  pub Keeps-clear :
      {Q : Unit {0} → Type 0} (laws : IsMdbx db) (table : Bytes) (context : String)
      → bytes_eq table n ≡ false
      → Keeps db n k Q (check_write context (db.clear table))
  Keeps-clear laws table context other =
      Keeps-check_write context _
        (λ t t' h. let l = laws.get-clear table t t' n k h in rw other at l)

  pub Keeps-dbi_open :
      {Q : Unit {0} → Type 0} (laws : IsMdbx db) (table : Bytes) (flags : ℕ) (context : String)
      → Keeps db n k Q (check_write context (db.dbi_open table flags))
  Keeps-dbi_open laws table flags context =
      Keeps-check_write context _ (λ t t' h. laws.get-dbi_open table flags t t' n k h)
