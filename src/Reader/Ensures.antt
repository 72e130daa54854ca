-- ===== src/Reader/Ensures.antt =====
-- `Ensures m P`: whatever `m` returns satisfies `P`. One rule for each way to build a read.
use mdbx_containers.Prelude.{
  ℕ, ◌≡◌, refl, Bool, true, false, Option, none, some, String, length, length-take, ltb, Result, ok,
  arith, Exception, if◌then◌else◌,
}
use mathlib.Core.Path.{subst}
use mdbx_containers.Reader.{Cursor, Read, ◌>>=◌, ◌>>◌, pure, throw_when, read_bytes, read_sized}
use mdbx_containers.Reader.Reads.{Within}
use mdbx_containers.Stateful.Laws.{bind-eq-ok, then-eq-ok}
use mdbx_containers.Reader.Extends.{read_bytes-eq-ok}

pub record Ensures {A : Type 0} (m : Read A) (P : A → Type 0) : Type 0 where
  pub holds : (c : Cursor) {a : A} {c' : Cursor} → m c ≡ ok (a, c') → P a

module _ {A B : Type 0} {P : B → Type 0} where
  pub Ensures-bind :
      (m : Read A) (f : A → Read B) (Q : A → Type 0)
      → Ensures m Q
      → ((a : A) → Q a → Ensures (f a) P)
      → Ensures (m >>= f) P
  Ensures-bind m f Q em ef = record {
    holds = λ c h. let (a, d, e, k) = bind-eq-ok m f c h in (ef a (em.holds c e)).holds d k;
  }

  -- A read of which nothing is needed.
  pub Ensures-skip :
      (m : Read A) (f : A → Read B) → ((a : A) → Ensures (f a) P) → Ensures (m >>= f) P
  Ensures-skip m f ef = record {
    holds = λ c h. let (a, d, e, k) = bind-eq-ok m f c h in (ef a).holds d k;
  }

module _ {B : Type 0} {P : B → Type 0} where
  pub Ensures-then : (m : Read (Unit {0})) (k : Read B) → Ensures k P → Ensures (m >> k) P
  Ensures-then m k ek = record { holds = λ c h. let (d, e, j) = then-eq-ok m k c h in ek.holds d j }

  -- Behind a guard its test is known to have failed.
  pub Ensures-guard :
      (wrong : Bool) (e : Exception) (k : Read B)
      → (wrong ≡ false → Ensures k P)
      → Ensures (throw_when wrong e >> k) P
  unfolding throw_when ◌>>◌
  Ensures-guard true e k ek = record { holds = λ c h. cc }
  Ensures-guard false e k ek = record { holds = λ c h. (ek refl).holds c h }

  pub Ensures-pure : (b : B) → P b → Ensures (pure b) P
  unfolding pure
  Ensures-pure b h = record { holds = λ c {a} {c'} e. subst P (same a c c' e) h }
    where
      same :
          (a : B) (c c' : Cursor) → ◌≡◌ {A = Result (B × Cursor)} (ok (b, c)) (ok (a, c')) → b ≡ a
      same a c c' e = cc

module _ {B : Type 0} {P : B → Type 0} where
  pub Ensures-if :
      (b : Bool) (m n : Read B) → Ensures m P → Ensures n P → Ensures (if b then m else n) P
  Ensures-if true m n em en = em
  Ensures-if false m n em en = en

pub Ensures-read_bytes :
    (underrun : String) (n : ℕ) → Ensures (read_bytes underrun n) (λ bytes. length bytes ≡ n)
Ensures-read_bytes underrun n = record {
  holds = λ c h.
      let (fits, e, e') = read_bytes-eq-ok underrun n c h in rw e (length-take n c.rest fits);
}

pub Within-of :
    (limit : Option ℕ) (size : ℕ)
    → (elim limit [ none ↦ false | some most ↦ ltb most size ]) ≡ false
    → Within limit size
Within-of none size h = tt
Within-of (some most) size h = ground arith

-- The rest of a sized field: the check of its size, and its bytes.
pub Ensures-checked :
    (underrun : String) (limit : Option ℕ) (size : ℕ) (e : Exception)
    → Ensures
        (throw_when (elim limit [ none ↦ false | some most ↦ ltb most size ]) e
          >> read_bytes underrun size)
        (λ bytes. Within limit (length bytes))
Ensures-checked underrun limit size e = Ensures-guard _ _ _ λ passed. record {
  holds = λ c h. rw ((Ensures-read_bytes underrun size).holds c h) (Within-of limit size passed);
}

pub Ensures-read_sized :
    (underrun : String) (limit : Option ℕ) (message : String)
    → Ensures (read_sized underrun limit message) (λ bytes. Within limit (length bytes))
unfolding read_sized
Ensures-read_sized underrun limit message =
    Ensures-skip _ _ λ size. Ensures-checked underrun limit size _
