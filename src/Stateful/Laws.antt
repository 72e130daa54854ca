-- ===== src/Stateful/Laws.antt =====
-- Inversion of a block that returned.
use mdbx_containers.Prelude.{◌≡◌, refl, Bool, true, false, Exception, Result, ok, throw, arith}
use mdbx_containers.Stateful.{Stateful, ◌>>=◌, ◌>>◌, pure, throw_when}

module _ {S A B : Type 0} where
  pub bind-eq-ok :
      (m : Stateful S A) (f : A → Stateful S B) (s : S) {b : B} {s' : S}
      → (m >>= f) s ≡ ok (b, s')
      → (a : A) × (t : S) × (m s ≡ ok (a, t)) × (f a t ≡ ok (b, s'))
  unfolding ◌>>=◌
  bind-eq-ok m f s {b} {s'} h = go (m s) refl h
    where
      go :
          (r : Result (A × S))
          → m s ≡ r
          → (elim r [ ok (a, t) ↦ f a t | throw e ↦ throw e ]) ≡ ok (b, s')
          → (a : A) × (t : S) × (m s ≡ ok (a, t)) × (f a t ≡ ok (b, s'))
      go (ok (a, t)) e k = (a, t, e, k)
      go (throw x) e k = cc

module _ {S B : Type 0} where
  pub then-eq-ok :
      (m : Stateful S (Unit {0})) (k : Stateful S B) (s : S) {b : B} {s' : S}
      → (m >> k) s ≡ ok (b, s')
      → (t : S) × (m s ≡ ok (tt, t)) × (k t ≡ ok (b, s'))
  unfolding ◌>>◌
  then-eq-ok m k s {b} {s'} h = go (m s) refl h
    where
      go :
          (r : Result (Unit {0} × S))
          → m s ≡ r
          → (elim r [ ok (a, t) ↦ k t | throw e ↦ throw e ]) ≡ ok (b, s')
          → (t : S) × (m s ≡ ok (tt, t)) × (k t ≡ ok (b, s'))
      go (ok (a, t)) e j = (t, e, j)
      go (throw x) e j = cc

  -- A guard that let the block go on.
  pub guard-eq-ok :
      (wrong : Bool) (e : Exception) (k : Stateful S B) (s : S) {b : B} {s' : S}
      → (throw_when wrong e >> k) s ≡ ok (b, s')
      → (wrong ≡ false) × (k s ≡ ok (b, s'))
  unfolding ◌>>◌ throw_when
  guard-eq-ok true e k s h = cc
  guard-eq-ok false e k s h = (refl, h)

  pub pure-eq-ok : (a b : B) (s : S) {s' : S} → pure a s ≡ ok (b, s') → (a ≡ b) × (s ≡ s')
  unfolding pure
  pure-eq-ok a b s h = ground arith

module _ {S A B : Type 0} where
  -- A block whose first call returns goes on with what it returned.
  pub bind-ok :
      (m : Stateful S A) (f : A → Stateful S B) (s : S) {a : A} {t : S} {r : Result (B × S)}
      → m s ≡ ok (a, t)
      → f a t ≡ r
      → (m >>= f) s ≡ r
  unfolding ◌>>=◌
  bind-ok m f s h k = rw (h, ◌>>=◌) k

module _ {S B : Type 0} where
  pub then-ok :
      (m : Stateful S (Unit {0})) (k : Stateful S B) (s : S) {t : S} {r : Result (B × S)}
      → m s ≡ ok (tt, t)
      → k t ≡ r
      → (m >> k) s ≡ r
  unfolding ◌>>◌
  then-ok m k s h e = rw (h, ◌>>◌) e
