-- ===== src/Stateful.antt =====
-- Functions that read and change a state and may throw. What such a function has changed is lost when it
-- throws: a decoder's cursor is a local variable, and a transaction is aborted by its guard.
pub mod Laws
use mdbx_containers.Prelude.{Bool, true, false, Exception, Result, ok, throw}

abbrev pub Stateful : Type 0 → Type 0 → Type 0
Stateful S A = S → Result (A × S)

infixl 5 ◌>>=◌ ◌>>◌
unfoldable pub ◌>>=◌ : {S A B : Type 0} → Stateful S A → (A → Stateful S B) → Stateful S B
◌>>=◌ m f s = elim (m s) [ ok (a, s') ↦ f a s' | throw e ↦ throw e ]

unfoldable pub ◌>>◌ : {S B : Type 0} → Stateful S (Unit {0}) → Stateful S B → Stateful S B
◌>>◌ m k s = elim (m s) [ ok (a, s') ↦ k s' | throw e ↦ throw e ]

unfoldable pub pure : {S A : Type 0} → A → Stateful S A
pure a s = ok (a, s)

-- `if (wrong) throw e;`
unfoldable pub throw_when : {S : Type 0} → Bool → Exception → Stateful S (Unit {0})
throw_when true e s = throw e
throw_when false e s = ok (tt, s)

unfoldable pub fail : {S A : Type 0} → Exception → Stateful S A
fail e s = throw e
