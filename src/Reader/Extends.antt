-- ===== src/Reader/Extends.antt =====
-- A read looks at no byte behind those that it takes: with more bytes in the buffer it returns the same.
-- One rule for each way to build a read, and the inversion of a bind.
use mdbx_containers.Prelude.{
  ℕ, ◌+◌, ◌≤◌, ◌≡◌, refl, Bool, true, false, Option, String, List, [], ◌∷◌, ◌++◌, ltb, length, take,
  drop, length-append, take_more, drop_more, Exception, ok, arith, if◌then◌else◌,
}
use mdbx_containers.Bytes.{read_u16_le, read_u32_le, read_u64_le}
use mdbx_containers.Stateful.Laws.{bind-eq-ok, then-eq-ok}
use mdbx_containers.Reader.{
  Cursor, Read, ◌>>=◌, ◌>>◌, pure, throw_when, check_bounds, read_bytes, read_number, read_u8,
  read_u16, read_u32, read_u64, read_sized, first_byte,
}

abbrev pub extend : Cursor → List ℕ → Cursor
extend c more = record c { rest = c.rest ++ more }

pub record Extends {A : Type 0} (m : Read A) : Type 0 where
  pub run :
      (c : Cursor) (more : List ℕ) {a : A} {c' : Cursor}
      → m c ≡ ok (a, c')
      → m (extend c more) ≡ ok (a, extend c' more)

module _ {A B : Type 0} where
  pub Extends-bind :
      (m : Read A) (f : A → Read B) → Extends m → ((a : A) → Extends (f a)) → Extends (m >>= f)
  Extends-bind m f em ef = record {
    run = λ c more h.
        let (a, d, e, k) = bind-eq-ok m f c h in
        unfold ◌>>=◌ in rw (em.run c more e, ◌>>=◌) ((ef a).run d more k);
  }

module _ {B : Type 0} where
  pub Extends-then : (m : Read (Unit {0})) (k : Read B) → Extends m → Extends k → Extends (m >> k)
  Extends-then m k em ek = record {
    run = λ c more h.
        let (d, e, j) = then-eq-ok m k c h in
        unfold ◌>>◌ in rw (em.run c more e, ◌>>◌) (ek.run d more j);
  }

  pub Extends-pure : (b : B) → Extends (pure b)
  unfolding pure
  Extends-pure b = record { run = λ c more h. ground arith }

  pub Extends-if : (b : Bool) (m n : Read B) → Extends m → Extends n → Extends (if b then m else n)
  Extends-if true m n em en = em
  Extends-if false m n em en = en

pub Extends-throw_when : (wrong : Bool) (e : Exception) → Extends (throw_when wrong e)
unfolding throw_when
Extends-throw_when true e = record { run = λ c more h. cc }
Extends-throw_when false e = record { run = λ c more h. ground arith }

module _ (underrun : String) (n : ℕ) (value : List ℕ → ℕ) where
  pub read_number-eq-ok :
      (c : Cursor) {v : ℕ} {c' : Cursor}
      → read_number underrun n value c ≡ ok (v, c')
      → (n ≤ length c.rest)
        × (v ≡ value c.rest)
        × (c' ≡ record { rest = drop n c.rest; pos = c.pos + n })
  unfolding read_number
  read_number-eq-ok c h = ground arith

pub read_bytes-eq-ok :
    (underrun : String) (n : ℕ) (c : Cursor) {bytes : List ℕ} {c' : Cursor}
    → read_bytes underrun n c ≡ ok (bytes, c')
    → (n ≤ length c.rest)
      × (bytes ≡ take n c.rest)
      × (c' ≡ record { rest = drop n c.rest; pos = c.pos + n })
unfolding read_bytes
read_bytes-eq-ok underrun n c h = ground arith

-- More bytes behind a list of `n` at least: the test of `check_bounds` passes still.
still_enough : (n : ℕ) (xs more : List ℕ) → n ≤ length xs → ltb (length (xs ++ more)) n ≡ false
still_enough n xs more h = let e = length-append xs more in ground arith

pub Extends-read_bytes : (underrun : String) (n : ℕ) → Extends (read_bytes underrun n)
unfolding read_bytes
Extends-read_bytes underrun n = record {
  run = λ c more h.
      let (fits, e, e') = read_bytes-eq-ok underrun n c h in
      rw (still_enough n c.rest more fits, read_bytes, check_bounds)
        (rw (take_more n c.rest more fits, drop_more n c.rest more fits, e, e') refl);
}

-- A number is read off its own bytes.
pub Extends-read_number :
    (underrun : String) (n : ℕ) (value : List ℕ → ℕ)
    → ((xs more : List ℕ) → n ≤ length xs → value (xs ++ more) ≡ value xs)
    → Extends (read_number underrun n value)
unfolding read_number
Extends-read_number underrun n value local = record {
  run = λ c more h.
      let (fits, e, e') = read_number-eq-ok underrun n value c h in
      rw (still_enough n c.rest more fits, read_number, check_bounds)
        (rw (local c.rest more fits, drop_more n c.rest more fits, e, e') refl);
}

first_byte_local : (xs more : List ℕ) → 1 ≤ length xs → first_byte (xs ++ more) ≡ first_byte xs
first_byte_local [] more h = absurd (omega arith)
first_byte_local (x ∷ xs) more h = refl

read_u16_le_local : (xs more : List ℕ) → 2 ≤ length xs → read_u16_le (xs ++ more) ≡ read_u16_le xs
unfolding read_u16_le
read_u16_le_local (a ∷ b ∷ xs) more h = refl
read_u16_le_local [] more h = absurd (omega arith)
read_u16_le_local (a ∷ []) more h = absurd (omega arith)

read_u32_le_local : (xs more : List ℕ) → 4 ≤ length xs → read_u32_le (xs ++ more) ≡ read_u32_le xs
unfolding read_u32_le
read_u32_le_local (a ∷ b ∷ c ∷ d ∷ xs) more h = refl
read_u32_le_local [] more h = absurd (omega arith)
read_u32_le_local (a ∷ []) more h = absurd (omega arith)
read_u32_le_local (a ∷ b ∷ []) more h = absurd (omega arith)
read_u32_le_local (a ∷ b ∷ c ∷ []) more h = absurd (omega arith)

read_u64_le_local : (xs more : List ℕ) → 8 ≤ length xs → read_u64_le (xs ++ more) ≡ read_u64_le xs
unfolding read_u64_le
read_u64_le_local (a ∷ b ∷ c ∷ d ∷ e ∷ f ∷ g ∷ h ∷ xs) more le = refl
read_u64_le_local [] more le = absurd (omega arith)
read_u64_le_local (a ∷ []) more le = absurd (omega arith)
read_u64_le_local (a ∷ b ∷ []) more le = absurd (omega arith)
read_u64_le_local (a ∷ b ∷ c ∷ []) more le = absurd (omega arith)
read_u64_le_local (a ∷ b ∷ c ∷ d ∷ []) more le = absurd (omega arith)
read_u64_le_local (a ∷ b ∷ c ∷ d ∷ e ∷ []) more le = absurd (omega arith)
read_u64_le_local (a ∷ b ∷ c ∷ d ∷ e ∷ f ∷ []) more le = absurd (omega arith)
read_u64_le_local (a ∷ b ∷ c ∷ d ∷ e ∷ f ∷ g ∷ []) more le = absurd (omega arith)

pub Extends-read_u8 : (underrun : String) → Extends (read_u8 underrun)
unfolding read_u8
Extends-read_u8 underrun = Extends-read_number underrun 1 first_byte first_byte_local

pub Extends-read_u16 : (underrun : String) → Extends (read_u16 underrun)
unfolding read_u16
Extends-read_u16 underrun = Extends-read_number underrun 2 read_u16_le read_u16_le_local

pub Extends-read_u32 : (underrun : String) → Extends (read_u32 underrun)
unfolding read_u32
Extends-read_u32 underrun = Extends-read_number underrun 4 read_u32_le read_u32_le_local

pub Extends-read_u64 : (underrun : String) → Extends (read_u64 underrun)
unfolding read_u64
Extends-read_u64 underrun = Extends-read_number underrun 8 read_u64_le read_u64_le_local

pub ruleset extends_rules = (
  Extends-bind, Extends-then, Extends-pure, Extends-if, Extends-throw_when, Extends-read_bytes,
  Extends-read_u8, Extends-read_u16, Extends-read_u32, Extends-read_u64,
)

pub Extends-read_sized :
    (underrun : String) (limit : Option ℕ) (message : String)
    → Extends (read_sized underrun limit message)
unfolding read_sized
Extends-read_sized underrun limit message = search extends_rules depth 8
