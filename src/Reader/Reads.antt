-- ===== src/Reader/Reads.antt =====
-- `Reads m bytes a`: in front of any rest, `m` takes exactly `bytes` and returns `a`. One rule for each
-- way to build a read; they carry the round trips of the codecs.
use mdbx_containers.Prelude.{
  ℕ, ◌+◌, ◌^◌, ◌≤◌, ◌<◌, ◌≡◌, refl, ap, String, Bool, false, Option, none, some, List, [], ◌∷◌,
  ◌++◌, append_assoc, append-nil, ltb, length, length-append, take-append, drop-append, Exception,
  ok, arith,
}
use mdbx_containers.Bytes.{IsU32, IsU64, write_u16_le, write_u32_le, write_u64_le}
use mdbx_containers.Bytes.Words.{
  read-write_u16, read-write_u32, read-write_u64_le, length-write_u16_le, length-write_u32_le,
  length-write_u64_le,
}
use mdbx_containers.Reader.{
  Cursor, Read, ◌>>=◌, ◌>>◌, pure, throw_when, check_bounds, read_bytes, read_number, read_u8,
  read_u16, read_u32, read_u64, read_sized,
}

abbrev pub at : List ℕ → ℕ → Cursor
at rest pos = record { rest = rest; pos = pos }

pub record Reads {A : Type 0} (m : Read A) (bytes : List ℕ) (a : A) : Type 0 where
  pub run :
      (rest : List ℕ) (pos : ℕ) → m (at (bytes ++ rest) pos) ≡ ok (a, at rest (pos + length bytes))

module _ {A B : Type 0} where
  pub Reads-bind :
      (m : Read A) (f : A → Read B) {xs ys : List ℕ} {a : A} {b : B}
      → Reads m xs a
      → Reads (f a) ys b
      → Reads (m >>= f) (xs ++ ys) b
  unfolding ◌>>=◌
  Reads-bind m f {xs} {ys} {a} {b} hm hf = record {
    run = λ rest pos.
        let e : (xs ++ ys) ++ rest ≡ xs ++ (ys ++ rest) = append_assoc xs ys rest in
        let l : pos + length (xs ++ ys) ≡ pos + length xs + length ys =
          omega (arith, length-append xs ys) in
        rw (e, l) (rw (hm.run (ys ++ rest) pos, ◌>>=◌) (hf.run rest (pos + length xs)));
  }

  -- The rest of the block takes no byte.
  pub Reads-last :
      (m : Read A) (f : A → Read B) {xs : List ℕ} {a : A} {b : B}
      → Reads m xs a
      → Reads (f a) [] b
      → Reads (m >>= f) xs b
  Reads-last m f {xs} hm hf = let r = Reads-bind m f hm hf in rw (append-nil xs) at r

module _ {B : Type 0} where
  pub Reads-then :
      (m : Read (Unit {0})) (k : Read B) {xs ys : List ℕ} {b : B}
      → Reads m xs tt
      → Reads k ys b
      → Reads (m >> k) (xs ++ ys) b
  unfolding ◌>>◌
  Reads-then m k {xs} {ys} {b} hm hk = record {
    run = λ rest pos.
        let e : (xs ++ ys) ++ rest ≡ xs ++ (ys ++ rest) = append_assoc xs ys rest in
        let l : pos + length (xs ++ ys) ≡ pos + length xs + length ys =
          omega (arith, length-append xs ys) in
        rw (e, l) (rw (hm.run (ys ++ rest) pos, ◌>>◌) (hk.run rest (pos + length xs)));
  }

  -- A guard that does not throw.
  pub Reads-guard :
      (wrong : Bool) (e : Exception) (k : Read B) {ys : List ℕ} {b : B}
      → wrong ≡ false
      → Reads k ys b
      → Reads (throw_when wrong e >> k) ys b
  unfolding ◌>>◌ throw_when
  Reads-guard wrong e k h hk = record {
    run = λ rest pos. rw (h, ◌>>◌, throw_when) (hk.run rest pos);
  }

  pub Reads-pure : (b : B) → Reads (pure b) [] b
  unfolding pure
  Reads-pure b = record { run = λ rest pos. ap (λ p. ok (b, at rest p)) (omega arith) }

pub Reads-pass : (wrong : Bool) (e : Exception) → wrong ≡ false → Reads (throw_when wrong e) [] tt
unfolding throw_when
Reads-pass wrong e h = record {
  run = λ rest pos. rw (h, throw_when) (ap (λ p. ok (tt, at rest p)) (omega arith));
}

enough : (xs rest : List ℕ) → ltb (length (xs ++ rest)) (length xs) ≡ false
enough xs rest = let e = length-append xs rest in ground arith

-- The limit, where there is one, admits the size.
abbrev pub Within : Option ℕ → ℕ → Type 0
Within none size = Unit
Within (some most) size = size ≤ most

pub Within-test :
    (limit : Option ℕ) (size : ℕ)
    → Within limit size
    → (elim limit [ none ↦ false | some most ↦ ltb most size ]) ≡ false
Within-test none size h = refl
Within-test (some most) size h = ground arith

module _ (underrun : String) where
  pub read_bytes-Reads : (xs : List ℕ) (n : ℕ) → length xs ≡ n → Reads (read_bytes underrun n) xs xs
  unfolding read_bytes
  read_bytes-Reads xs n h = record {
    run = λ rest pos. rw (← h) (
        rw (enough xs rest, read_bytes, check_bounds)
          (rw (take-append xs rest, drop-append xs rest)));
  }

  read_number-Reads :
      (n : ℕ) (value : List ℕ → ℕ) (xs : List ℕ) (v : ℕ)
      → length xs ≡ n
      → ((rest : List ℕ) → value (xs ++ rest) ≡ v)
      → Reads (read_number underrun n value) xs v
  unfolding read_number
  read_number-Reads n value xs v h hv = record {
    run = λ rest pos.
        rw (← h)
          (rw (enough xs rest, read_number, check_bounds) (rw (hv rest, drop-append xs rest)));
  }

  pub read_u8-Reads : (v : ℕ) → Reads (read_u8 underrun) (v ∷ []) v
  unfolding read_u8
  read_u8-Reads v = read_number-Reads 1 _ (v ∷ []) v refl (λ rest. refl)

  pub read_u16-Reads : (v : ℕ) → v < 2 ^ 16 → Reads (read_u16 underrun) (write_u16_le v) v
  unfolding read_u16
  read_u16-Reads v h =
      read_number-Reads 2 _ (write_u16_le v) v (length-write_u16_le v)
        (λ rest. read-write_u16 v rest h)

  pub read_u32-Reads : (v : ℕ) → IsU32 v → Reads (read_u32 underrun) (write_u32_le v) v
  unfolding read_u32
  read_u32-Reads v h =
      read_number-Reads 4 _ (write_u32_le v) v (length-write_u32_le v)
        (λ rest. read-write_u32 v rest h)

  pub read_u64-Reads : (v : ℕ) → IsU64 v → Reads (read_u64 underrun) (write_u64_le v) v
  unfolding read_u64
  read_u64-Reads v h =
      read_number-Reads 8 _ (write_u64_le v) v (length-write_u64_le v)
        (λ rest. read-write_u64_le v rest h)

  pub read_sized-Reads :
      (limit : Option ℕ) (message : String) (xs : List ℕ)
      → IsU32 (length xs)
      → Within limit (length xs)
      → Reads (read_sized underrun limit message) (write_u32_le (length xs) ++ xs) xs
  unfolding read_sized
  read_sized-Reads limit message xs h w =
      Reads-bind _ _ (read_u32-Reads (length xs) h)
        (Reads-guard _ _ _ (Within-test limit (length xs) w) (read_bytes-Reads xs (length xs) refl))
