-- ===== src/Mdbx.antt =====
-- libmdbx, as far as the sync layer calls it: a parameter of the model. A table (DBI) is named by the
-- bytes of its name; the handle of a table is its name. `Txn` is what a transaction sees. A function that
-- writes returns the transaction after it, or a return code other than success.
pub mod Keeps
pub mod Ends
pub mod Memory
use mdbx_containers.Prelude.{
  ℕ, ◌≡◌, bit_or, bit_and, Bool, true, false, ◌&&◌, List, [], ◌∷◌, map, bytes_eq, if◌then◌else◌,
  ReturnCode, not_found, key_exist, eaccess, Exception, mdbx_exception, String, ok, throw, Result,
  some, ◌↔◌, ◌==◌,
}
use mdbx_containers.NodeId.{Comparison, compare_bytes}
use mdbx_containers.Entries.{lookup, IsSorted}
use mdbx_containers.Stateful.{Stateful}

abbrev pub Bytes : Type 0
Bytes = List ℕ

-- What a call returns through its out parameter on success, or its return code.
pub data Call {ℓ} (A : Type ℓ) : Type ℓ where
  done : A → Call A
  failed : ReturnCode → Call A

pub record Mdbx : Type 1 where
  pub Txn : Type 0
  -- flags of mdbx.h
  pub create_flag : ℕ
  pub accede_flag : ℕ
  pub reverse_key : ℕ
  pub dup_sort : ℕ
  pub integer_key : ℕ
  pub dup_fixed : ℕ
  pub integer_dup : ℕ
  pub reverse_dup : ℕ
  -- `mdbx_dbi_open`, and `mdbx_dbi_flags` of an open table
  pub dbi_open : Bytes → ℕ → Txn → Call Txn
  pub dbi_flags : Bytes → Txn → Call ℕ
  -- `mdbx_get`
  pub get : Bytes → Bytes → Txn → Call Bytes
  -- `mdbx_put` with MDBX_UPSERT and with MDBX_NOOVERWRITE
  pub put : Bytes → Bytes → Bytes → Txn → Call Txn
  pub put_new : Bytes → Bytes → Bytes → Txn → Call Txn
  -- `mdbx_del` with no value
  pub del : Bytes → Bytes → Txn → Call Txn
  -- `mdbx_drop(…, 0)`
  pub clear : Bytes → Txn → Call Txn
  -- `mdbx_cmp`: the order of the keys of a table
  pub cmp : Bytes → Txn → Bytes → Bytes → Comparison
  -- what a cursor of the table visits from MDBX_FIRST on by MDBX_NEXT. Where a cursor deletes the record
  -- that it is at (`mdbx_cursor_del` with MDBX_CURRENT), the model calls `del` with the record's key.
  pub entries : Bytes → Txn → List (Bytes × Bytes)

-- The documented behaviour that the theorems use, for tables without MDBX_DUPSORT. A table that does not
-- exist holds no key.
pub record IsMdbx (db : Mdbx) : Type 0 where
  pub get-put :
      (n k v : Bytes) (t t' : db.Txn) (m j : Bytes)
      → db.put n k v t ≡ done t'
      → db.get m j t' ≡ (if bytes_eq n m && bytes_eq k j then done v else db.get m j t)
  pub get-put_new :
      (n k v : Bytes) (t t' : db.Txn) (m j : Bytes)
      → db.put_new n k v t ≡ done t'
      → db.get m j t' ≡ (if bytes_eq n m && bytes_eq k j then done v else db.get m j t)
  pub put_new_once :
      (n k v : Bytes) (t t' : db.Txn)
      → db.put_new n k v t ≡ done t'
      → db.get n k t ≡ failed not_found
  pub put_new_exists :
      (n k v : Bytes) (t : db.Txn)
      → db.put_new n k v t ≡ failed key_exist
      → (w : Bytes) × (db.get n k t ≡ done w)
  pub get-del :
      (n k : Bytes) (t t' : db.Txn) (m j : Bytes)
      → db.del n k t ≡ done t'
      → db.get m j t' ≡ (if bytes_eq n m && bytes_eq k j then failed not_found else db.get m j t)
  pub del_missing :
      (n k : Bytes) (t : db.Txn) → db.del n k t ≡ failed not_found → db.get n k t ≡ failed not_found
  pub del_exists :
      (n k : Bytes) (t t' : db.Txn) → db.del n k t ≡ done t' → (w : Bytes) × (db.get n k t ≡ done w)
  pub get-clear :
      (n : Bytes) (t t' : db.Txn) (m j : Bytes)
      → db.clear n t ≡ done t'
      → db.get m j t' ≡ (if bytes_eq n m then failed not_found else db.get m j t)
  pub get-dbi_open :
      (n : Bytes) (flags : ℕ) (t t' : db.Txn) (m j : Bytes)
      → db.dbi_open n flags t ≡ done t'
      → db.get m j t' ≡ db.get m j t
  -- the keys of a table with no flag are in bytewise order
  pub cmp-dbi_flags :
      (n : Bytes) (t : db.Txn) → db.dbi_flags n t ≡ done 0 → db.cmp n t ≡ compare_bytes
  pub dbi_flags-del :
      (n k : Bytes) (t t' : db.Txn) (m : Bytes)
      → db.del n k t ≡ done t'
      → db.dbi_flags m t' ≡ db.dbi_flags m t
  pub get-entries :
      (n k : Bytes) (t : db.Txn) (v : Bytes)
      → (db.get n k t ≡ done v) ↔ (lookup k (db.entries n t) ≡ some v)
  pub entries-IsSorted : (n : Bytes) (t : db.Txn) → IsSorted (db.cmp n t) (db.entries n t)

module _ (db : Mdbx) where
  -- A method that takes a transaction.
  abbrev pub InTxn : Type 0 → Type 0
  InTxn = Stateful db.Txn

-- `check_mdbx(rc, context)` around a call that writes.
unfoldable pub check_write : {T : Type 0} → String → (T → Call T) → Stateful T (Unit {0})
check_write context call t = elim (call t) [
  | done t' ↦ ok (tt, t')
  | failed rc ↦ throw (mdbx_exception rc context)
]

-- `name.c_str()` as `mdbx_dbi_open` reads it: a C string ends at its first NUL.
unfoldable pub c_str : Bytes → Bytes
c_str [] = []
c_str (c ∷ dbi) = let rest = c_str dbi in if c == 0 then [] else c ∷ rest

-- A name in the source's spelling.
abbrev pub name : String → Bytes
name Prim.Native.String.[] = []
name (Prim.Native.String.◌∷◌ c s) = Prim.Native.Char.code c ∷ name s
