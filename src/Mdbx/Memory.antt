-- ===== src/Mdbx/Memory.antt =====
-- A database in memory that has the documented behaviour: the assumptions on libmdbx can be met.
use mdbx_containers.Prelude.{
  ◌≡◌, refl, Bool, true, false, ◌&&◌, List, [], ◌∷◌, bytes_eq, bytes_eq_iff, if◌then◌else◌,
  ReturnCode, not_found, key_exist, arith, ap, ◌∙◌, ◌⊎◌, inl, inr, ◌↔◌, some,
}
use mdbx_containers.NodeId.{compare_bytes}
use mdbx_containers.Entries.{is_less, lookup, place, IsSorted}
use mdbx_containers.Entries.Order.{lookup-place, place-IsSorted}
use mdbx_containers.Mdbx.{Bytes, Call, done, failed, Mdbx, IsMdbx}

abbrev pub Record : Type 0
Record = Bytes × Bytes × Bytes

unfoldable pub find : Bytes → Bytes → List Record → Call Bytes
find n k [] = failed not_found
find n k ((m, j, v) ∷ l) = if bytes_eq m n && bytes_eq j k then done v else find n k l

-- In front of the first record of the table with a greater key, or in place of that with the same.
unfoldable pub insert : Bytes → Bytes → Bytes → List Record → List Record
insert n k v [] = (n, k, v) ∷ []
insert n k v ((m, j, w) ∷ l) =
    let rest = insert n k v l in
    if bytes_eq n m && bytes_eq k j
    then (n, k, v) ∷ l
    else if bytes_eq n m && is_less (compare_bytes k j)
    then (n, k, v) ∷ (m, j, w) ∷ l
    else (m, j, w) ∷ rest

unfoldable pub without : Bytes → Bytes → List Record → List Record
without n k [] = []
without n k ((m, j, v) ∷ l) =
    let rest = without n k l in if bytes_eq n m && bytes_eq k j then rest else (m, j, v) ∷ rest

unfoldable pub without_table : Bytes → List Record → List Record
without_table n [] = []
without_table n ((m, j, v) ∷ l) =
    let rest = without_table n l in if bytes_eq n m then rest else (m, j, v) ∷ rest

-- Every record at its place; the first record with a key is put in last.
unfoldable pub table : Bytes → List Record → List (Bytes × Bytes)
unfolding place
table n [] = []
table n ((m, j, v) ∷ l) = let rest = table n l in if bytes_eq n m then place j v rest else rest

find-insert :
    (n k v m j : Bytes) (l : List Record)
    → find m j (insert n k v l) ≡ (if bytes_eq n m && bytes_eq k j then done v else find m j l)
unfolding find insert
find-insert n k v m j [] = refl
find-insert n k v m j ((n', k', w) ∷ l) = ground (
  arith,
  find-insert n k v m j l,
  bytes_eq_iff n n',
  bytes_eq_iff k k',
  bytes_eq_iff n m,
  bytes_eq_iff k j,
  bytes_eq_iff n' m,
  bytes_eq_iff k' j,
)

find-without :
    (n k m j : Bytes) (l : List Record)
    → find m j (without n k l)
      ≡ (if bytes_eq n m && bytes_eq k j then failed not_found else find m j l)
unfolding find without
find-without n k m j [] = ground arith
find-without n k m j ((n', k', w) ∷ l) = ground (
  arith,
  find-without n k m j l,
  bytes_eq_iff n n',
  bytes_eq_iff k k',
  bytes_eq_iff n m,
  bytes_eq_iff k j,
  bytes_eq_iff n' m,
  bytes_eq_iff k' j,
)

find-without_table :
    (n m j : Bytes) (l : List Record)
    → find m j (without_table n l) ≡ (if bytes_eq n m then failed not_found else find m j l)
unfolding find without_table
find-without_table n m j [] = ground arith
find-without_table n m j ((n', k', w) ∷ l) =
    ground
      (arith, find-without_table n m j l, bytes_eq_iff n n', bytes_eq_iff n m, bytes_eq_iff n' m)

unfoldable pub put_new : Bytes → Bytes → Bytes → List Record → Call (List Record)
unfolding find insert
put_new n k v t = elim (find n k t) [
  | done w ↦ failed key_exist
  | failed rc ↦ done (insert n k v t)
]

unfoldable pub del : Bytes → Bytes → List Record → Call (List Record)
unfolding find without
del n k t = elim (find n k t) [ done w ↦ done (without n k t) | failed rc ↦ failed not_found ]

lookup-table :
    (n k v : Bytes) (l : List Record) → (find n k l ≡ done v) ↔ (lookup k (table n l) ≡ some v)
unfolding find table lookup
lookup-table n k v [] = (λ h. cc, λ h. cc)
lookup-table n k v ((m, j, w) ∷ l) = ground (
  arith,
  lookup-table n k v l,
  lookup-place j w k (table n l),
  bytes_eq_iff n m,
  bytes_eq_iff m n,
)

table-IsSorted : (n : Bytes) (l : List Record) → IsSorted compare_bytes (table n l)
unfolding table
table-IsSorted n [] = tt
table-IsSorted n ((m, j, w) ∷ l) = go (bytes_eq n m) (table-IsSorted n l)
  where
    go :
        (b : Bool)
        → IsSorted compare_bytes (table n l)
        → IsSorted compare_bytes (if b then place j w (table n l) else table n l)
    go true s = place-IsSorted j w (table n l) s
    go false s = s

-- Tables exist as soon as they are opened, and have no flags.
unfoldable pub memory : Mdbx
unfolding find insert without without_table table put_new del
memory = record {
  Txn = List Record;
  create_flag = 0x40000;
  accede_flag = 0x40000000;
  reverse_key = 0x02;
  dup_sort = 0x04;
  integer_key = 0x08;
  dup_fixed = 0x10;
  integer_dup = 0x20;
  reverse_dup = 0x40;
  dbi_open = λ n flags t. done t;
  dbi_flags = λ n t. done 0;
  get = find;
  put = λ n k v t. done (insert n k v t);
  put_new = put_new;
  del = del;
  clear = λ n t. done (without_table n t);
  cmp = λ n t. compare_bytes;
  entries = table;
}

find_failure :
    (n k : Bytes) (t : List Record) (rc : ReturnCode) → find n k t ≡ failed rc → rc ≡ not_found
unfolding find
find_failure n k [] rc h = cc
find_failure n k ((m, j, v) ∷ l) rc h = ground (arith, find_failure n k l rc)

Call-cases : (c : Call Bytes) → ((v : Bytes) × (c ≡ done v)) ⊎ ((rc : ReturnCode) × (c ≡ failed rc))
Call-cases (done v) = inl (v, refl)
Call-cases (failed rc) = inr (rc, refl)

put_new_fresh :
    (n k v : Bytes) (t t' : List Record) → put_new n k v t ≡ done t' → find n k t ≡ failed not_found
unfolding put_new
put_new_fresh n k v t t' h = elim (Call-cases (find n k t)) [
  | inl (w, e) ↦ cc (rw (e, put_new) at h)
  | inr (rc, e) ↦ e ∙ ap failed (find_failure n k t rc e)
]

put_new_taken :
    (n k v : Bytes) (t : List Record)
    → put_new n k v t ≡ failed key_exist
    → (w : Bytes) × (find n k t ≡ done w)
unfolding put_new
put_new_taken n k v t h = elim (Call-cases (find n k t)) [
  | inl (w, e) ↦ (w, e)
  | inr (rc, e) ↦ cc (rw (e, put_new) at h)
]

del_fresh :
    (n k : Bytes) (t : List Record) → del n k t ≡ failed not_found → find n k t ≡ failed not_found
unfolding del
del_fresh n k t h = elim (Call-cases (find n k t)) [
  | inl (w, e) ↦ cc (rw (e, del) at h)
  | inr (rc, e) ↦ e ∙ ap failed (find_failure n k t rc e)
]

del_there :
    (n k : Bytes) (t t' : List Record) → del n k t ≡ done t' → (w : Bytes) × (find n k t ≡ done w)
unfolding del
del_there n k t t' h = elim (Call-cases (find n k t)) [
  | inl (w, e) ↦ (w, e)
  | inr (rc, e) ↦ cc (rw (e, del) at h)
]

pub memory-IsMdbx : IsMdbx memory
unfolding memory
memory-IsMdbx = record {
  get-put = λ n k v t t' m j h. ground (arith, find-insert n k v m j t);
  get-put_new = λ n k v t t' m j h. ground (arith, find-insert n k v m j t);
  put_new_once = λ n k v t t' h. put_new_fresh n k v t t' h;
  put_new_exists = λ n k v t h. put_new_taken n k v t h;
  get-del = λ n k t t' m j h. ground (arith, find-without n k m j t);
  del_missing = λ n k t h. del_fresh n k t h;
  del_exists = λ n k t t' h. del_there n k t t' h;
  get-clear = λ n t t' m j h. ground (arith, find-without_table n m j t);
  get-dbi_open = λ n flags t t' m j h. ground arith;
  cmp-dbi_flags = λ n t h. refl;
  dbi_flags-del = λ n k t t' m h. refl;
  get-entries = λ n k t v. lookup-table n k v t;
  entries-IsSorted = λ n t. table-IsSorted n t;
}
