-- ===== src/Stores/ChangeLog/Prune.antt =====
-- include/mdbx_containers/sync/stores/ChangeLogStore.hpp: what `prune_up_to` removes.
use mdbx_containers.Prelude.{
  ℕ, ◌+◌, ◌≡◌, refl, ap, ◌∙◌, subst, Bool, true, false, not, ◌&&◌, Option, none, some, List, [],
  ◌∷◌, length, ok, arith, bytes_eq, bytes_eq_iff, bytes_eq_refl, if◌then◌else◌, Bool-cases,
  not_found, All, All-map, Option-cases, inl, inr, leb,
}
use mdbx_containers.Bytes.{IsU64}
use mdbx_containers.NodeId.{NodeId, less, greater, compare_bytes}
use mdbx_containers.NodeId.Laws.{compare_bytes_refl, compare_bytes-flip, compare_bytes_trans, flip}
use mdbx_containers.Entries.{Entry, is_greater, is_less, seek, lookup, IsSorted}
use mdbx_containers.Mdbx.{Bytes, Mdbx, IsMdbx, Call, done, failed}
use mdbx_containers.Stores.ChangeLog.{
  ChangeLogStore, prune_loop, prune_up_to, get, encode_key, ensure_ready,
}
use mdbx_containers.Stores.{ensure_open}
use mdbx_containers.Stateful.{throw_when, ◌>>◌}
use mdbx_containers.Entries.Order.{
  lookup-seek, All-seek, IsSorted-seek, IsSorted-lookup, Comparison-cases,
}
use mdbx_containers.Stores.ChangeLog.Reads.{get_same, get_missing, get-found}
use mdbx_containers.Stores.ChangeLog.Keys.{encode_key_order}

-- A key that the loop goes on to remove.
abbrev pub in_reach : Bytes → Bytes → Bool
in_reach hi k = not (is_greater (compare_bytes k hi))

module _ (db : Mdbx) (laws : IsMdbx db) (n hi : Bytes) where
  -- The records, each with the value that the table holds.
  abbrev pub Holds : db.Txn → List Entry → Type 0
  Holds t l = All (λ e. db.get n e.0 t ≡ done e.1) l

  -- The records of the table that come after the first are not the first.
  Holds-del :
      (k : Bytes) (t t' : db.Txn) (l : List Entry)
      → db.del n k t ≡ done t'
      → All (λ e. compare_bytes k e.0 ≡ less) l
      → Holds t l
      → Holds t' l
  Holds-del k t t' [] h a b = tt
  Holds-del k t t' ((j, v) ∷ l) h a b = (
    ground (arith, laws.get-del n k t t' n j h, compare_bytes_refl k, bytes_eq_iff k j),
    Holds-del k t t' l h a.1 b.1,
  )

  -- Is a key one of the records' keys?
  abbrev pub has : Bytes → List Entry → Bool
  has j l = elim (lookup j l) [ none ↦ false | some v ↦ true ]

  has-after :
      (k j : Bytes) (l : List Entry)
      → All (λ e. compare_bytes k e.0 ≡ less) l
      → has j l ≡ true
      → compare_bytes k j ≡ less
  unfolding lookup
  has-after k j [] a h = cc
  has-after k j ((i, w) ∷ l) a h = ground (arith, has-after k j l a.1, bytes_eq_iff i j, a.0)

  has-out_of_reach :
      (k j : Bytes) (l : List Entry)
      → All (λ e. compare_bytes k e.0 ≡ less) l
      → compare_bytes k hi ≡ greater
      → has j l ≡ true
      → in_reach hi j ≡ false
  has-out_of_reach k j l a g h =
      let before = compare_bytes-flip k hi ∙ ap flip g in
      let after = compare_bytes_trans hi k j before (has-after k j l a h) in
      rw (compare_bytes-flip hi j ∙ ap flip after) refl

  -- The loop goes on: the record is there, so its deletion succeeded.
  prune_loop-next :
      (k v : Bytes) (l : List Entry) (removed : ℕ) (t t' : db.Txn) (count : ℕ)
      → length k ≡ 24
      → is_greater (db.cmp n t k hi) ≡ false
      → db.get n k t ≡ done v
      → prune_loop db n hi ((k, v) ∷ l) removed t ≡ ok (count, t')
      → (t1 : db.Txn) × (db.del n k t ≡ done t1)
        × (prune_loop db n hi l (removed + 1) t1 ≡ ok (count, t'))
  unfolding prune_loop
  prune_loop-next k v l removed t t' count size go_on held h = go (db.del n k t) refl
    where
      go :
          (c : Call db.Txn)
          → db.del n k t ≡ c
          → (t1 : db.Txn) × (db.del n k t ≡ done t1)
            × (prune_loop db n hi l (removed + 1) t1 ≡ ok (count, t'))
      go (done t1) e = (t1, e, ground arith)
      go (failed rc) e = absurd (ground (arith, laws.del_missing n k t))

  pub get-prune_loop :
      (l : List Entry) (removed : ℕ) (t t' : db.Txn) (count : ℕ) (j : Bytes)
      → db.dbi_flags n t ≡ done 0
      → All (λ e. length e.0 ≡ 24) l
      → IsSorted compare_bytes l
      → Holds t l
      → prune_loop db n hi l removed t ≡ ok (count, t')
      → db.get n j t' ≡ (if has j l && in_reach hi j then failed not_found else db.get n j t)
  unfolding prune_loop lookup
  get-prune_loop [] removed t t' count j flags size sorted holds h = ground arith
  get-prune_loop ((k, v) ∷ l) removed t t' count j flags size sorted holds h =
      let order = ap (λ cmp. cmp k hi) (laws.cmp-dbi_flags n t flags) in
      elim (Bool-cases (is_greater (compare_bytes k hi))) [
        | inl stop ↦ ground (arith, order, has-out_of_reach k j l sorted.0, bytes_eq_iff k j)
        | inr go_on ↦
            let (t1, deleted, rest) =
              prune_loop-next k v l removed t t' count size.0 (ap is_greater order ∙ go_on) holds.0
                h in
            ground (
              arith,
              get-prune_loop l (removed + 1) t1 t' count j
                  (laws.dbi_flags-del n k t t1 n deleted ∙ flags) size.1 sorted.1
                  (Holds-del k t t1 l deleted sorted.0 holds.1) rest,
              laws.get-del n k t t1 n j deleted,
              bytes_eq_refl n,
              bytes_eq_iff k j,
            )
      ]

-- The keys from number 0 to `up_to` of an origin.
in_range :
    (origin other : NodeId) (up_to seq : ℕ)
    → length origin ≡ 16
    → length other ≡ 16
    → IsU64 up_to
    → IsU64 seq
    → (not (is_less (compare_bytes (encode_key other seq) (encode_key origin 0)))
        && in_reach (encode_key origin up_to) (encode_key other seq))
      ≡ (bytes_eq origin other && leb seq up_to)
in_range origin other up_to seq l lo u so =
    let low = encode_key_order other origin seq 0 lo l so (omega arith) in
    let high = encode_key_order other origin seq up_to lo l so u in
    ground (
      arith,
      low,
      high,
      Comparison-cases other origin,
      compare_bytes_refl origin,
      bytes_eq_iff origin other,
    )

module _ (db : Mdbx) (laws : IsMdbx db) (s : ChangeLogStore) where
  prune_up_to-loop :
      (origin : NodeId) (up_to : ℕ) (t t' : db.Txn) (count : ℕ)
      → prune_up_to db s origin up_to t ≡ ok (count, t')
      → prune_loop db s.log.dbi_name
          (encode_key origin up_to)
          (seek (db.cmp s.log.dbi_name t) (encode_key origin 0) (db.entries s.log.dbi_name t))
          0
          t
        ≡ ok (count, t')
  unfolding prune_up_to ensure_ready ensure_open throw_when ◌>>◌
  prune_up_to-loop origin up_to t t' count h = ground arith

  -- `prune_up_to`, when it returns on a changelog without flags whose keys have 24 bytes, removes the records of its
  -- origin with a number up to `up_to`, and no other: what `get` read of any batch before, it reads after,
  -- or nothing where the batch was in that range. Origins have 16 bytes and numbers 64 bits.
  pub get-prune_up_to :
      (origin : NodeId) (up_to : ℕ) (t t' : db.Txn) (count : ℕ)
      → db.dbi_flags s.log.dbi_name t ≡ done 0
      → All (λ e. length e.0 ≡ 24) (db.entries s.log.dbi_name t)
      → length origin ≡ 16
      → IsU64 up_to
      → prune_up_to db s origin up_to t ≡ ok (count, t')
      → (other : NodeId) (seq : ℕ) (found : Option Bytes) → length other ≡ 16
      → IsU64 seq
      → get db s other seq t ≡ ok (found, t)
      → get db s other seq t'
        ≡ ok ((if bytes_eq origin other && leb seq up_to then none else found), t')
  get-prune_up_to origin up_to t t' count flags size l u h other seq found lo so g =
      let n = s.log.dbi_name in
      let order = laws.cmp-dbi_flags n t flags in
      let all = db.entries n t in
      let sorted = subst (λ cmp. IsSorted cmp all) order (laws.entries-IsSorted n t) in
      let lo_key = encode_key origin 0 in
      let j = encode_key other seq in
      let holds : All (λ e. db.get n e.0 t ≡ done e.1) all =
        All-map (λ e. lookup e.0 all ≡ some e.1) (λ e. db.get n e.0 t ≡ done e.1)
          (λ e f. (laws.get-entries n e.0 t e.1).1 f) all (IsSorted-lookup all sorted) in
      let got =
        get-prune_loop db laws n (encode_key origin up_to) (seek compare_bytes lo_key all) 0 t t'
          count j flags (All-seek _ compare_bytes lo_key all size)
          (IsSorted-seek compare_bytes lo_key all sorted)
          (All-seek _ compare_bytes lo_key all holds)
          (subst
            (λ cmp.
              prune_loop db n (encode_key origin up_to) (seek cmp lo_key all) 0 t ≡ ok (count, t'))
            order (prune_up_to-loop origin up_to t t' count h)) in
      let range = in_range origin other up_to seq l lo u so in
      let seeked = lookup-seek lo_key j all sorted in
      elim (Option-cases (lookup j all)) [
        | inl e ↦
            let nothing : found ≡ none = elim (Option-cases found) [
              | inl f ↦ f
              | inr (v, f) ↦
                  let held = get-found db s other seq t v (g ∙ ap (λ r. ok (r, t)) f) in
                  absurd (ground (arith, (laws.get-entries n j t v).0 held))
            ] in
            let same_record : db.get n j t' ≡ db.get n j t = ground arith in
            ground (arith, get_same db s other seq t t' found same_record g)
        | inr (v, e) ↦
            let held = (laws.get-entries n j t v).1 e in
            ground
              (arith, get_same db s other seq t t' found, get_missing db s other seq t t' found)
      ]
