-- ===== src/Engine/PullMissing.antt =====
-- include/mdbx_containers/sync/engine/SyncEngine.hpp: the records of the changelog that a request lacks.
use mdbx_containers.Prelude.{
  ℕ, ◌+◌, ◌≤◌, ◌≡◌, refl, sym, ap, ◌∙◌, subst, Bool, true, false, ◌&&◌, if◌then◌else◌, List, [],
  ◌∷◌, ◌++◌, arith, length, take, drop, ltb, bytes_eq, bytes_eq_refl, All, append-nil, inl, inr,
}
use mdbx_containers.Bytes.{IsU64, read_u64_be}
use mdbx_containers.NodeId.{NodeId, less, greater, compare_node_id, compare_bytes}
use mdbx_containers.NodeId.Laws.{
  compare_bytes_refl, compare_bytes_trans, compare_node_id_refl, compare_node_id_same,
}
use mdbx_containers.NodeId.Numbers.{compare_numbers, lexicographic}
use mdbx_containers.Mdbx.{Bytes}
use mdbx_containers.Entries.{Entry, is_less, seek, IsSorted}
use mdbx_containers.Entries.Order.{Comparison-cases, All-seek, IsSorted-seek}
use mdbx_containers.Protocol.Batch.{ChangeBatch}
use mdbx_containers.Stores.ChangeLog.{encode_key}
use mdbx_containers.Stores.ChangeLog.Keys.{encode_key_order}
use mdbx_containers.Engine.PullLaws.{AreBatches, StopsAt, Delivered}

abbrev pub origin_of : Entry → NodeId
origin_of e = take 16 e.0

abbrev pub seq_of : Entry → ℕ
seq_of e = read_u64_be (drop 16 e.0)

-- The key of the record is that of an origin of 16 bytes and a number of 64 bits.
pub record IsLogged (e : Entry) : Type 0 where
  pub origin_fits : length (origin_of e) ≡ 16
  pub seq_fits : IsU64 (seq_of e)
  pub is_key : e.0 ≡ encode_key (origin_of e) (seq_of e)

-- The record is one of the origin with a number above `n`.
abbrev pub is_missing : NodeId → ℕ → Entry → Bool
is_missing origin n e = bytes_eq (origin_of e) origin && ltb n (seq_of e)

-- All such records, in the order of the keys.
abbrev pub missing : NodeId → ℕ → List Entry → List Entry
missing origin n [] = []
missing origin n (e ∷ l) =
    let rest = missing origin n l in if is_missing origin n e then e ∷ rest else rest

All-split : (P : Entry → Type 0) (xs ys : List Entry) → All P (xs ++ ys) → All P xs × All P ys
All-split P [] ys a = (tt, a)
All-split P (x ∷ xs) ys (here, rest) =
    let (left, right) = All-split P xs ys rest in ((here, left), right)

IsSorted-rest : (xs ys : List Entry) → IsSorted compare_bytes (xs ++ ys) → IsSorted compare_bytes ys
IsSorted-rest [] ys s = s
IsSorted-rest (x ∷ xs) ys s = IsSorted-rest xs ys s.1

entries_order :
    (e f : Entry)
    → IsLogged e
    → IsLogged f
    → compare_bytes e.0 f.0
      ≡ lexicographic
          (compare_bytes (origin_of e) (origin_of f))
          (compare_numbers (seq_of e) (seq_of f))
entries_order e f le lf =
    ap (λ k. compare_bytes k f.0) le.is_key
    ∙ ap (compare_bytes (encode_key (origin_of e) (seq_of e))) lf.is_key
    ∙ encode_key_order (origin_of e) (origin_of f) (seq_of e) (seq_of f) le.origin_fits
        lf.origin_fits le.seq_fits lf.seq_fits

abbrev NotBefore : Bytes → Entry → Type 0
NotBefore k e = is_less (compare_bytes e.0 k) ≡ false

module _ (origin : NodeId) (fits : length origin ≡ 16) where
  key_order :
      (m : ℕ) (e : Entry)
      → IsU64 m
      → IsLogged e
      → compare_bytes e.0 (encode_key origin m)
        ≡ lexicographic (compare_bytes (origin_of e) origin) (compare_numbers (seq_of e) m)
  key_order m e small logged =
      ap (λ k. compare_bytes k (encode_key origin m)) logged.is_key
      ∙ encode_key_order (origin_of e) origin (seq_of e) m logged.origin_fits fits logged.seq_fits
          small

  before-missing :
      (n m : ℕ) (e : Entry)
      → IsU64 m
      → m ≤ n + 1
      → IsLogged e
      → is_less (compare_bytes e.0 (encode_key origin m)) ≡ true
      → is_missing origin n e ≡ false
  before-missing n m e small near logged h = elim (Comparison-cases (origin_of e) origin) [
    | inl (c, differ) ↦ ground (arith, differ)
    | inr (inl equal) ↦ ground (
      arith,
      key_order m e small logged,
      ap (λ o. compare_bytes o origin) equal,
      compare_bytes_refl origin,
    )
    | inr (inr (c, differ)) ↦ ground (arith, differ)
  ]

  -- What MDBX_SET_RANGE passes over is not missing.
  pub missing-seek :
      (n m : ℕ) (l : List Entry)
      → IsU64 m
      → m ≤ n + 1
      → All IsLogged l
      → missing origin n l ≡ missing origin n (seek compare_bytes (encode_key origin m) l)
  unfolding seek
  missing-seek n m [] small near logged = refl
  missing-seek n m (e ∷ l) small near (logged, rest) =
      go (is_less (compare_bytes e.0 (encode_key origin m))) refl
        (missing-seek n m l small near rest)
    where
      go :
          (b : Bool)
          → is_less (compare_bytes e.0 (encode_key origin m)) ≡ b
          → missing origin n l ≡ missing origin n (seek compare_bytes (encode_key origin m) l)
          → missing origin n (e ∷ l)
            ≡ missing origin n (if b then seek compare_bytes (encode_key origin m) l else e ∷ l)
      go false h same_rest = refl
      go true h same_rest = rw (before-missing n m e small near logged h) same_rest

  after-NotBefore :
      (k : Bytes) (e : Entry) (l : List Entry)
      → NotBefore k e
      → All (λ f. compare_bytes e.0 f.0 ≡ less) l
      → All (NotBefore k) l
  after-NotBefore k e [] h a = tt
  after-NotBefore k e (f ∷ l) h (first, rest) =
      (ground (arith, compare_bytes_trans e.0 f.0 k), after-NotBefore k e l h rest)

  seek-NotBefore :
      (k : Bytes) (l : List Entry)
      → IsSorted compare_bytes l
      → All (NotBefore k) (seek compare_bytes k l)
  unfolding seek
  seek-NotBefore k [] sorted = tt
  seek-NotBefore k (e ∷ l) sorted =
      go (is_less (compare_bytes e.0 k)) refl (seek-NotBefore k l sorted.1)
    where
      go :
          (b : Bool)
          → is_less (compare_bytes e.0 k) ≡ b
          → All (NotBefore k) (seek compare_bytes k l)
          → All (NotBefore k) (if b then seek compare_bytes k l else e ∷ l)
      go true h rest = rest
      go false h rest = (h, after-NotBefore k e l h sorted.0)

  -- The records that the walk took.
  missing-taken :
      (n : ℕ) (got : List Entry) (batches : List ChangeBatch)
      → IsU64 (n + 1)
      → All IsLogged got
      → All (NotBefore (encode_key origin (n + 1))) got
      → AreBatches origin got batches
      → missing origin n got ≡ got
  missing-taken n [] batches small logged after held = refl
  missing-taken n (e ∷ got) [] small logged after held = absurd held
  missing-taken n (e ∷ got) (b ∷ batches) small (logged, rest) (late, after) (holds, held) =
      let equal : origin_of e ≡ origin =
        compare_node_id_same (origin_of e) origin (logged.origin_fits ∙ sym fits)
          (ground (arith, holds.key_origin)) in
      let here : is_missing origin n e ≡ true = ground (
        arith,
        key_order (n + 1) e small logged,
        ap (λ o. compare_bytes o origin) equal,
        compare_bytes_refl origin,
        ap (λ o. bytes_eq o origin) equal,
        bytes_eq_refl origin,
      ) in
      rw here (ap (λ l. e ∷ l) (missing-taken n got batches small rest after held))

  others :
      (n : ℕ) (r : Entry) (l : List Entry)
      → IsLogged r
      → compare_bytes (origin_of r) origin ≡ greater
      → All (λ f. compare_bytes r.0 f.0 ≡ less) l
      → All IsLogged l
      → missing origin n l ≡ []
  others n r [] logged above after logs = refl
  others n r (f ∷ l) logged above (first, after) (logs, rest) =
      let differ : is_missing origin n f ≡ false = elim (Comparison-cases (origin_of f) origin) [
        | inl (c, apart) ↦ ground (arith, apart)
        | inr (inl equal) ↦ absurd (
            ground
              (arith, entries_order r f logged logs, ap (λ o. compare_bytes (origin_of r) o) equal))
        | inr (inr (c, apart)) ↦ ground (arith, apart)
      ] in
      rw differ (others n r l logged above after rest)

  -- Behind the origin's records there is nothing more of it.
  missing-rest :
      (n m : ℕ) (rest : List Entry)
      → IsU64 m
      → StopsAt origin rest
      → IsSorted compare_bytes rest
      → All IsLogged rest
      → All (NotBefore (encode_key origin m)) rest
      → missing origin n rest ≡ []
  missing-rest n m [] small stops sorted logs late = refl
  missing-rest n m (r ∷ l) small stops (first, sorted) (logged, logs) (here, late) =
      elim (Comparison-cases (origin_of r) origin) [
        | inl (c, apart) ↦ absurd (ground (arith, key_order m r small logged))
        | inr (inl equal) ↦
            absurd (
              ground (arith, ap (λ o. compare_node_id o origin) equal, compare_node_id_refl origin))
        | inr (inr (c, apart)) ↦
            let differ : is_missing origin n r ≡ false = ground (arith, apart) in
            rw differ (others n r l logged c first logs)
      ]

  missing-append :
      (n : ℕ) (xs ys : List Entry)
      → missing origin n (xs ++ ys) ≡ missing origin n xs ++ missing origin n ys
  missing-append n [] ys = refl
  missing-append n (e ∷ xs) ys = go (is_missing origin n e) (missing-append n xs ys)
    where
      go :
          (b : Bool)
          → missing origin n (xs ++ ys) ≡ missing origin n xs ++ missing origin n ys
          → (if b then e ∷ missing origin n (xs ++ ys) else missing origin n (xs ++ ys))
            ≡ (if b then e ∷ missing origin n xs else missing origin n xs) ++ missing origin n ys
      go true rest = ap (λ l. e ∷ l) rest
      go false rest = rest

  -- What a walk delivered is what was missing.
  pub Delivered-missing :
      (n : ℕ) (l : List Entry) (batches : List ChangeBatch)
      → IsU64 (n + 1)
      → IsSorted compare_bytes l
      → All IsLogged l
      → Delivered origin (seek compare_bytes (encode_key origin (n + 1)) l) batches
      → AreBatches origin (missing origin n l) batches
  Delivered-missing n l batches small sorted logged d =
      let k = encode_key origin (n + 1) in
      let logs = subst (All IsLogged) d.split (All-seek IsLogged compare_bytes k l logged) in
      let late = subst (All (NotBefore k)) d.split (seek-NotBefore k l sorted) in
      let in_order =
        subst (IsSorted compare_bytes) d.split (IsSorted-seek compare_bytes k l sorted) in
      let (got_logs, rest_logs) = All-split IsLogged d.got d.rest logs in
      let (got_late, rest_late) = All-split (NotBefore k) d.got d.rest late in
      let taken = missing-taken n d.got batches small got_logs got_late d.held in
      let none_left =
        missing-rest n (n + 1) d.rest small d.stop (IsSorted-rest d.got d.rest in_order) rest_logs
          rest_late in
      let all : missing origin n l ≡ d.got =
        missing-seek n (n + 1) l small (omega arith) logged
        ∙ ap (missing origin n) d.split
        ∙ missing-append n d.got d.rest
        ∙ ap (λ x. x ++ missing origin n d.rest) taken
        ∙ ap (λ x. d.got ++ x) none_left
        ∙ append-nil d.got in
      subst (λ x. AreBatches origin x batches) (sym all) d.held

  -- The first record at or after a key that is not the origin's shows that nothing of it follows.
  pub stopped-missing :
      (n m : ℕ) (l : List Entry)
      → IsU64 m
      → m ≤ n + 1
      → IsSorted compare_bytes l
      → All IsLogged l
      → StopsAt origin (seek compare_bytes (encode_key origin m) l)
      → missing origin n l ≡ []
  stopped-missing n m l small near sorted logged stops =
      let k = encode_key origin m in
      missing-seek n m l small near logged
      ∙ missing-rest n m (seek compare_bytes k l) small stops
          (IsSorted-seek compare_bytes k l sorted) (All-seek IsLogged compare_bytes k l logged)
          (seek-NotBefore k l sorted)
