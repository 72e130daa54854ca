-- ===== src/Entries/Order.antt =====
-- Lookup and order of the records of a table.
use mdbx_containers.Prelude.{
  ℕ, ◌≡◌, refl, true, false, none, some, List, [], ◌∷◌, bytes_eq, bytes_eq_iff, bytes_eq_refl,
  if◌then◌else◌, All, arith, ◌⊎◌, inl, inr, ap, ◌∙◌, Option-cases, Bool,
}
use mdbx_containers.NodeId.{Comparison, less, same, greater, compare_bytes}
use mdbx_containers.NodeId.Laws.{
  flip, compare_bytes_refl, compare_bytes_same, compare_bytes-flip, compare_bytes_trans,
}
use mdbx_containers.Entries.{Entry, IsSorted, is_less, seek, lookup, place}

-- What the three results of a comparison say about equality.
pub Comparison-cases :
    (a b : List ℕ)
    → (compare_bytes a b ≡ less) × (bytes_eq a b ≡ false)
      ⊎ ((a ≡ b) ⊎ (compare_bytes a b ≡ greater) × (bytes_eq a b ≡ false))
Comparison-cases a b = go (compare_bytes a b) refl
  where
    go :
        (c : Comparison)
        → compare_bytes a b ≡ c
        → (compare_bytes a b ≡ less) × (bytes_eq a b ≡ false)
          ⊎ ((a ≡ b) ⊎ (compare_bytes a b ≡ greater) × (bytes_eq a b ≡ false))
    go less e = inl (e, ground (arith, bytes_eq_iff a b, compare_bytes_refl a))
    go same e = inr (inl (compare_bytes_same a b e))
    go greater e = inr (inr (e, ground (arith, bytes_eq_iff a b, compare_bytes_refl a)))

pub lookup-place :
    (k v m : List ℕ) (l : List Entry)
    → lookup m (place k v l) ≡ (if bytes_eq k m then some v else lookup m l)
unfolding lookup place
lookup-place k v m [] = refl
lookup-place k v m ((j, w) ∷ l) = ground (
  arith,
  lookup-place k v m l,
  Comparison-cases k j,
  compare_bytes_refl k,
  bytes_eq_iff k m,
  bytes_eq_iff j m,
  bytes_eq_iff k j,
)

place-Above :
    (x k v : List ℕ) (l : List Entry)
    → compare_bytes x k ≡ less
    → All (λ e. compare_bytes x e.0 ≡ less) l
    → All (λ e. compare_bytes x e.0 ≡ less) (place k v l)
unfolding place
place-Above x k v [] h a = (h, tt)
place-Above x k v ((j, w) ∷ l) h a = go (compare_bytes k j) (place-Above x k v l h a.1)
  where
    go :
        (c : Comparison)
        → All (λ e. compare_bytes x e.0 ≡ less) (place k v l)
        → All
            (λ e. compare_bytes x e.0 ≡ less)
            (elim c [
              | less ↦ (k, v) ∷ (j, w) ∷ l
              | same ↦ (k, v) ∷ l
              | greater ↦ (j, w) ∷ place k v l
            ])
    go less r = (h, a)
    go same r = (h, a.1)
    go greater r = (a.0, r)

Above-before :
    (k j : List ℕ) (l : List Entry)
    → compare_bytes k j ≡ less
    → All (λ e. compare_bytes j e.0 ≡ less) l
    → All (λ e. compare_bytes k e.0 ≡ less) l
Above-before k j [] h a = tt
Above-before k j ((i, w) ∷ l) h a = (compare_bytes_trans k j i h a.0, Above-before k j l h a.1)

pub place-IsSorted :
    (k v : List ℕ) (l : List Entry)
    → IsSorted compare_bytes l
    → IsSorted compare_bytes (place k v l)
unfolding place
place-IsSorted k v [] s = (tt, tt)
place-IsSorted k v ((j, w) ∷ l) s = go (compare_bytes k j) refl (place-IsSorted k v l s.1)
  where
    go :
        (c : Comparison)
        → compare_bytes k j ≡ c
        → IsSorted compare_bytes (place k v l)
        → IsSorted compare_bytes (elim c [
          | less ↦ (k, v) ∷ (j, w) ∷ l
          | same ↦ (k, v) ∷ l
          | greater ↦ (j, w) ∷ place k v l
        ])
    go less e r = ((e, Above-before k j l e s.0), s)
    go same e r = let eq = compare_bytes_same k j e in rw eq (s.0, s.1)
    go greater e r =
        let f : compare_bytes j k ≡ less = compare_bytes-flip k j ∙ ap flip e in
        (place-Above j k v l f s.0, r)

pub All-seek :
    (P : Entry → Type 0) (cmp : List ℕ → List ℕ → Comparison) (k : List ℕ) (l : List Entry)
    → All P l
    → All P (seek cmp k l)
unfolding seek
All-seek P cmp k [] a = tt
All-seek P cmp k ((j, v) ∷ l) a = go (is_less (cmp j k)) (All-seek P cmp k l a.1)
  where
    go : (b : Bool) → All P (seek cmp k l) → All P (if b then seek cmp k l else (j, v) ∷ l)
    go true r = r
    go false r = a

pub IsSorted-seek :
    (cmp : List ℕ → List ℕ → Comparison) (k : List ℕ) (l : List Entry)
    → IsSorted cmp l
    → IsSorted cmp (seek cmp k l)
unfolding seek
IsSorted-seek cmp k [] s = tt
IsSorted-seek cmp k ((j, v) ∷ l) s = go (is_less (cmp j k)) (IsSorted-seek cmp k l s.1)
  where
    go :
        (b : Bool)
        → IsSorted cmp (seek cmp k l)
        → IsSorted cmp (if b then seek cmp k l else (j, v) ∷ l)
    go true r = r
    go false r = s

pub lookup-after :
    (k j : List ℕ) (l : List Entry) (v : List ℕ)
    → All (λ e. compare_bytes k e.0 ≡ less) l
    → lookup j l ≡ some v
    → compare_bytes k j ≡ less
unfolding lookup
lookup-after k j [] v a h = cc
lookup-after k j ((i, w) ∷ l) v a h =
    ground (arith, lookup-after k j l v a.1, bytes_eq_iff i j, a.0)

-- A record before the place of the search is no more found, any other is.
pub lookup-seek :
    (k j : List ℕ) (l : List Entry)
    → IsSorted compare_bytes l
    → lookup j (seek compare_bytes k l) ≡ (if is_less (compare_bytes j k) then none else lookup j l)
unfolding lookup seek
lookup-seek k j [] s = ground arith
lookup-seek k j ((i, w) ∷ l) s = elim (Option-cases (lookup j l)) [
  | inl e ↦ ground (arith, lookup-seek k j l s.1, bytes_eq_iff i j)
  | inr (v, e) ↦ ground (
    arith,
    lookup-seek k j l s.1,
    bytes_eq_iff i j,
    lookup-after i j l v s.0 e,
    compare_bytes_trans i j k,
  )
]

All-found :
    (k v : List ℕ) (l records : List Entry)
    → All (λ e. compare_bytes k e.0 ≡ less) l
    → All (λ e. lookup e.0 records ≡ some e.1) l
    → All (λ e. lookup e.0 ((k, v) ∷ records) ≡ some e.1) l
unfolding lookup
All-found k v [] records a f = tt
All-found k v ((j, w) ∷ l) records a f = (
  ground (arith, a.0, f.0, bytes_eq_iff k j, compare_bytes_refl k),
  All-found k v l records a.1 f.1,
)

-- Every record is found under its key.
pub IsSorted-lookup :
    (l : List Entry) → IsSorted compare_bytes l → All (λ e. lookup e.0 l ≡ some e.1) l
unfolding lookup
IsSorted-lookup [] s = tt
IsSorted-lookup ((k, v) ∷ l) s =
    (rw (bytes_eq_refl k) refl, All-found k v l l s.0 (IsSorted-lookup l s.1))
