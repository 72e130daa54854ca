-- ===== src/Entries.antt =====
-- The records of one table as a cursor visits them: pairs of a key and a value in the order of the keys.
pub mod Order
use mdbx_containers.Prelude.{
  ℕ, ◌≡◌, Bool, true, false, Option, none, some, List, [], ◌∷◌, bytes_eq, if◌then◌else◌, All,
}
use mdbx_containers.NodeId.{Comparison, less, same, greater, compare_bytes}

abbrev pub Entry : Type 0
Entry = List ℕ × List ℕ

abbrev pub is_less : Comparison → Bool
is_less less = true
is_less _ = false

abbrev pub is_greater : Comparison → Bool
is_greater greater = true
is_greater _ = false

-- The value of the first record with the key.
unfoldable pub lookup : List ℕ → List Entry → Option (List ℕ)
lookup k [] = none
lookup k ((j, v) ∷ l) = let rest = lookup k l in if bytes_eq j k then some v else rest

-- `MDBX_SET_RANGE`: from the first record on whose key is not before `k`.
unfoldable pub seek : (List ℕ → List ℕ → Comparison) → List ℕ → List Entry → List Entry
seek cmp k [] = []
seek cmp k ((j, v) ∷ l) = let rest = seek cmp k l in if is_less (cmp j k) then rest else (j, v) ∷ l

-- Every key is before all that follow it.
abbrev pub IsSorted : (List ℕ → List ℕ → Comparison) → List Entry → Type 0
IsSorted cmp [] = Unit {0}
IsSorted cmp ((k, v) ∷ l) = All (λ e. cmp k e.0 ≡ less) l × IsSorted cmp l

-- At its place in the bytewise order, over a record with the same key.
unfoldable pub place : List ℕ → List ℕ → List Entry → List Entry
place k v [] = (k, v) ∷ []
place k v ((j, w) ∷ l) =
    let rest = place k v l in
    elim (compare_bytes k j) [
      | less ↦ (k, v) ∷ (j, w) ∷ l
      | same ↦ (k, v) ∷ l
      | greater ↦ (j, w) ∷ rest
    ]
