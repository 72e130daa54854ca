-- ===== src/Engine/PullSpec.antt =====
-- include/mdbx_containers/sync/engine/SyncEngine.hpp: the batches that a request lacks.
use mdbx_containers.Prelude.{
  ℕ, ◌+◌, ◌≤◌, ◌≡◌, refl, true, if◌then◌else◌, some, List, [], ◌∷◌, ◌++◌, arith, length, bytes_eq,
  bytes_eq_iff, All, ◌⊎◌,
}
use mdbx_containers.Bytes.{IsU64}
use mdbx_containers.NodeId.{NodeId}
use mdbx_containers.NodeId.Laws.{compare_bytes_refl, compare_bytes_same}
use mdbx_containers.Entries.{Entry}
use mdbx_containers.Protocol.Batch.{ChangeBatch}
use mdbx_containers.Engine.Push.{SyncCursor}
use mdbx_containers.Engine.Pull.{PullRequest, PullOrigin, last_seq_for}
use mdbx_containers.Engine.PullLaws.{AreBatches}
use mdbx_containers.Engine.PullMissing.{origin_of, seq_of, missing}

-- The number up to which a cursor has the batches of an origin.
abbrev pub known : SyncCursor → NodeId → ℕ
known [] origin = 0
known ((o, n) ∷ cursor) origin =
    let rest = known cursor origin in if bytes_eq o origin then n else rest

pub last_seq_for-known :
    (cursor : SyncCursor) (origin : NodeId) → last_seq_for cursor origin ≡ known cursor origin
unfolding last_seq_for
last_seq_for-known [] origin = refl
last_seq_for-known ((o, n) ∷ cursor) origin = ground (
  arith,
  last_seq_for-known cursor origin,
  bytes_eq_iff o origin,
  compare_bytes_same o origin,
  compare_bytes_refl origin,
)

-- The records hold one of the origin with a number that is at most `n`.
abbrev pub HasUpTo : NodeId → ℕ → List Entry → Type 0
HasUpTo origin n [] = ⊥
HasUpTo origin n (e ∷ l) =
    (bytes_eq (origin_of e) origin ≡ true) × (seq_of e ≤ n) ⊎ HasUpTo origin n l

module _ (entries : List Entry) (request : PullRequest) where
  -- What a page goes by: node identities have 16 bytes and numbers 64 bits, and a tail that is given is no
  -- smaller than the number of any record of its origin.
  pub record IsKnown (o : PullOrigin) : Type 0 where
    pub origin_fits : length o.origin ≡ 16
    pub have_fits : IsU64 (known request.have o.origin)
    pub covers :
        (tail : ℕ)
        → o.tail ≡ some tail
        → IsU64 tail × All (λ e. bytes_eq (origin_of e) o.origin ≡ true → seq_of e ≤ tail) entries

  -- No batch between the request's and the first one sent was pruned: the origin has no record that the request lacks,
  -- and its tail is none that the request lacks, or there is a record at the number after the request's or below.
  abbrev pub NoGap : PullOrigin → Type 0
  NoGap o =
      (missing o.origin (known request.have o.origin) entries ≡ [])
        × ((tail : ℕ) → o.tail ≡ some tail → tail ≤ known request.have o.origin)
      ⊎ HasUpTo o.origin (known request.have o.origin + 1) entries

  -- Origin by origin, the batches are those of all records that the request lacks.
  abbrev pub AllSent : List PullOrigin → List ChangeBatch → Type 0
  AllSent [] batches = batches ≡ []
  AllSent (o ∷ origins) batches =
      (mine : List ChangeBatch) × (more : List ChangeBatch) × (batches ≡ mine ++ more)
      × AreBatches o.origin (missing o.origin (known request.have o.origin) entries) mine
      × NoGap o
      × AllSent origins more
