-- ===== src/NodeId.antt =====
-- include/mdbx_containers/sync/common.hpp: node identifiers. A `NodeId` is the list of its 16 bytes.
pub mod Laws
pub mod Numbers
use mdbx_containers.Prelude.{
  ℕ, zero, suc, Bool, true, false, List, [], ◌∷◌, ltb, ◌==◌, if◌then◌else◌, length, ◌≡◌, All,
}
use mdbx_containers.Bytes.{IsByte}

abbrev pub NodeId : Type 0
NodeId = List ℕ

-- `std::array<std::uint8_t, 16>`
pub record IsNodeId (id : NodeId) : Type 0 where
  pub size : length id ≡ 16
  pub bytes : All IsByte id

-- The results -1, 0 and 1 of a comparison.
pub data Comparison : Type 0 where
  less same greater : Comparison

abbrev pub is_same : Comparison → Bool
is_same same = true
is_same _ = false

abbrev pub make_zero_node : NodeId
make_zero_node = 0 ∷ 0 ∷ 0 ∷ 0 ∷ 0 ∷ 0 ∷ 0 ∷ 0 ∷ 0 ∷ 0 ∷ 0 ∷ 0 ∷ 0 ∷ 0 ∷ 0 ∷ 0 ∷ []

-- The loop runs over both arrays at once; they have the same size.
unfoldable pub compare_node_id : NodeId → NodeId → Comparison
compare_node_id [] b = same
compare_node_id (x ∷ a) [] = same
compare_node_id (x ∷ a) (y ∷ b) =
    if x == y then compare_node_id a b else if ltb x y then less else greater

unfoldable pub is_zero_sync_id : NodeId → Bool
unfolding compare_node_id
is_zero_sync_id id = is_same (compare_node_id id make_zero_node)

-- `operator<` of `std::vector`, and the order of keys in an MDBX table with no flag: bytewise, and a
-- proper prefix comes first.
unfoldable pub compare_bytes : List ℕ → List ℕ → Comparison
compare_bytes [] [] = same
compare_bytes [] (y ∷ b) = less
compare_bytes (x ∷ a) [] = greater
compare_bytes (x ∷ a) (y ∷ b) =
    if x == y then compare_bytes a b else if ltb x y then less else greater
