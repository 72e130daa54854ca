-- ===== src/NodeId/Laws.antt =====
-- The comparisons are total orders.
use mdbx_containers.Prelude.{ℕ, ◌≡◌, refl, List, [], ◌∷◌, length, arith}
use mdbx_containers.NodeId.{NodeId, Comparison, less, same, greater, compare_node_id, compare_bytes}

abbrev pub flip : Comparison → Comparison
flip less = greater
flip same = same
flip greater = less

pub compare_bytes_refl : (a : List ℕ) → compare_bytes a a ≡ same
unfolding compare_bytes
compare_bytes_refl [] = refl
compare_bytes_refl (x ∷ a) = ground (arith, compare_bytes_refl a)

pub compare_bytes_same : (a b : List ℕ) → compare_bytes a b ≡ same → a ≡ b
unfolding compare_bytes
compare_bytes_same [] [] h = refl
compare_bytes_same [] (y ∷ b) h = cc
compare_bytes_same (x ∷ a) [] h = cc
compare_bytes_same (x ∷ a) (y ∷ b) h = ground (arith, compare_bytes_same a b)

pub compare_bytes-flip : (a b : List ℕ) → compare_bytes b a ≡ flip (compare_bytes a b)
unfolding compare_bytes
compare_bytes-flip [] [] = refl
compare_bytes-flip [] (y ∷ b) = refl
compare_bytes-flip (x ∷ a) [] = refl
compare_bytes-flip (x ∷ a) (y ∷ b) = ground (arith, compare_bytes-flip a b)

pub compare_bytes_trans :
    (a b c : List ℕ)
    → compare_bytes a b ≡ less
    → compare_bytes b c ≡ less
    → compare_bytes a c ≡ less
unfolding compare_bytes
compare_bytes_trans [] [] c h k = cc
compare_bytes_trans [] (y ∷ b) [] h k = cc
compare_bytes_trans [] (y ∷ b) (z ∷ c) h k = refl
compare_bytes_trans (x ∷ a) [] c h k = cc
compare_bytes_trans (x ∷ a) (y ∷ b) [] h k = cc
compare_bytes_trans (x ∷ a) (y ∷ b) (z ∷ c) h k = ground (arith, compare_bytes_trans a b c)

-- On arrays of one size the loop of `compare_node_id` is the bytewise order.
pub compare_node_id-bytes :
    (a b : NodeId) → length a ≡ length b → compare_node_id a b ≡ compare_bytes a b
unfolding compare_node_id compare_bytes
compare_node_id-bytes [] [] h = refl
compare_node_id-bytes [] (y ∷ b) h = absurd (omega arith)
compare_node_id-bytes (x ∷ a) [] h = absurd (omega arith)
compare_node_id-bytes (x ∷ a) (y ∷ b) h = ground (arith, compare_node_id-bytes a b (omega arith))

pub compare_node_id_same : (a b : NodeId) → length a ≡ length b → compare_node_id a b ≡ same → a ≡ b
compare_node_id_same a b h e = compare_bytes_same a b (ground (arith, compare_node_id-bytes a b h))

pub compare_node_id_refl : (a : NodeId) → compare_node_id a a ≡ same
unfolding compare_node_id
compare_node_id_refl [] = refl
compare_node_id_refl (x ∷ a) = ground (arith, compare_node_id_refl a)
