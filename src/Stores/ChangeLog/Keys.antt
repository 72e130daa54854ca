-- ===== src/Stores/ChangeLog/Keys.antt =====
-- include/mdbx_containers/sync/stores/ChangeLogStore.hpp: the keys of the changelog.
use mdbx_containers.Prelude.{
  ℕ, ◌≡◌, refl, sym, ap, ◌∙◌, subst, ◌&&◌, [], ◌++◌, length, length-append, take, drop, take-append,
  drop-append, arith, ok, bytes_eq, bytes_eq_iff, ◌==◌, append-nil,
}
use mdbx_containers.Bytes.{IsU64, write_u64_be, read_u64_be}
use mdbx_containers.Bytes.Words.{length-write_u64_be, read-write_u64_be}
use mdbx_containers.NodeId.{NodeId, compare_bytes}
use mdbx_containers.NodeId.Numbers.{
  compare_numbers, lexicographic, compare_bytes-append, compare_bytes-write_u64_be,
}
use mdbx_containers.Stores.ChangeLog.{encode_key, decode_key_origin, decode_key_seq}

pub length-encode_key :
    (origin : NodeId) (seq : ℕ) → length origin ≡ 16 → length (encode_key origin seq) ≡ 24
unfolding encode_key
length-encode_key origin seq l =
    let e = length-append origin (write_u64_be seq) in
    let w = length-write_u64_be seq in omega arith

-- The keys that `encode_key` makes of node identities of 16 bytes and numbers of 64 bits are ordered by `mdbx_cmp`'s
-- bytewise comparison first by their origins and, for one origin, by their numbers.
pub encode_key_order :
    (origin origin' : NodeId) (seq seq' : ℕ)
    → length origin ≡ 16
    → length origin' ≡ 16
    → IsU64 seq
    → IsU64 seq'
    → compare_bytes (encode_key origin seq) (encode_key origin' seq')
      ≡ lexicographic (compare_bytes origin origin') (compare_numbers seq seq')
unfolding encode_key
encode_key_order origin origin' seq seq' l l' h h' =
    compare_bytes-append origin origin' (write_u64_be seq) (write_u64_be seq') (omega arith)
    ∙ ap (lexicographic (compare_bytes origin origin')) (compare_bytes-write_u64_be seq seq' h h')

take-encode_key :
    (origin : NodeId) (seq : ℕ) → length origin ≡ 16 → take 16 (encode_key origin seq) ≡ origin
unfolding encode_key
take-encode_key origin seq l =
    subst (λ n. take n (origin ++ write_u64_be seq) ≡ origin) l
      (take-append origin (write_u64_be seq))

drop-encode_key :
    (origin : NodeId) (seq : ℕ)
    → length origin ≡ 16
    → drop 16 (encode_key origin seq) ≡ write_u64_be seq
unfolding encode_key
drop-encode_key origin seq l =
    subst (λ n. drop n (origin ++ write_u64_be seq) ≡ write_u64_be seq) l
      (drop-append origin (write_u64_be seq))

read-encode_key :
    (origin : NodeId) (seq : ℕ)
    → length origin ≡ 16
    → IsU64 seq
    → read_u64_be (drop 16 (encode_key origin seq)) ≡ seq
read-encode_key origin seq l h =
    ap read_u64_be (drop-encode_key origin seq l ∙ sym (append-nil (write_u64_be seq)))
    ∙ read-write_u64_be seq [] h

-- `decode_key_origin` and `decode_key_seq` read the origin and the number back from the key that `encode_key`
-- makes of an origin of 16 bytes and a number of 64 bits.
pub decode_key-encode_key :
    (origin : NodeId) (seq : ℕ)
    → length origin ≡ 16
    → IsU64 seq
    → (decode_key_origin (encode_key origin seq) ≡ ok origin)
      × (decode_key_seq (encode_key origin seq) ≡ ok seq)
unfolding decode_key_origin decode_key_seq
decode_key-encode_key origin seq l h =
    let size = length-encode_key origin seq l in
    (rw (size, take-encode_key origin seq l) refl, rw (size, read-encode_key origin seq l h) refl)

encode_key_differ :
    (origin origin' : NodeId) (seq seq' : ℕ)
    → length origin ≡ 16
    → length origin' ≡ 16
    → IsU64 seq
    → IsU64 seq'
    → encode_key origin seq ≡ encode_key origin' seq'
    → (origin ≡ origin') × (seq ≡ seq')
encode_key_differ origin origin' seq seq' l l' h h' e = (
  sym (take-encode_key origin seq l) ∙ ap (take 16) e ∙ take-encode_key origin' seq' l',
  sym (read-encode_key origin seq l h)
      ∙ ap (λ k. read_u64_be (drop 16 k)) e
      ∙ read-encode_key origin' seq' l' h',
)

pub encode_key_same :
    (origin origin' : NodeId) (seq seq' : ℕ)
    → length origin ≡ 16
    → length origin' ≡ 16
    → IsU64 seq
    → IsU64 seq'
    → bytes_eq (encode_key origin seq) (encode_key origin' seq')
      ≡ (bytes_eq origin origin' && (seq == seq'))
encode_key_same origin origin' seq seq' l l' h h' = ground (
  arith,
  encode_key_differ origin origin' seq seq' l l' h h',
  bytes_eq_iff (encode_key origin seq) (encode_key origin' seq'),
  bytes_eq_iff origin origin',
)
