-- ===== src/Stores/IdentityIndex/RoundTrip.antt =====
-- Keys of the identity index do not collide, and its values are read back.
use mdbx_containers.Prelude.{
  ℕ, ◌≡◌, refl, sym, ap, ◌∙◌, List, [], ◌++◌, append_assoc, append-nil, ok, length, append_split,
}
use native.Mathlib.Nat.{mod-eq_of_lt}
use mdbx_containers.Bytes.{
  IsU32, IsU64, to_u32, write_u32_le, write_u64_le, append_u32_le, append_u64_le, read_u32_le,
}
use mdbx_containers.Bytes.Words.{read-write_u32, length-write_u32_le}
use mdbx_containers.Reader.Reads.{
  Reads, Reads-bind, Reads-last, Reads-pure, read_u32-Reads, read_u64-Reads, read_bytes-Reads,
}
use mdbx_containers.Stores.IdentityIndex.{
  IdentityIndexValue, encode_key, encode_value, read_value, decode_value, underrun,
}

pub record IsIdentityIndexValue (v : IdentityIndexValue) : Type 0 where
  pub storage_key_fits : IsU32 (length v.storage_key)
  pub origin_fits : length v.origin_node_id ≡ 16
  pub seq_fits : IsU64 v.seq
  pub revision_key_fits : IsU32 (length v.revision_key)
  pub flags_fit : IsU32 v.flags

sized_split :
    (a b c d : List ℕ)
    → IsU32 (length a)
    → IsU32 (length b)
    → write_u32_le (length a) ++ (a ++ c) ≡ write_u32_le (length b) ++ (b ++ d)
    → (a ≡ b) × (c ≡ d)
sized_split a b c d ha hb h =
    let sizes : length a ≡ length b =
      sym (read-write_u32 (length a) (a ++ c) ha)
      ∙ ap read_u32_le h
      ∙ read-write_u32 (length b) (b ++ d) hb in
    let (front, rest) =
      append_split (write_u32_le (length a)) (write_u32_le (length b)) (a ++ c) (b ++ d)
        (length-write_u32_le (length a) ∙ sym (length-write_u32_le (length b))) h in
    append_split a b c d sizes rest

-- Two pairs of a table name, of less than 2 ^ 32 bytes, and an identity key that `encode_key` gives the same key
-- are the same pair.
pub encode_key_injective :
    (n m k j : List ℕ)
    → IsU32 (length n)
    → IsU32 (length m)
    → encode_key n k ≡ encode_key m j
    → (n ≡ m) × (k ≡ j)
unfolding encode_key append_u32_le
encode_key_injective n m k j hn hm h = sized_split n m k j hn hm (
    sym (append_assoc (write_u32_le (length n)) n k)
    ∙ rw (mod-eq_of_lt hn, mod-eq_of_lt hm) at h
    ∙ append_assoc (write_u32_le (length m)) m j)

value_layout : (v : IdentityIndexValue) → List ℕ
value_layout v =
    write_u32_le (to_u32 (length v.storage_key))
    ++ (v.storage_key
        ++ (v.origin_node_id
            ++ (write_u64_le v.seq
                ++ (write_u32_le (to_u32 (length v.revision_key))
                    ++ (v.revision_key ++ write_u32_le v.flags)))))

encode_value-layout : (v : IdentityIndexValue) → encode_value v ≡ value_layout v
unfolding encode_value value_layout append_u32_le append_u64_le
encode_value-layout v = simp append_assoc

read_value-Reads :
    (v : IdentityIndexValue) → IsIdentityIndexValue v → Reads read_value (value_layout v) v
unfolding read_value value_layout
read_value-Reads v f = rw (mod-eq_of_lt f.storage_key_fits) (
    Reads-bind _ _ (read_u32-Reads underrun (length v.storage_key) f.storage_key_fits) (
      Reads-bind _ _ (read_bytes-Reads underrun v.storage_key _ refl) (
        Reads-bind _ _ (read_bytes-Reads underrun v.origin_node_id 16 f.origin_fits) (
          Reads-bind _ _ (read_u64-Reads underrun v.seq f.seq_fits) (
            rw (mod-eq_of_lt f.revision_key_fits) (
              Reads-bind _ _ (read_u32-Reads underrun (length v.revision_key) f.revision_key_fits) (
                Reads-bind _ _ (read_bytes-Reads underrun v.revision_key _ refl) (
                  Reads-last _ _ (read_u32-Reads underrun v.flags f.flags_fit)
                    (Reads-pure v)))))))))

-- `decode_value` reads back the value that `encode_value` wrote, if its fields and their sizes fit the widths
-- that they are written with.
pub decode_value-encode_value :
    (v : IdentityIndexValue) → IsIdentityIndexValue v → decode_value (encode_value v) ≡ ok v
unfolding decode_value
decode_value-encode_value v f =
    let run = rw (append-nil (value_layout v)) at ((read_value-Reads v f).run [] 0) in
    rw (encode_value-layout v) (rw (run, decode_value))
