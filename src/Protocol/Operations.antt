-- ===== src/Protocol/Operations.antt =====
-- What the encoder of a batch writes, and that the decoder reads it back.
use mdbx_containers.Prelude.{
  ℕ, ◌+◌, ◌^◌, ◌<◌, ◌≡◌, refl, sym, Bool, true, false, not, ◌&&◌, Option, List, [], ◌∷◌, ◌++◌,
  append_assoc, append-nil, ltb, ◌==◌, length, is_empty, arith, String,
}
use native.Mathlib.Nat.{mod-eq_of_lt}
use mdbx_containers.Bytes.{IsU32, to_u32, write_u32_le, append_u32_le}
use mdbx_containers.Reader.{read_sized}
use mdbx_containers.Reader.Reads.{
  Reads, Reads-bind, Reads-last, Reads-guard, Reads-pure, read_u8-Reads, read_u32-Reads,
  read_bytes-Reads, read_sized-Reads, Within, Within-test,
}
use mdbx_containers.Protocol.Batch.{
  ChangeOpType, to_u8, of_u8, ChangeOp, CodecBounds, has_bits, complement, limit, put, delete,
  clear_table, other, op_has_identity_key, op_has_revision_key, op_tombstone, known_op_mask,
  IsChangeOp,
}
use mdbx_containers.Protocol.Encode.{
  append_bytes, append_u8, append_sized, append_value, append_if, append_op, absent,
}
use mdbx_containers.Protocol.Decode.{underrun, read_value, read_if, read_op}

pub of_u8-to_u8 : (t : ChangeOpType) → ltb 2 (to_u8 t) ≡ false → of_u8 (to_u8 t) ≡ t
unfolding of_u8 to_u8
of_u8-to_u8 put h = refl
of_u8-to_u8 delete h = refl
of_u8-to_u8 clear_table h = refl
of_u8-to_u8 (other n) h = ground arith

-- The layout of one operation, from the comment at the head of ChangeBatchCodec.hpp.
abbrev pub sized : List ℕ → List ℕ
sized bytes = write_u32_le (to_u32 (length bytes)) ++ bytes

abbrev pub value_bytes : List ℕ → List ℕ
value_bytes [] = write_u32_le absent
value_bytes (b ∷ bytes) = sized (b ∷ bytes)

abbrev pub optional : Bool → List ℕ → List ℕ
optional true bytes = sized bytes
optional false bytes = []

unfoldable pub op_bytes : ChangeOp → List ℕ
op_bytes op =
    (to_u8 op.op_type ∷ [])
    ++ (write_u32_le op.op_flags
        ++ (write_u32_le op.dbi_flags
            ++ (sized op.dbi_name
                ++ (sized op.storage_key
                    ++ (value_bytes op.value
                        ++ (optional (has_bits op.op_flags op_has_identity_key) op.identity_key
                            ++ optional (has_bits op.op_flags op_has_revision_key)
                                op.revision_key))))))

append_sized-bytes : (out bytes : List ℕ) → append_sized out bytes ≡ out ++ sized bytes
unfolding append_sized append_bytes append_u32_le
append_sized-bytes out bytes = append_assoc out (write_u32_le (to_u32 (length bytes))) bytes

append_value-bytes : (out value : List ℕ) → append_value out value ≡ out ++ value_bytes value
unfolding append_value append_u32_le
append_value-bytes out [] = refl
append_value-bytes out (b ∷ bytes) = append_sized-bytes out (b ∷ bytes)

append_if-bytes :
    (present : Bool) (out bytes : List ℕ)
    → append_if present out bytes ≡ out ++ optional present bytes
unfolding append_if
append_if-bytes true out bytes = append_sized-bytes out bytes
append_if-bytes false out bytes = sym (append-nil out)

pub append_op-bytes : (out : List ℕ) (op : ChangeOp) → append_op out op ≡ out ++ op_bytes op
unfolding append_op append_u8 append_u32_le op_bytes
append_op-bytes out op =
    simp (append_if-bytes, append_value-bytes, append_sized-bytes, append_assoc)

-- What is kept of an operation: a key without its flag is not written.
abbrev kept : Bool → List ℕ → List ℕ
kept true bytes = bytes
kept false bytes = []

unfoldable pub stored_op : ChangeOp → ChangeOp
stored_op op = record op {
  identity_key = kept (has_bits op.op_flags op_has_identity_key) op.identity_key;
  revision_key = kept (has_bits op.op_flags op_has_revision_key) op.revision_key;
}

-- What `encode` has checked of an operation, with its bounds.
pub record IsWritable (bounds : Option CodecBounds) (op : ChangeOp) : Type 0 where
  pub known_type : ltb 2 (to_u8 op.op_type) ≡ false
  pub known_flags : has_bits op.op_flags (complement known_op_mask) ≡ false
  pub identity : (has_bits op.op_flags op_has_identity_key && is_empty op.identity_key) ≡ false
  pub revision : (has_bits op.op_flags op_has_revision_key && is_empty op.revision_key) ≡ false
  pub tombstone : (has_bits op.op_flags op_tombstone && not (is_empty op.value)) ≡ false
  pub name_within : Within (limit bounds (λ b. b.max_dbi_name_len)) (length op.dbi_name)
  pub key_within : Within (limit bounds (λ b. b.max_storage_key_len)) (length op.storage_key)
  pub value_within : Within (limit bounds (λ b. b.max_value_len)) (length op.value)
  pub identity_within : Within (limit bounds (λ b. b.max_identity_key_len)) (length op.identity_key)
  pub revision_within : Within (limit bounds (λ b. b.max_revision_key_len)) (length op.revision_key)

sized-Reads :
    (most : Option ℕ) (message : String) (bytes : List ℕ)
    → IsU32 (length bytes)
    → Within most (length bytes)
    → Reads (read_sized underrun most message) (sized bytes) bytes
sized-Reads most message bytes h w =
    rw (mod-eq_of_lt h) (read_sized-Reads underrun most message bytes h w)

value-Reads :
    (most : Option ℕ) (value : List ℕ)
    → length value + 1 < 2 ^ 32
    → Within most (length value)
    → Reads (read_value most) (value_bytes value) value
unfolding read_value read_sized
value-Reads most [] h w =
    Reads-last _ _ (read_u32-Reads underrun absent (omega arith)) (Reads-pure [])
value-Reads most (b ∷ bytes) h w =
    let fits : IsU32 (length (b ∷ bytes)) = omega arith in
    let there : (length (b ∷ bytes) == absent) ≡ false = ground arith in
    rw (mod-eq_of_lt fits) (
      Reads-bind _ _ (read_u32-Reads underrun (length (b ∷ bytes)) fits) (
        rw there (
          Reads-guard _ _ _ (Within-test most _ w) (read_bytes-Reads underrun (b ∷ bytes) _ refl))))

optional-Reads :
    (present : Bool) (most : Option ℕ) (message : String) (bytes : List ℕ)
    → IsU32 (length bytes)
    → Within most (length bytes)
    → Reads
        (read_if present (read_sized underrun most message))
        (optional present bytes)
        (kept present bytes)
unfolding read_if
optional-Reads true most message bytes h w = sized-Reads most message bytes h w
optional-Reads false most message bytes h w = Reads-pure []

kept-empty :
    (present : Bool) (bytes : List ℕ)
    → (present && is_empty bytes) ≡ false
    → (present && is_empty (kept present bytes)) ≡ false
kept-empty true bytes h = h
kept-empty false bytes h = refl

pub read_op-Reads :
    (bounds : Option CodecBounds) (op : ChangeOp)
    → IsChangeOp op
    → IsWritable bounds op
    → Reads (read_op bounds) (op_bytes op) (stored_op op)
unfolding read_op op_bytes stored_op
read_op-Reads bounds op f w = Reads-bind _ _ (read_u8-Reads underrun (to_u8 op.op_type)) (
    Reads-guard _ _ _ w.known_type (
      Reads-bind _ _ (read_u32-Reads underrun op.op_flags f.op_flags_fit) (
        Reads-guard _ _ _ w.known_flags (
          Reads-bind _ _ (read_u32-Reads underrun op.dbi_flags f.dbi_flags_fit) (
            Reads-bind _ _ (sized-Reads _ _ op.dbi_name f.dbi_name_fits w.name_within) (
              Reads-bind _ _ (sized-Reads _ _ op.storage_key f.storage_key_fits w.key_within) (
                Reads-bind _ _ (value-Reads _ op.value f.value_fits w.value_within) (
                  Reads-bind _ _
                    (optional-Reads _ _ _ op.identity_key f.identity_key_fits w.identity_within)
                    (Reads-last _ _
                      (optional-Reads _ _ _ op.revision_key f.revision_key_fits w.revision_within)
                      (Reads-guard _ _ _ w.tombstone (
                        Reads-guard _ _ _ (kept-empty _ _ w.identity) (
                          Reads-guard _ _ _ (kept-empty _ _ w.revision)
                            (rw (of_u8-to_u8 op.op_type w.known_type) (Reads-pure _))))))))))))))
