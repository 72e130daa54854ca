-- ===== src/Protocol/Encode.antt =====
-- The encoder of include/mdbx_containers/sync/protocol/ChangeBatchCodec.hpp.
use mdbx_containers.Prelude.{
  ℕ, Bool, false, not, ◌&&◌, Option, none, some, List, [], ◌∷◌, ◌++◌, ltb, ◌==◌, length, is_empty,
  if◌then◌else◌, Result, ok, ◌>>=◌, ◌>>◌, throw_if, logic_error, length_error,
}
use mdbx_containers.Bytes.{append_u16_le, append_u32_le, append_u64_le, to_u32}
use mdbx_containers.Protocol.Batch.{
  to_u8, ChangeOp, ChangeBatch, CodecBounds, has_bits, complement, op_has_identity_key,
  op_has_revision_key, op_tombstone, known_op_mask, batch_compressed_zstd, known_batch_mask,
}

-- "MDBXCSYN"
unfoldable pub magic : List ℕ
magic = b'M' ∷ b'D' ∷ b'B' ∷ b'X' ∷ b'C' ∷ b'S' ∷ b'Y' ∷ b'N' ∷ []

abbrev pub codec_version : ℕ
codec_version = 1

abbrev pub batch_version : ℕ
batch_version = 1

-- `0xFFFFFFFF`, the length of an absent value
abbrev pub absent : ℕ
absent = 0xffff_ffff

unfoldable pub append_bytes : List ℕ → List ℕ → List ℕ
append_bytes out src = out ++ src

unfoldable pub append_u8 : List ℕ → ℕ → List ℕ
append_u8 out v = out ++ v ∷ []

-- The body of the loop of `validate_bounds`.
unfoldable pub validate_op : CodecBounds → ChangeOp → Result (Unit {0})
validate_op bounds op = do
  throw_if (ltb bounds.max_dbi_name_len (length op.dbi_name))
      (length_error "dbi_name_len exceeds max_dbi_name_len")
  throw_if (ltb bounds.max_storage_key_len (length op.storage_key))
      (length_error "storage_key_len exceeds max_storage_key_len")
  throw_if (ltb bounds.max_value_len (length op.value))
      (length_error "value_len exceeds max_value_len")
  throw_if (ltb bounds.max_identity_key_len (length op.identity_key))
      (length_error "identity_key_len exceeds max_identity_key_len")
  throw_if (ltb bounds.max_revision_key_len (length op.revision_key))
      (length_error "revision_key_len exceeds max_revision_key_len")

unfoldable pub validate_ops : CodecBounds → List ChangeOp → Result (Unit {0})
validate_ops bounds [] = ok tt
validate_ops bounds (op ∷ ops) = do validate_op bounds op; validate_ops bounds ops

unfoldable pub validate_bounds : ChangeBatch → CodecBounds → Result (Unit {0})
validate_bounds batch bounds = do
  throw_if (ltb bounds.max_ops_per_batch (length batch.ops))
      (length_error "ops_count exceeds max_ops_per_batch")
  validate_ops bounds batch.ops

-- The checks at the head of the loop of `encode`.
unfoldable pub check_op : ChangeOp → Result (Unit {0})
check_op op = do
  throw_if (ltb 2 (to_u8 op.op_type)) (logic_error "Unknown ChangeOpType")
  throw_if (has_bits op.op_flags (complement known_op_mask))
      (logic_error "ChangeOp has unknown mandatory flags")
  throw_if (has_bits op.op_flags op_has_identity_key && is_empty op.identity_key)
      (logic_error "OP_HAS_IDENTITY_KEY set with empty identity_key")
  throw_if (has_bits op.op_flags op_has_revision_key && is_empty op.revision_key)
      (logic_error "OP_HAS_REVISION_KEY set with empty revision_key")
  throw_if (has_bits op.op_flags op_tombstone && not (is_empty op.value))
      (logic_error "OP_TOMBSTONE set with non-empty value")

-- A size and the bytes; appending no bytes changes nothing, so the tests for empty fields are left out.
unfoldable pub append_sized : List ℕ → List ℕ → List ℕ
append_sized out bytes = append_bytes (append_u32_le out (to_u32 (length bytes))) bytes

unfoldable pub append_value : List ℕ → List ℕ → List ℕ
append_value out value = if is_empty value then append_u32_le out absent else append_sized out value

unfoldable pub append_if : Bool → List ℕ → List ℕ → List ℕ
append_if present out bytes = if present then append_sized out bytes else out

-- The rest of the loop's body.
unfoldable pub append_op : List ℕ → ChangeOp → List ℕ
append_op out op =
    let out1 = append_u8 out (to_u8 op.op_type) in
    let out2 = append_u32_le out1 op.op_flags in
    let out3 = append_u32_le out2 op.dbi_flags in
    let out4 = append_sized out3 op.dbi_name in
    let out5 = append_sized out4 op.storage_key in
    let out6 = append_value out5 op.value in
    let out7 = append_if (has_bits op.op_flags op_has_identity_key) out6 op.identity_key in
    append_if (has_bits op.op_flags op_has_revision_key) out7 op.revision_key

unfoldable pub encode_ops : List ℕ → List ChangeOp → Result (List ℕ)
encode_ops out [] = ok out
encode_ops out (op ∷ ops) = do check_op op; encode_ops (append_op out op) ops

unfoldable pub append_header : ChangeBatch → List ℕ
append_header batch =
    let out1 = append_bytes [] magic in
    let out2 = append_u16_le out1 codec_version in
    let out3 = append_u32_le out2 batch_version in
    let out4 = append_u32_le out3 batch.batch_flags in
    let out5 = append_bytes out4 batch.origin_node_id in
    let out6 = append_u64_le out5 batch.seq in
    let out7 = append_u64_le out6 batch.time_unix_ns in
    append_u32_le out7 (to_u32 (length batch.ops))

abbrev pub validate_if : Option CodecBounds → ChangeBatch → Result (Unit {0})
validate_if none batch = ok tt
validate_if (some bounds) batch = validate_bounds batch bounds

abbrev pub too_long : Option CodecBounds → ℕ → Bool
too_long none size = false
too_long (some bounds) size = ltb bounds.max_batch_total_bytes size

-- `bounds` is a nullable pointer.
unfoldable pub encode : ChangeBatch → Option CodecBounds → Result (List ℕ)
encode batch bounds = do
  validate_if bounds batch
  throw_if (not (batch.version == batch_version)) (logic_error "Unsupported ChangeBatch::version")
  throw_if (has_bits batch.batch_flags batch_compressed_zstd)
      (logic_error "BATCH_COMPRESSED_ZSTD is not supported in v0.1")
  throw_if (has_bits batch.batch_flags (complement known_batch_mask))
      (logic_error "ChangeBatch has unknown mandatory batch flags")
  out ← encode_ops (append_header batch) batch.ops
  throw_if (too_long bounds (length out))
      (length_error "encoded change batch exceeds max_batch_total_bytes")
  ok out
