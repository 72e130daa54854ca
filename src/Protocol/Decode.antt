-- ===== src/Protocol/Decode.antt =====
-- The decoder of include/mdbx_containers/sync/protocol/ChangeBatchCodec.hpp.
use mdbx_containers.Prelude.{
  ℕ, zero, suc, Bool, true, false, not, ◌&&◌, Option, none, some, List, [], ◌∷◌, ltb, ◌==◌, length,
  is_empty, String, if◌then◌else◌, Result, ok, throw, runtime_error, length_error,
}
use mdbx_containers.NodeId.{compare_bytes, is_same}
use mdbx_containers.Reader.{
  Cursor, Read, ◌>>=◌, ◌>>◌, pure, throw_when, read_bytes, read_u8, read_u16, read_u32, read_u64,
  read_sized,
}
use mdbx_containers.Protocol.Batch.{
  of_u8, ChangeOp, ChangeBatch, CodecBounds, has_bits, complement, limit, op_has_identity_key,
  op_has_revision_key, op_tombstone, known_op_mask, batch_compressed_zstd, known_batch_mask,
}
use mdbx_containers.Protocol.Encode.{magic, codec_version, batch_version, absent, too_long}

abbrev pub underrun : String
underrun = "Codec buffer underrun"

-- `check_magic`; `std::memcmp` is the comparison of the eight bytes.
unfoldable pub check_magic : Read (Unit {0})
check_magic = do
  found ← read_bytes underrun 8
  throw_when (not (is_same (compare_bytes found magic))) (runtime_error "Codec magic mismatch")

unfoldable pub read_value : Option ℕ → Read (List ℕ)
read_value most = do
  size ← read_u32 underrun
  if size == absent then pure [] else do
    throw_when (elim most [ none ↦ false | some m ↦ ltb m size ])
        (length_error "value_len exceeds max_value_len")
    read_bytes underrun size

-- A field that is there only if its flag is set.
unfoldable pub read_if : Bool → Read (List ℕ) → Read (List ℕ)
read_if present field = if present then field else pure []

-- The body of the loop of `decode`.
unfoldable pub read_op : Option CodecBounds → Read ChangeOp
read_op bounds = do
  op_type ← read_u8 underrun
  throw_when (ltb 2 op_type) (runtime_error "Unknown ChangeOpType")
  op_flags ← read_u32 underrun
  throw_when (has_bits op_flags (complement known_op_mask))
      (runtime_error "Unknown mandatory op flag bits set")
  dbi_flags ← read_u32 underrun
  dbi_name ←
      read_sized underrun (limit bounds (λ b. b.max_dbi_name_len))
        "dbi_name_len exceeds max_dbi_name_len"
  storage_key ←
      read_sized underrun (limit bounds (λ b. b.max_storage_key_len))
        "storage_key_len exceeds max_storage_key_len"
  value ← read_value (limit bounds (λ b. b.max_value_len))
  identity_key ← read_if (has_bits op_flags op_has_identity_key) (
      read_sized underrun (limit bounds (λ b. b.max_identity_key_len))
        "identity_key_len exceeds max_identity_key_len")
  revision_key ← read_if (has_bits op_flags op_has_revision_key) (
      read_sized underrun (limit bounds (λ b. b.max_revision_key_len))
        "revision_key_len exceeds max_revision_key_len")
  throw_when (has_bits op_flags op_tombstone && not (is_empty value))
      (runtime_error "OP_TOMBSTONE with non-empty value")
  throw_when (has_bits op_flags op_has_identity_key && is_empty identity_key)
      (runtime_error "OP_HAS_IDENTITY_KEY with empty identity_key")
  throw_when (has_bits op_flags op_has_revision_key && is_empty revision_key)
      (runtime_error "OP_HAS_REVISION_KEY with empty revision_key")
  pure (record {
    op_type = of_u8 op_type;
    op_flags = op_flags;
    dbi_flags = dbi_flags;
    dbi_name = dbi_name;
    storage_key = storage_key;
    value = value;
    identity_key = identity_key;
    revision_key = revision_key;
  })

unfoldable pub read_ops : Option CodecBounds → ℕ → Read (List ChangeOp)
read_ops bounds zero = pure []
read_ops bounds (suc count) = do op ← read_op bounds; ops ← read_ops bounds count; pure (op ∷ ops)

-- `decode` up to its checks of the total size.
unfoldable pub read_batch : Option CodecBounds → Read ChangeBatch
read_batch bounds = do
  check_magic
  cv ← read_u16 underrun
  throw_when (not (cv == codec_version)) (runtime_error "Unsupported codec_version")
  bv ← read_u32 underrun
  throw_when (not (bv == batch_version)) (runtime_error "Unsupported batch_version")
  batch_flags ← read_u32 underrun
  throw_when (has_bits batch_flags batch_compressed_zstd)
      (runtime_error "BATCH_COMPRESSED_ZSTD is not supported in v0.1")
  throw_when (has_bits batch_flags (complement known_batch_mask))
      (runtime_error "Unknown mandatory batch flag bits set")
  origin ← read_bytes underrun 16
  seq ← read_u64 underrun
  time_unix_ns ← read_u64 underrun
  ops_count ← read_u32 underrun
  throw_when
      (elim (limit bounds (λ b. b.max_ops_per_batch)) [ none ↦ false | some m ↦ ltb m ops_count ])
      (length_error "ops_count exceeds max_ops_per_batch")
  ops ← read_ops bounds ops_count
  pure (record {
    version = bv;
    batch_flags = batch_flags;
    origin_node_id = origin;
    seq = seq;
    time_unix_ns = time_unix_ns;
    ops = ops;
  })

-- The end of `decode`. `stream` says that `bytes_read` is not null; the number is what it is set to.
unfoldable pub finish :
    List ℕ → Bool → Option CodecBounds → ChangeBatch × Cursor → Result (ChangeBatch × ℕ)
finish bytes stream bounds (batch, cur) =
    if too_long bounds cur.pos
    then throw (length_error "total batch bytes exceeds max_batch_total_bytes")
    else if not stream && not (cur.pos == length bytes)
    then throw (runtime_error "Trailing bytes after ChangeBatch")
    else ok (batch, cur.pos)

unfoldable pub decode : List ℕ → Bool → Option CodecBounds → Result (ChangeBatch × ℕ)
decode bytes stream bounds = elim (read_batch bounds (record { rest = bytes; pos = 0 })) [
  | ok r ↦ finish bytes stream bounds r
  | throw e ↦ throw e
]

unfoldable pub decode_exact : List ℕ → Option CodecBounds → Result ChangeBatch
decode_exact bytes bounds = elim (decode bytes true bounds) [
  | ok (batch, consumed) ↦
      if not (consumed == length bytes)
      then throw (runtime_error "Trailing bytes after ChangeBatch")
      else ok batch
  | throw e ↦ throw e
]
