-- ===== src/Witnesses/Codec.antt =====
-- The codecs at concrete inputs.
use mdbx_containers.Prelude.{
  ℕ, ◌≡◌, ◌↔◌, refl, true, none, some, Option, List, [], ◌∷◌, ◌++◌, ok, throw, Exception, arith,
  length,
}
use mdbx_containers.Bytes.{
  write_u16_le, write_u32_le, write_u64_le, append_u16_le, append_u32_le, append_u64_le,
  read_u64_le, read_u64_be, write_u64_be,
}
use mdbx_containers.Protocol.Batch.{
  ChangeOp, ChangeBatch, delete, to_u8, CodecBounds, default_bounds, limit, IsChangeBatch,
}
use mdbx_containers.Protocol.Encode.{
  encode, encode_ops, append_header, append_op, append_sized, append_value, append_if, append_bytes,
  append_u8, check_op, magic, validate_bounds, validate_ops, validate_op,
}
use mdbx_containers.Protocol.Layout.{batch_bytes, stored, IsBatchWritable}
use mdbx_containers.Protocol.Decode.{decode, decode_exact}
use mdbx_containers.Protocol.RoundTrip.{encode_iff, decode_exact-encode, decode-encode_stream}
use mdbx_containers.Protocol.Soundness.{decode_exact_sound}
use mdbx_containers.Protocol.Prefixes.{decode_cut}
use mdbx_containers.Reader.Reads.{Within}
use mdbx_containers.NodeId.{compare_bytes}
use mdbx_containers.Bytes.Words.{read-write_u64_le, read-write_u64_be}
use mdbx_containers.Stores.IdentityIndex.{IdentityIndexValue, encode_value, decode_value}
use mdbx_containers.Stores.IdentityIndex.RoundTrip.{decode_value-encode_value, encode_key_injective}
use mdbx_containers.Stores.ReceiverMode
use mdbx_containers.Stores.ReceiverMode.{ReceiverReplicationModeState, selective}
use mdbx_containers.Stores.ReceiverMode.RoundTrip.{decode-encode}

-- A delete of the key 7 of the table "t".
abbrev op : ChangeOp
op = record {
  op_type = delete;
  op_flags = 4;
  dbi_flags = 0;
  dbi_name = 116 ∷ [];
  storage_key = 7 ∷ [];
  value = [];
  identity_key = [];
  revision_key = [];
}

abbrev batch : ChangeBatch
batch = record {
  version = 1;
  batch_flags = 0;
  origin_node_id = 2 ∷ 0 ∷ 0 ∷ 0 ∷ 0 ∷ 0 ∷ 0 ∷ 0 ∷ 0 ∷ 0 ∷ 0 ∷ 0 ∷ 0 ∷ 0 ∷ 0 ∷ 0 ∷ [];
  seq = 3;
  time_unix_ns = 5;
  ops = op ∷ [];
}

batch-IsChangeBatch : IsChangeBatch batch
unfolding to_u8
batch-IsChangeBatch = record {
  flags_fit = omega arith;
  origin_fits = refl;
  seq_fits = omega arith;
  time_fits = omega arith;
  count_fits = omega arith;
  ops_fit = (
    record {
      type_fits = omega arith;
      op_flags_fit = omega arith;
      dbi_flags_fit = omega arith;
      dbi_name_fits = omega arith;
      storage_key_fits = omega arith;
      value_fits = omega arith;
      identity_key_fits = omega arith;
      revision_key_fits = omega arith;
    },
    tt,
  );
}

-- What stands behind "MDB" in the encoding.
abbrev tail : List ℕ
tail =
    88 ∷ 67 ∷ 83 ∷ 89 ∷ 78 ∷ 1 ∷ 0 ∷ 1 ∷ 0 ∷ 0 ∷ 0 ∷ 0 ∷ 0 ∷ 0 ∷ 0 ∷ 2 ∷ 0 ∷ 0 ∷ 0 ∷ 0 ∷ 0 ∷ 0 ∷ 0
    ∷ 0 ∷ 0 ∷ 0 ∷ 0 ∷ 0 ∷ 0 ∷ 0 ∷ 0 ∷ 3 ∷ 0 ∷ 0 ∷ 0 ∷ 0 ∷ 0 ∷ 0 ∷ 0 ∷ 5 ∷ 0 ∷ 0 ∷ 0 ∷ 0 ∷ 0 ∷ 0 ∷ 0
    ∷ 1 ∷ 0 ∷ 0 ∷ 0 ∷ 1 ∷ 4 ∷ 0 ∷ 0 ∷ 0 ∷ 0 ∷ 0 ∷ 0 ∷ 0 ∷ 1 ∷ 0 ∷ 0 ∷ 0 ∷ 116 ∷ 1 ∷ 0 ∷ 0 ∷ 0 ∷ 7
    ∷ 255 ∷ 255 ∷ 255 ∷ 255 ∷ []

abbrev encoded : List ℕ
encoded = 77 ∷ 68 ∷ 66 ∷ tail

abbrev bounds : Option CodecBounds
bounds = some default_bounds

batch_encodes : encode batch bounds ≡ ok encoded
unfolding encode encode_ops append_header append_op append_sized append_value append_if append_bytes
    append_u8 check_op magic validate_bounds validate_ops validate_op to_u8 append_u16_le
    append_u32_le append_u64_le write_u16_le write_u32_le write_u64_le
batch_encodes = refl

batch_decodes : decode_exact encoded bounds ≡ ok (stored batch)
batch_decodes = decode_exact-encode batch bounds encoded batch-IsChangeBatch batch_encodes

encode_iff_example : (encode batch bounds ≡ ok encoded) ↔ (
    IsBatchWritable bounds batch
    × Within (limit bounds (λ b. b.max_batch_total_bytes)) (length encoded)
    × (encoded ≡ batch_bytes batch))
encode_iff_example = encode_iff batch bounds encoded

decode_exact-encode_example : decode_exact encoded bounds ≡ ok (stored batch)
decode_exact-encode_example =
    decode_exact-encode batch bounds encoded batch-IsChangeBatch batch_encodes

decode-encode_stream_example :
    decode (encoded ++ 1 ∷ 2 ∷ []) true bounds ≡ ok (stored batch, length encoded)
decode-encode_stream_example =
    decode-encode_stream batch bounds encoded (1 ∷ 2 ∷ []) batch-IsChangeBatch batch_encodes

decode_exact_sound_example :
    IsBatchWritable bounds (stored batch)
    × Within (limit bounds (λ b. b.max_batch_total_bytes)) (length encoded)
    × (encode (stored batch) none ≡ ok (batch_bytes (stored batch)))
decode_exact_sound_example = decode_exact_sound encoded bounds (stored batch) batch_decodes

decode_cut_example :
    (e : Exception) × (decode (77 ∷ 68 ∷ []) true bounds ≡ throw e)
    × (decode_exact (77 ∷ 68 ∷ []) bounds ≡ throw e)
decode_cut_example =
    decode_cut batch bounds encoded (77 ∷ 68 ∷ []) tail 66 batch-IsChangeBatch batch_encodes refl

-- Words.
read-write_u64_le_example : read_u64_le (write_u64_le 258 ++ 9 ∷ []) ≡ 258
read-write_u64_le_example = read-write_u64_le 258 (9 ∷ []) (omega arith)

read-write_u64_be_example : read_u64_be (write_u64_be 258 ++ 9 ∷ []) ≡ 258
read-write_u64_be_example = read-write_u64_be 258 (9 ∷ []) (omega arith)

-- The identity index.
abbrev index_value : IdentityIndexValue
index_value = record {
  storage_key = 7 ∷ [];
  origin_node_id = batch.origin_node_id;
  seq = 3;
  revision_key = 1 ∷ 2 ∷ [];
  flags = 1;
}

decode_value-encode_value_example : decode_value (encode_value index_value) ≡ ok index_value
decode_value-encode_value_example = decode_value-encode_value index_value (record {
  storage_key_fits = omega arith;
  origin_fits = refl;
  seq_fits = omega arith;
  revision_key_fits = omega arith;
  flags_fit = omega arith;
})

encode_key_injective_example : (op.dbi_name ≡ op.dbi_name) × (op.storage_key ≡ op.storage_key)
encode_key_injective_example =
    encode_key_injective op.dbi_name op.dbi_name op.storage_key op.storage_key (omega arith)
      (omega arith) refl

-- The mode of the receiver, with the scopes "a" and "b".
abbrev mode_state : ReceiverReplicationModeState
mode_state = record { mode = selective; scope_ids = (97 ∷ []) ∷ (98 ∷ []) ∷ [] }

abbrev mode_bytes : List ℕ
mode_bytes = 1 ∷ 0 ∷ 0 ∷ 0 ∷ 2 ∷ 2 ∷ 0 ∷ 0 ∷ 0 ∷ 1 ∷ 0 ∷ 0 ∷ 0 ∷ 97 ∷ 1 ∷ 0 ∷ 0 ∷ 0 ∷ 98 ∷ []

decode-encode_example : ReceiverMode.decode mode_bytes ≡ ok mode_state
unfolding ReceiverMode.encode ReceiverMode.put_scopes ReceiverMode.is_bad_scope
    ReceiverMode.mode_to_u8 append_u32_le write_u32_le compare_bytes
decode-encode_example = decode-encode mode_state mode_bytes refl
