-- ===== src/Protocol/Batch.antt =====
-- include/mdbx_containers/sync/protocol: ChangeOp.hpp, ChangeBatch.hpp, codec_flags.hpp and the limits
-- of CodecBounds.hpp. A string is the list of its bytes.
use mdbx_containers.Prelude.{
  ℕ, zero, suc, ◌+◌, ◌-◌, ◌*◌, ◌^◌, ◌<◌, ◌≡◌, bit_and, Bool, not, Option, none, some, List, ◌==◌,
  length, All,
}
use mdbx_containers.Bytes.{IsU32, IsU64}
use mdbx_containers.NodeId.{NodeId}

-- `(flags & mask) != 0`
abbrev pub has_bits : ℕ → ℕ → Bool
has_bits flags mask = not (bit_and flags mask == 0)

-- `~mask` of a `std::uint32_t`
abbrev pub complement : ℕ → ℕ
complement mask = 2 ^ 32 - 1 - mask

-- `enum class ChangeOpType`. A variable of that type can hold another value
-- by a cast: `other n` is the value n + 3.
pub data ChangeOpType : Type 0 where
  put delete clear_table : ChangeOpType
  other : ℕ → ChangeOpType

unfoldable pub to_u8 : ChangeOpType → ℕ
to_u8 put = 0
to_u8 delete = 1
to_u8 clear_table = 2
to_u8 (other n) = n + 3

-- `static_cast<ChangeOpType>(op_type)`
unfoldable pub of_u8 : ℕ → ChangeOpType
of_u8 zero = put
of_u8 (suc zero) = delete
of_u8 (suc (suc zero)) = clear_table
of_u8 (suc (suc (suc n))) = other n

-- `enum ChangeOpFlags`, `enum ChangeBatchFlags`
abbrev pub op_has_identity_key : ℕ
op_has_identity_key = 1

abbrev pub op_has_revision_key : ℕ
op_has_revision_key = 2

abbrev pub op_tombstone : ℕ
op_tombstone = 4

-- the mask of all three
abbrev pub known_op_mask : ℕ
known_op_mask = 7

abbrev pub batch_compressed_zstd : ℕ
batch_compressed_zstd = 1

abbrev pub known_batch_mask : ℕ
known_batch_mask = 3

-- `struct ChangeOp`
pub record ChangeOp : Type 0 where
  pub op_type : ChangeOpType
  pub op_flags : ℕ
  pub dbi_flags : ℕ
  pub dbi_name : List ℕ
  pub storage_key : List ℕ
  pub value : List ℕ
  pub identity_key : List ℕ
  pub revision_key : List ℕ

-- `struct ChangeBatch`
pub record ChangeBatch : Type 0 where
  pub version : ℕ
  pub batch_flags : ℕ
  pub origin_node_id : NodeId
  pub seq : ℕ
  pub time_unix_ns : ℕ
  pub ops : List ChangeOp

-- The fields of `struct CodecBounds` that `ChangeBatchCodec` reads.
pub record CodecBounds : Type 0 where
  pub max_ops_per_batch : ℕ
  pub max_dbi_name_len : ℕ
  pub max_storage_key_len : ℕ
  pub max_value_len : ℕ
  pub max_identity_key_len : ℕ
  pub max_revision_key_len : ℕ
  pub max_batch_total_bytes : ℕ

-- The defaults.
abbrev pub default_bounds : CodecBounds
default_bounds = record {
  max_ops_per_batch = 10000;
  max_dbi_name_len = 256;
  max_storage_key_len = 16 * 1024;
  max_value_len = 4 * 1024 * 1024;
  max_identity_key_len = 16 * 1024;
  max_revision_key_len = 16 * 1024;
  max_batch_total_bytes = 64 * 1024 * 1024;
}

-- A limit of a nullable pointer to bounds.
abbrev pub limit : Option CodecBounds → (CodecBounds → ℕ) → Option ℕ
limit none field = none
limit (some bounds) field = some (field bounds)

-- What the C++ types of the fields hold, where every size fits the 32 bits that the wire has for it.
-- The size 2 ^ 32 - 1 of a value is the mark of an absent one.
pub record IsChangeOp (op : ChangeOp) : Type 0 where
  pub type_fits : to_u8 op.op_type < 256
  pub op_flags_fit : IsU32 op.op_flags
  pub dbi_flags_fit : IsU32 op.dbi_flags
  pub dbi_name_fits : IsU32 (length op.dbi_name)
  pub storage_key_fits : IsU32 (length op.storage_key)
  pub value_fits : length op.value + 1 < 2 ^ 32
  pub identity_key_fits : IsU32 (length op.identity_key)
  pub revision_key_fits : IsU32 (length op.revision_key)

pub record IsChangeBatch (batch : ChangeBatch) : Type 0 where
  pub flags_fit : IsU32 batch.batch_flags
  pub origin_fits : length batch.origin_node_id ≡ 16
  pub seq_fits : IsU64 batch.seq
  pub time_fits : IsU64 batch.time_unix_ns
  pub count_fits : IsU32 (length batch.ops)
  pub ops_fit : All IsChangeOp batch.ops
