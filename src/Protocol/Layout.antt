-- ===== src/Protocol/Layout.antt =====
-- `decode_exact` after `encode`.
use mdbx_containers.Prelude.{
  ℕ, ◌≡◌, refl, false, Option, List, [], ◌∷◌, ◌++◌, map, length, arith, All,
}
use native.Mathlib.Nat.{mod-eq_of_lt}
use mdbx_containers.Bytes.{to_u32, write_u16_le, write_u32_le, write_u64_le}
use mdbx_containers.NodeId.Laws.{compare_bytes_refl}
use mdbx_containers.Reader.Reads.{
  Reads, Reads-bind, Reads-last, Reads-then, Reads-guard, Reads-pass, Reads-pure, read_u16-Reads,
  read_u32-Reads, read_u64-Reads, read_bytes-Reads, Within, Within-test,
}
use mdbx_containers.Protocol.Batch.{
  ChangeOp, ChangeBatch, CodecBounds, has_bits, complement, limit, known_batch_mask,
  batch_compressed_zstd, IsChangeOp, IsChangeBatch,
}
use mdbx_containers.Protocol.Encode.{magic, codec_version, batch_version}
use mdbx_containers.Protocol.Decode.{underrun, check_magic, read_ops, read_batch}
use mdbx_containers.Protocol.Operations.{op_bytes, stored_op, IsWritable, read_op-Reads}

unfoldable pub ops_bytes : List ChangeOp → List ℕ
ops_bytes [] = []
ops_bytes (op ∷ ops) = op_bytes op ++ ops_bytes ops

-- The layout of a batch, from the comment at the head of ChangeBatchCodec.hpp.
unfoldable pub batch_bytes : ChangeBatch → List ℕ
batch_bytes batch =
    magic
    ++ (write_u16_le codec_version
        ++ (write_u32_le batch_version
            ++ (write_u32_le batch.batch_flags
                ++ (batch.origin_node_id
                    ++ (write_u64_le batch.seq
                        ++ (write_u64_le batch.time_unix_ns
                            ++ (write_u32_le (to_u32 (length batch.ops))
                                ++ ops_bytes batch.ops)))))))

unfoldable pub stored : ChangeBatch → ChangeBatch
stored batch = record batch { ops = map stored_op batch.ops }

-- What `encode` has checked of a batch, with its bounds.
pub record IsBatchWritable (bounds : Option CodecBounds) (batch : ChangeBatch) : Type 0 where
  pub version : batch.version ≡ batch_version
  pub not_compressed : has_bits batch.batch_flags batch_compressed_zstd ≡ false
  pub known_flags : has_bits batch.batch_flags (complement known_batch_mask) ≡ false
  pub count_within : Within (limit bounds (λ b. b.max_ops_per_batch)) (length batch.ops)
  pub ops_writable : All (IsWritable bounds) batch.ops

read_ops-Reads :
    (bounds : Option CodecBounds) (ops : List ChangeOp)
    → All IsChangeOp ops
    → All (IsWritable bounds) ops
    → Reads (read_ops bounds (length ops)) (ops_bytes ops) (map stored_op ops)
unfolding read_ops ops_bytes
read_ops-Reads bounds [] f w = Reads-pure []
read_ops-Reads bounds (op ∷ ops) f w =
    Reads-bind _ _ (read_op-Reads bounds op f.0 w.0)
      (Reads-last _ _ (read_ops-Reads bounds ops f.1 w.1) (Reads-pure _))

check_magic-Reads : Reads check_magic magic tt
unfolding check_magic magic
check_magic-Reads =
    Reads-last _ _ (read_bytes-Reads underrun magic 8 refl)
      (Reads-pass _ _ (rw (compare_bytes_refl magic)))

pub read_batch-Reads :
    (bounds : Option CodecBounds) (batch : ChangeBatch)
    → IsChangeBatch batch
    → IsBatchWritable bounds batch
    → Reads (read_batch bounds) (batch_bytes batch) (stored batch)
unfolding read_batch batch_bytes stored
read_batch-Reads bounds batch f w = Reads-then _ _ check_magic-Reads (
    Reads-bind _ _ (read_u16-Reads underrun codec_version (omega arith)) (
      Reads-guard _ _ _ refl (
        Reads-bind _ _ (read_u32-Reads underrun batch_version (omega arith)) (
          Reads-guard _ _ _ refl (
            Reads-bind _ _ (read_u32-Reads underrun batch.batch_flags f.flags_fit) (
              Reads-guard _ _ _ w.not_compressed (
                Reads-guard _ _ _ w.known_flags (
                  Reads-bind _ _ (read_bytes-Reads underrun batch.origin_node_id 16 f.origin_fits) (
                    Reads-bind _ _ (read_u64-Reads underrun batch.seq f.seq_fits) (
                      Reads-bind _ _ (read_u64-Reads underrun batch.time_unix_ns f.time_fits) (
                        rw (mod-eq_of_lt f.count_fits) (
                          Reads-bind _ _ (read_u32-Reads underrun (length batch.ops) f.count_fits) (
                            Reads-guard _ _ _ (Within-test _ _ w.count_within) (
                              Reads-last _ _
                                (read_ops-Reads bounds batch.ops f.ops_fit w.ops_writable)
                                (rw (← w.version) (Reads-pure _))))))))))))))))
