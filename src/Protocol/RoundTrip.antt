-- ===== src/Protocol/RoundTrip.antt =====
-- `encode` described by its result, and `decode` after it.
use mdbx_containers.Prelude.{
  ℕ, ◌+◌, ◌≡◌, ◌↔◌, refl, sym, ◌∙◌, true, false, not, Option, none, some, List, [], ◌++◌,
  append-nil, ◌==◌, ==_iff, ==-refl, length, ok, arith, >>=-eq-ok, throw_if, throw_if-eq-ok,
}
use mdbx_containers.Reader.Reads.{Within}
use mdbx_containers.Protocol.Batch.{
  ChangeBatch, CodecBounds, IsChangeBatch, has_bits, complement, limit, known_batch_mask,
  batch_compressed_zstd,
}
use mdbx_containers.Protocol.Encode.{
  batch_version, append_header, encode, encode_ops, validate_if, too_long,
}
use mdbx_containers.Protocol.Decode.{decode, decode_exact, finish}
use mdbx_containers.Protocol.Layout.{batch_bytes, stored, IsBatchWritable, read_batch-Reads}
use mdbx_containers.Protocol.Checks.{
  encode_ops_iff, append_header-bytes, validate_if_iff, writable, checked,
}

pub too_long-Within :
    (bounds : Option CodecBounds) (size : ℕ)
    → (too_long bounds size ≡ false) ↔ Within (limit bounds (λ b. b.max_batch_total_bytes)) size
too_long-Within none size = (λ h. tt, λ w. refl)
too_long-Within (some bounds) size = (λ h. ground arith, λ w. ground arith)

-- `encode` returns exactly for the batches that pass its checks and whose encoding is within the limit,
-- and then it returns the bytes of the documented layout.
pub encode_iff :
    (batch : ChangeBatch) (bounds : Option CodecBounds) (out : List ℕ)
    → (encode batch bounds ≡ ok out) ↔ (
        IsBatchWritable bounds batch
        × Within (limit bounds (λ b. b.max_batch_total_bytes)) (length out)
        × (out ≡ batch_bytes batch))
unfolding encode
encode_iff batch bounds out = (forward, backward)
  where
    forward :
        encode batch bounds ≡ ok out
        → IsBatchWritable bounds batch
          × Within (limit bounds (λ b. b.max_batch_total_bytes)) (length out)
          × (out ≡ batch_bytes batch)
    forward h =
        let (u1, e1, h1) = >>=-eq-ok (validate_if bounds batch) _ h in
        let (u2, e2, h2) = >>=-eq-ok (throw_if (not (batch.version == batch_version)) _) _ h1 in
        let (u3, e3, h3) =
          >>=-eq-ok (throw_if (has_bits batch.batch_flags batch_compressed_zstd) _) _ h2 in
        let (u4, e4, h4) =
          >>=-eq-ok (throw_if (has_bits batch.batch_flags (complement known_batch_mask)) _) _ h3 in
        let (out', e5, h5) = >>=-eq-ok (encode_ops (append_header batch) batch.ops) _ h4 in
        let (u6, e6, h6) = >>=-eq-ok (throw_if (too_long bounds (length out')) _) _ h5 in
        let (few, within) = (validate_if_iff bounds batch).0 e1 in
        let (correct, e) = (encode_ops_iff (append_header batch) batch.ops out').0 e5 in
        let same : out' ≡ out = cc in
        let version = throw_if-eq-ok _ _ e2 in
        (
          record {
            version = ground arith;
            not_compressed = throw_if-eq-ok _ _ e3;
            known_flags = throw_if-eq-ok _ _ e4;
            count_within = few;
            ops_writable = writable bounds batch.ops correct within;
          },
          rw (← same) ((too_long-Within bounds (length out')).0 (throw_if-eq-ok _ _ e6)),
          sym same ∙ e ∙ append_header-bytes batch,
        )

    backward :
        IsBatchWritable bounds batch
          × Within (limit bounds (λ b. b.max_batch_total_bytes)) (length out)
          × (out ≡ batch_bytes batch)
        → encode batch bounds ≡ ok out
    backward (w, total, e) =
        let (correct, within) = checked bounds batch.ops w.ops_writable in
        let version : (batch.version == batch_version) ≡ true = (==_iff _ _).1 w.version in
        let body : encode_ops (append_header batch) batch.ops ≡ ok out =
          (encode_ops_iff (append_header batch) batch.ops out).1
            (correct, e ∙ sym (append_header-bytes batch)) in
        rw ((validate_if_iff bounds batch).1 (w.count_within, within)) (
          rw version (
            rw w.not_compressed
              (rw w.known_flags (rw body (rw ((too_long-Within bounds (length out)).1 total))))))

-- A stream decoder that finds in front of any bytes what `encode` wrote with the same bounds returns the batch,
-- without the keys whose flags are not set, and the size of its encoding, for a batch whose fields fit the
-- wire.
pub decode-encode_stream :
    (batch : ChangeBatch) (bounds : Option CodecBounds) (out rest : List ℕ)
    → IsChangeBatch batch
    → encode batch bounds ≡ ok out
    → decode (out ++ rest) true bounds ≡ ok (stored batch, length out)
unfolding decode finish
decode-encode_stream batch bounds out rest f h =
    let (w, total, e) = (encode_iff batch bounds out).0 h in
    let run = (read_batch-Reads bounds batch f w).run rest 0 in
    let pos : 0 + length (batch_bytes batch) ≡ length (batch_bytes batch) = omega arith in
    rw e (
      rw (run, decode)
        (rw (pos, finish)
          (rw ((too_long-Within bounds (length (batch_bytes batch))).1 (rw e at total), finish))))

-- `decode_exact` reads back what `encode` wrote with the same bounds, for a batch whose fields fit the wire:
-- the batch, without the keys whose flags are not set.
pub decode_exact-encode :
    (batch : ChangeBatch) (bounds : Option CodecBounds) (out : List ℕ)
    → IsChangeBatch batch
    → encode batch bounds ≡ ok out
    → decode_exact out bounds ≡ ok (stored batch)
unfolding decode_exact
decode_exact-encode batch bounds out f h =
    let run : decode out true bounds ≡ ok (stored batch, length out) =
      rw (append-nil out) at (decode-encode_stream batch bounds out [] f h) in
    rw (run, decode_exact) (rw (==-refl (length out)))
