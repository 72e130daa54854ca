-- ===== src/Protocol/Soundness.antt =====
-- The decoder accepts only batches that the encoder writes.
use mdbx_containers.Prelude.{
  ℕ, zero, suc, ◌≡◌, refl, ap, ◌∙◌, Bool, true, false, not, Option, none, some, List, [], ◌∷◌, ◌==◌,
  length, Result, ok, throw, runtime_error, arith, All, if◌then◌else◌,
}
use mdbx_containers.Reader.{Cursor, Read}
use mdbx_containers.Reader.Reads.{Within, at}
use mdbx_containers.Reader.Ensures.{
  Ensures, Ensures-bind, Ensures-skip, Ensures-then, Ensures-guard, Ensures-pure, Ensures-if,
  Ensures-checked, Ensures-read_sized, Within-of,
}
use mdbx_containers.Protocol.Batch.{to_u8, of_u8, ChangeOp, ChangeBatch, CodecBounds, limit}
use mdbx_containers.Protocol.Encode.{encode, too_long}
use mdbx_containers.Protocol.Decode.{
  read_value, read_if, read_op, read_ops, read_batch, decode, decode_exact, finish,
}
use mdbx_containers.Protocol.Operations.{IsWritable}
use mdbx_containers.Protocol.Layout.{IsBatchWritable, batch_bytes}
use mdbx_containers.Protocol.RoundTrip.{encode_iff, too_long-Within}

to_u8-of_u8 : (n : ℕ) → to_u8 (of_u8 n) ≡ n
unfolding to_u8 of_u8
to_u8-of_u8 zero = refl
to_u8-of_u8 (suc zero) = refl
to_u8-of_u8 (suc (suc zero)) = refl
to_u8-of_u8 (suc (suc (suc n))) = omega arith

Within-zero : (most : Option ℕ) → Within most 0
Within-zero none = tt
Within-zero (some m) = omega arith

Ensures-read_value :
    (most : Option ℕ) → Ensures (read_value most) (λ value. Within most (length value))
unfolding read_value
Ensures-read_value most =
    Ensures-skip _ _
      λ size. Ensures-if _ _ _ (Ensures-pure [] (Within-zero most)) (Ensures-checked _ most size _)

Ensures-read_if :
    (present : Bool) (most : Option ℕ) (field : Read (List ℕ))
    → Ensures field (λ bytes. Within most (length bytes))
    → Ensures (read_if present field) (λ bytes. Within most (length bytes))
unfolding read_if
Ensures-read_if true most field h = h
Ensures-read_if false most field h = Ensures-pure [] (Within-zero most)

pub Ensures-read_op : (bounds : Option CodecBounds) → Ensures (read_op bounds) (IsWritable bounds)
unfolding read_op
Ensures-read_op bounds = Ensures-skip _ _ λ op_type. Ensures-guard _ _ _ λ known_type.
    Ensures-skip _ _ λ op_flags. Ensures-guard _ _ _ λ known_flags. Ensures-skip _ _ λ dbi_flags.
      Ensures-bind _ _ _ (Ensures-read_sized _ _ _) λ dbi_name name_within.
        Ensures-bind _ _ _ (Ensures-read_sized _ _ _) λ storage_key key_within.
          Ensures-bind _ _ _ (Ensures-read_value _) λ value value_within.
            Ensures-bind _ _ _ (Ensures-read_if _ _ _ (Ensures-read_sized _ _ _))
              λ identity_key identity_within.
                Ensures-bind _ _ _ (Ensures-read_if _ _ _ (Ensures-read_sized _ _ _))
                  λ revision_key revision_within. Ensures-guard _ _ _ λ tombstone.
                    Ensures-guard _ _ _ λ identity. Ensures-guard _ _ _ λ revision.
                      Ensures-pure _ (record {
                        known_type = rw (to_u8-of_u8 op_type) known_type;
                        known_flags = known_flags;
                        identity = identity;
                        revision = revision;
                        tombstone = tombstone;
                        name_within = name_within;
                        key_within = key_within;
                        value_within = value_within;
                        identity_within = identity_within;
                        revision_within = revision_within;
                      })

Ensures-read_ops :
    (bounds : Option CodecBounds) (count : ℕ)
    → Ensures (read_ops bounds count) (λ ops. (length ops ≡ count) × All (IsWritable bounds) ops)
unfolding read_ops
Ensures-read_ops bounds zero = Ensures-pure [] (refl, tt)
Ensures-read_ops bounds (suc count) = Ensures-bind _ _ _ (Ensures-read_op bounds) λ op h.
    Ensures-bind _ _ _ (Ensures-read_ops bounds count)
      λ ops hs. Ensures-pure (op ∷ ops) (ap suc hs.0, (h, hs.1))

pub Ensures-read_batch :
    (bounds : Option CodecBounds) → Ensures (read_batch bounds) (IsBatchWritable bounds)
unfolding read_batch
Ensures-read_batch bounds = Ensures-then _ _ (
    Ensures-skip _ _ λ cv. Ensures-then _ _ (
      Ensures-skip _ _ λ bv. Ensures-guard _ _ _ λ version. Ensures-skip _ _ λ batch_flags.
        Ensures-guard _ _ _ λ not_compressed. Ensures-guard _ _ _ λ known_flags.
          Ensures-skip _ _ λ origin. Ensures-skip _ _ λ seq. Ensures-skip _ _ λ time_unix_ns.
            Ensures-skip _ _ λ ops_count. Ensures-guard _ _ _ λ few.
              Ensures-bind _ _ _ (Ensures-read_ops bounds ops_count) λ ops h.
                Ensures-pure _ (record {
                  version = ground arith;
                  not_compressed = not_compressed;
                  known_flags = known_flags;
                  count_within = rw h.0 (Within-of _ ops_count few);
                  ops_writable = h.1;
                })))

unbounded_op :
    (bounds : Option CodecBounds) (op : ChangeOp) → IsWritable bounds op → IsWritable none op
unbounded_op bounds op w = record {
  known_type = w.known_type;
  known_flags = w.known_flags;
  identity = w.identity;
  revision = w.revision;
  tombstone = w.tombstone;
  name_within = tt;
  key_within = tt;
  value_within = tt;
  identity_within = tt;
  revision_within = tt;
}

unbounded_ops :
    (bounds : Option CodecBounds) (ops : List ChangeOp)
    → All (IsWritable bounds) ops
    → All (IsWritable none) ops
unbounded_ops bounds [] w = tt
unbounded_ops bounds (op ∷ ops) w = (unbounded_op bounds op w.0, unbounded_ops bounds ops w.1)

unbounded_writable :
    (bounds : Option CodecBounds) (batch : ChangeBatch)
    → IsBatchWritable bounds batch
    → IsBatchWritable none batch
unbounded_writable bounds batch w = record {
  version = w.version;
  not_compressed = w.not_compressed;
  known_flags = w.known_flags;
  count_within = tt;
  ops_writable = unbounded_ops bounds batch.ops w.ops_writable;
}

finish-eq-ok :
    (bytes : List ℕ) (bounds : Option CodecBounds) (r : ChangeBatch × Cursor) {batch : ChangeBatch}
    {consumed : ℕ}
    → finish bytes true bounds r ≡ ok (batch, consumed)
    → (too_long bounds consumed ≡ false) × (r.0 ≡ batch)
unfolding finish
finish-eq-ok bytes none r h = ground arith
finish-eq-ok bytes (some b) r h = ground arith

decode-eq-ok :
    (bytes : List ℕ) (bounds : Option CodecBounds) {batch : ChangeBatch} {consumed : ℕ}
    → decode bytes true bounds ≡ ok (batch, consumed)
    → (too_long bounds consumed ≡ false)
      × (c : Cursor) × (read_batch bounds (at bytes 0) ≡ ok (batch, c))
unfolding decode
decode-eq-ok bytes bounds {batch} {consumed} h = go (read_batch bounds (at bytes 0)) refl h
  where
    go :
        (r : Result (ChangeBatch × Cursor))
        → read_batch bounds (at bytes 0) ≡ r
        → (elim r [ ok p ↦ finish bytes true bounds p | throw e ↦ throw e ]) ≡ ok (batch, consumed)
        → (too_long bounds consumed ≡ false)
          × (c : Cursor) × (read_batch bounds (at bytes 0) ≡ ok (batch, c))
    go (ok (b, c)) e k =
        let (short, same) = finish-eq-ok bytes bounds (b, c) k in
        (short, c, e ∙ ap (λ x. ok (x, c)) same)
    go (throw x) e k = cc

-- A batch that `decode_exact` accepts with some bounds passes every check of the encoder with those
-- bounds, its input is within the limit on the size of a batch, and `encode` with no bounds writes it.
pub decode_exact_sound :
    (bytes : List ℕ) (bounds : Option CodecBounds) (batch : ChangeBatch)
    → decode_exact bytes bounds ≡ ok batch
    → IsBatchWritable bounds batch
      × Within (limit bounds (λ b. b.max_batch_total_bytes)) (length bytes)
      × (encode batch none ≡ ok (batch_bytes batch))
unfolding decode_exact
decode_exact_sound bytes bounds batch h = go (decode bytes true bounds) refl h
  where
    go :
        (r : Result (ChangeBatch × ℕ))
        → decode bytes true bounds ≡ r
        → (elim r [
          | ok (b, consumed) ↦
              if not (consumed == length bytes)
              then throw (runtime_error "Trailing bytes after ChangeBatch")
              else ok b
          | throw e ↦ throw e
        ])
          ≡ ok batch
        → IsBatchWritable bounds batch
          × Within (limit bounds (λ b. b.max_batch_total_bytes)) (length bytes)
          × (encode batch none ≡ ok (batch_bytes batch))
    go (throw x) e k = cc
    go (ok (b, consumed)) e k =
        let whole : consumed ≡ length bytes = ground arith in
        let same : b ≡ batch = ground arith in
        let (short, c, run) = decode-eq-ok bytes bounds e in
        let w : IsBatchWritable bounds batch =
          rw same at ((Ensures-read_batch bounds).holds (at bytes 0) run) in
        (
          w,
          rw whole at ((too_long-Within bounds consumed).0 short),
          (encode_iff batch none (batch_bytes batch)).1
              (unbounded_writable bounds batch w, tt, refl),
        )
