-- ===== src/Protocol/Checks.antt =====
-- What it takes for `encode` to return, and what it returns then.
use mdbx_containers.Prelude.{
  ℕ, ◌≡◌, ◌↔◌, refl, sym, ◌∙◌, false, not, ◌&&◌, Option, none, some, List, [], ◌∷◌, ◌++◌,
  append_assoc, append-nil, ltb, length, is_empty, ok, arith, All, >>=-eq-ok, throw_if,
  throw_if-eq-ok,
}
use mdbx_containers.Bytes.{append_u16_le, append_u32_le, append_u64_le}
use mdbx_containers.Reader.Reads.{Within}
use mdbx_containers.Protocol.Batch.{
  to_u8, ChangeOp, ChangeBatch, CodecBounds, has_bits, complement, limit, known_op_mask,
  op_has_identity_key, op_has_revision_key, op_tombstone,
}
use mdbx_containers.Protocol.Encode.{
  append_header, append_bytes, encode_ops, append_op, check_op, validate_bounds, validate_ops,
  validate_op, validate_if,
}
use mdbx_containers.Protocol.Operations.{append_op-bytes, IsWritable}
use mdbx_containers.Protocol.Layout.{ops_bytes, batch_bytes}

pub record IsChecked (op : ChangeOp) : Type 0 where
  pub known_type : ltb 2 (to_u8 op.op_type) ≡ false
  pub known_flags : has_bits op.op_flags (complement known_op_mask) ≡ false
  pub identity : (has_bits op.op_flags op_has_identity_key && is_empty op.identity_key) ≡ false
  pub revision : (has_bits op.op_flags op_has_revision_key && is_empty op.revision_key) ≡ false
  pub tombstone : (has_bits op.op_flags op_tombstone && not (is_empty op.value)) ≡ false

check_op-ok : (op : ChangeOp) → check_op op ≡ ok tt → IsChecked op
unfolding check_op
check_op-ok op h = ground arith

check_op-IsChecked : (op : ChangeOp) → IsChecked op → check_op op ≡ ok tt
unfolding check_op
check_op-IsChecked op w =
    rw w.known_type (rw w.known_flags (rw w.identity (rw w.revision (rw w.tombstone))))

-- What `validate_bounds` has checked of an operation.
pub record IsBounded (bounds : Option CodecBounds) (op : ChangeOp) : Type 0 where
  pub name_within : Within (limit bounds (λ b. b.max_dbi_name_len)) (length op.dbi_name)
  pub key_within : Within (limit bounds (λ b. b.max_storage_key_len)) (length op.storage_key)
  pub value_within : Within (limit bounds (λ b. b.max_value_len)) (length op.value)
  pub identity_within : Within (limit bounds (λ b. b.max_identity_key_len)) (length op.identity_key)
  pub revision_within : Within (limit bounds (λ b. b.max_revision_key_len)) (length op.revision_key)

validate_op_iff :
    (bounds : CodecBounds) (op : ChangeOp)
    → (validate_op bounds op ≡ ok tt) ↔ IsBounded (some bounds) op
unfolding validate_op
validate_op_iff bounds op = (λ h. ground arith, λ w. ground arith)

validate_ops_iff :
    (bounds : CodecBounds) (ops : List ChangeOp)
    → (validate_ops bounds ops ≡ ok tt) ↔ All (IsBounded (some bounds)) ops
unfolding validate_ops
validate_ops_iff bounds [] = (λ h. tt, λ w. refl)
validate_ops_iff bounds (op ∷ ops) = (
  λ h.
      let (u, first, rest) = >>=-eq-ok (validate_op bounds op) (λ _. validate_ops bounds ops) h in
      ((validate_op_iff bounds op).0 first, (validate_ops_iff bounds ops).0 rest),
  λ w. rw ((validate_op_iff bounds op).1 w.0) ((validate_ops_iff bounds ops).1 w.1),
)

pub append_header-bytes :
    (batch : ChangeBatch) → append_header batch ++ ops_bytes batch.ops ≡ batch_bytes batch
unfolding append_header batch_bytes append_bytes append_u16_le append_u32_le append_u64_le
append_header-bytes batch = simp append_assoc

pub encode_ops_iff :
    (out : List ℕ) (ops : List ChangeOp) (out' : List ℕ)
    → (encode_ops out ops ≡ ok out') ↔ (All IsChecked ops × (out' ≡ out ++ ops_bytes ops))
unfolding encode_ops ops_bytes
encode_ops_iff out [] out' = (λ h. (tt, rw (append-nil out) (cc)), λ w. rw (w.1, append-nil out))
encode_ops_iff out (op ∷ ops) out' = (
  λ h.
      let (u, first, rest) = >>=-eq-ok (check_op op) (λ _. encode_ops (append_op out op) ops) h in
      let (w, e) = (encode_ops_iff (append_op out op) ops out').0 rest in
      ((check_op-ok op first, w), e ∙ simp (append_op-bytes, append_assoc)),
  λ w. rw (check_op-IsChecked op w.0.0) (
      (encode_ops_iff (append_op out op) ops out').1
        (w.0.1, w.1 ∙ sym (simp (append_op-bytes, append_assoc)))),
)

pub writable :
    (bounds : Option CodecBounds) (ops : List ChangeOp)
    → All IsChecked ops
    → All (IsBounded bounds) ops
    → All (IsWritable bounds) ops
writable bounds [] c w = tt
writable bounds (op ∷ ops) c w = (
  record {
    known_type = c.0.known_type;
    known_flags = c.0.known_flags;
    identity = c.0.identity;
    revision = c.0.revision;
    tombstone = c.0.tombstone;
    name_within = w.0.name_within;
    key_within = w.0.key_within;
    value_within = w.0.value_within;
    identity_within = w.0.identity_within;
    revision_within = w.0.revision_within;
  },
  writable bounds ops c.1 w.1,
)

pub checked :
    (bounds : Option CodecBounds) (ops : List ChangeOp)
    → All (IsWritable bounds) ops
    → All IsChecked ops × All (IsBounded bounds) ops
checked bounds [] w = (tt, tt)
checked bounds (op ∷ ops) w =
    let (c, b) = checked bounds ops w.1 in
    (
      (
        record {
          known_type = w.0.known_type;
          known_flags = w.0.known_flags;
          identity = w.0.identity;
          revision = w.0.revision;
          tombstone = w.0.tombstone;
        },
        c,
      ),
      (
        record {
          name_within = w.0.name_within;
          key_within = w.0.key_within;
          value_within = w.0.value_within;
          identity_within = w.0.identity_within;
          revision_within = w.0.revision_within;
        },
        b,
      ),
    )

unbounded : (ops : List ChangeOp) → All (IsBounded none) ops
unbounded [] = tt
unbounded (op ∷ ops) = (
  record {
    name_within = tt;
    key_within = tt;
    value_within = tt;
    identity_within = tt;
    revision_within = tt;
  },
  unbounded ops,
)

pub validate_if_iff :
    (bounds : Option CodecBounds) (batch : ChangeBatch)
    → (validate_if bounds batch ≡ ok tt) ↔ (
        Within (limit bounds (λ b. b.max_ops_per_batch)) (length batch.ops)
        × All (IsBounded bounds) batch.ops)
unfolding validate_bounds
validate_if_iff none batch = (λ h. (tt, unbounded batch.ops), λ w. refl)
validate_if_iff (some bounds) batch = (
  λ h.
      let (u, first, rest) =
        >>=-eq-ok (throw_if (ltb bounds.max_ops_per_batch (length batch.ops)) _)
          (λ _. validate_ops bounds batch.ops) h in
      let few = throw_if-eq-ok _ _ first in
      (ground arith, (validate_ops_iff bounds batch.ops).0 rest),
  λ w.
      let few : ltb bounds.max_ops_per_batch (length batch.ops) ≡ false = ground arith in
      rw few ((validate_ops_iff bounds batch.ops).1 w.1),
)
