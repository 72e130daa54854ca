-- ===== src/Protocol/Prefixes.antt =====
-- The decoder on cut input.
use mdbx_containers.Prelude.{
  ℕ, zero, suc, ◌+◌, ◌≡◌, refl, sym, ap, ◌∙◌, Bool, true, Option, List, [], ◌∷◌, ◌++◌, append-nil,
  length, length-append, Result, ok, throw, Exception, arith,
}
use mdbx_containers.Reader.{Cursor, Read}
use mdbx_containers.Reader.Reads.{at}
use mdbx_containers.Reader.Extends.{
  Extends, Extends-bind, Extends-pure, Extends-if, Extends-read_sized, extends_rules,
}
use mdbx_containers.Protocol.Batch.{ChangeBatch, CodecBounds, IsChangeBatch}
use mdbx_containers.Protocol.Encode.{encode}
use mdbx_containers.Protocol.Decode.{
  check_magic, read_value, read_if, read_op, read_ops, read_batch, decode, decode_exact,
}
use mdbx_containers.Protocol.Layout.{batch_bytes, stored, read_batch-Reads}
use mdbx_containers.Protocol.RoundTrip.{encode_iff}

Extends-check_magic : Extends check_magic
unfolding check_magic
Extends-check_magic = search extends_rules depth 8

Extends-read_value : (most : Option ℕ) → Extends (read_value most)
unfolding read_value
Extends-read_value most = search extends_rules depth 9

Extends-read_if :
    (present : Bool) (field : Read (List ℕ)) → Extends field → Extends (read_if present field)
unfolding read_if
Extends-read_if present field h = Extends-if present field _ h (Extends-pure [])

ruleset codec_rules =
    (extends_rules, Extends-read_sized, Extends-check_magic, Extends-read_value, Extends-read_if)

pub Extends-read_op : (bounds : Option CodecBounds) → Extends (read_op bounds)
unfolding read_op
Extends-read_op bounds = search codec_rules depth 30

pub Extends-read_ops : (bounds : Option CodecBounds) (count : ℕ) → Extends (read_ops bounds count)
unfolding read_ops
Extends-read_ops bounds zero = Extends-pure []
Extends-read_ops bounds (suc count) =
    Extends-bind _ _ (Extends-read_op bounds)
      (λ op. Extends-bind _ _ (Extends-read_ops bounds count) (λ ops. Extends-pure _))

pub Extends-read_batch : (bounds : Option CodecBounds) → Extends (read_batch bounds)
unfolding read_batch
Extends-read_batch bounds = search (codec_rules, Extends-read_ops) depth 40

-- On a proper prefix of an encoded batch the reads of the decoder throw.
read_batch_cut :
    (batch : ChangeBatch) (bounds : Option CodecBounds) (out front back : List ℕ) (x : ℕ)
    → IsChangeBatch batch
    → encode batch bounds ≡ ok out
    → out ≡ front ++ (x ∷ back)
    → (e : Exception) × (read_batch bounds (at front 0) ≡ throw e)
read_batch_cut batch bounds out front back x f h cut = go (read_batch bounds (at front 0)) refl
  where
    whole :
        read_batch bounds (at (front ++ (x ∷ back)) 0)
        ≡ ok (stored batch, at [] (0 + length (batch_bytes batch)))
    whole =
        let (w, total, e) = (encode_iff batch bounds out).0 h in
        rw (sym cut ∙ e)
          (rw (append-nil (batch_bytes batch)) at ((read_batch-Reads bounds batch f w).run [] 0))

    go :
        (r : Result (ChangeBatch × Cursor))
        → read_batch bounds (at front 0) ≡ r
        → (e : Exception) × (read_batch bounds (at front 0) ≡ throw e)
    go (ok (b, c)) e =
        let more = (Extends-read_batch bounds).run (at front 0) (x ∷ back) e in
        let left : c.rest ++ (x ∷ back) ≡ [] = cc (whole, more) in
        absurd (omega (arith, ap length left, length-append c.rest (x ∷ back)))
    go (throw y) e = (y, e)

-- A proper prefix of what `encode` wrote is never taken for a batch, where the fields of the batch fit the
-- wire: with the same bounds both decoders throw, the strict one and the one that reads from a stream.
pub decode_cut :
    (batch : ChangeBatch) (bounds : Option CodecBounds) (out front back : List ℕ) (x : ℕ)
    → IsChangeBatch batch
    → encode batch bounds ≡ ok out
    → out ≡ front ++ (x ∷ back)
    → (e : Exception) × (decode front true bounds ≡ throw e) × (decode_exact front bounds ≡ throw e)
unfolding decode decode_exact
decode_cut batch bounds out front back x f h cut =
    let (e, run) = read_batch_cut batch bounds out front back x f h cut in
    (e, rw (run, decode), rw (run, decode_exact, decode))
