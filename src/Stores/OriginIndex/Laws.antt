-- ===== src/Stores/OriginIndex/Laws.antt =====
-- include/mdbx_containers/sync/stores/OriginIndexStore.hpp: the tail of an origin only grows.
use mdbx_containers.Prelude.{
  ℕ, ◌≡◌, refl, sym, true, false, Option, none, some, [], leb, ok, arith, bytes_eq, bytes_eq_sound,
  bytes_eq_refl, if◌then◌else◌, append-nil, Bool-cases, String, inl, inr, ◌⊎◌,
}
use mdbx_containers.Bytes.{IsU64, write_u64_le}
use mdbx_containers.Bytes.Words.{read-write_u64_le, length-write_u64_le}
use mdbx_containers.NodeId.{NodeId}
use mdbx_containers.Stateful.{◌>>=◌, ◌>>◌, pure, throw_when}
use mdbx_containers.Stateful.Laws.{bind-eq-ok, then-eq-ok}
use mdbx_containers.Mdbx.{Bytes, Mdbx, IsMdbx, done, check_write}
use mdbx_containers.Stores.{Store, find, ensure_open, upsert}
use mdbx_containers.Stores.OriginIndex.{
  is_bad_value, seq_of, covers, ensure_ready, last_seq, note_origin,
}

-- The tail after a number was noted.
abbrev pub noted : Option ℕ → ℕ → ℕ
noted none seq = seq
noted (some current) seq = if leb seq current then current else seq

module _ (db : Mdbx) (s : Store) where
  last_seq-get :
      (p : NodeId) (t t' : db.Txn) (r : Option ℕ)
      → db.get s.dbi_name p t' ≡ db.get s.dbi_name p t
      → last_seq db s p t ≡ ok (r, t)
      → last_seq db s p t' ≡ ok (r, t')
  unfolding last_seq ensure_ready ensure_open throw_when find ◌>>=◌ ◌>>◌ pure is_bad_value seq_of
  last_seq-get p t t' r e h = ground arith

  last_seq_unchanged :
      (p : NodeId) (t t' : db.Txn) (r : Option ℕ) → last_seq db s p t ≡ ok (r, t') → t ≡ t'
  unfolding last_seq ensure_ready ensure_open throw_when find ◌>>=◌ ◌>>◌ pure is_bad_value seq_of
  last_seq_unchanged p t t' r h = ground arith

  last_seq_written :
      (p : NodeId) (t t' t1 : db.Txn) (r : Option ℕ) (seq : ℕ)
      → IsU64 seq
      → last_seq db s p t ≡ ok (r, t1)
      → db.get s.dbi_name p t' ≡ done (write_u64_le seq)
      → last_seq db s p t' ≡ ok (some seq, t')
  unfolding last_seq ensure_ready ensure_open throw_when find ◌>>=◌ ◌>>◌ pure is_bad_value seq_of
  last_seq_written p t t' t1 r seq u h e =
      ground
        (arith, read-write_u64_le seq [] u, append-nil (write_u64_le seq), length-write_u64_le seq)

  covers-noted : (r : Option ℕ) (seq : ℕ) → covers r seq ≡ true → r ≡ some (noted r seq)
  unfolding covers
  covers-noted none seq h = cc
  covers-noted (some current) seq h = ground arith

  covers_not-noted : (r : Option ℕ) (seq : ℕ) → covers r seq ≡ false → noted r seq ≡ seq
  unfolding covers
  covers_not-noted none seq h = refl
  covers_not-noted (some current) seq h = ground arith

  upsert-get :
      (laws : IsMdbx db) (k v : Bytes) (context : String) (t t' : db.Txn) (p : Bytes)
      → upsert db s.dbi_name k v context t ≡ ok (tt, t')
      → db.get s.dbi_name p t' ≡ (if bytes_eq k p then done v else db.get s.dbi_name p t)
  unfolding upsert check_write
  upsert-get laws k v context t t' p h =
      ground (arith, laws.get-put s.dbi_name k v t t' s.dbi_name p, bytes_eq_refl s.dbi_name)

  ensure_unchanged : (t t' : db.Txn) → ensure_ready db s t ≡ ok (tt, t') → t ≡ t'
  unfolding ensure_ready ensure_open throw_when
  ensure_unchanged t t' h = ground arith

  -- What `note_origin` read, and that it wrote the number unless the tail covered it.
  note_origin-eq-ok :
      (origin : NodeId) (seq : ℕ) (t t' : db.Txn)
      → note_origin db s origin seq t ≡ ok (tt, t')
      → (r : Option ℕ) × (last_seq db s origin t ≡ ok (r, t))
        × ((covers r seq ≡ true) × (t ≡ t')
            ⊎ (covers r seq ≡ false)
              × (upsert db s.dbi_name origin
                    (write_u64_le seq)
                    "OriginIndexStore note_origin failed"
                    t
                  ≡ ok (tt, t')))
  unfolding note_origin pure
  note_origin-eq-ok origin seq t t' h =
      let (t1, e1, h1) = then-eq-ok (ensure_ready db s) _ t h in
      let same = ensure_unchanged t t1 e1 in
      let (r, t2, e2, h2) = bind-eq-ok (last_seq db s origin) _ t1 h1 in
      let unchanged = last_seq_unchanged origin t1 t2 r e2 in
      (
        r,
        cc,
        elim (Bool-cases (covers r seq)) [
          | inl c ↦ inl (c, ground arith)
          | inr c ↦ inr (c, rw (sym unchanged, sym same) at (rw c at h2))
        ],
      )

  -- A call of `note_origin` that returns, with a number of 64 bits, leaves the greater of the number and the tail
  -- that was there as the tail of its origin, and every other origin's tail as it was.
  pub note_origin_max :
      (laws : IsMdbx db) (origin : NodeId) (seq : ℕ) (t t' : db.Txn) (p : NodeId)
      (before : Option ℕ)
      → IsU64 seq
      → note_origin db s origin seq t ≡ ok (tt, t')
      → last_seq db s p t ≡ ok (before, t)
      → last_seq db s p t'
        ≡ ok ((if bytes_eq origin p then some (noted before seq) else before), t')
  note_origin_max laws origin seq t t' p before u h b =
      let (r, e, step) = note_origin-eq-ok origin seq t t' h in
      let same_key = bytes_eq_sound origin p in
      elim step [
        | inl (c, same) ↦ ground (arith, covers-noted r seq c, same_key)
        | inr (c, put) ↦
            let got = upsert-get laws origin (write_u64_le seq) _ t t' p put in
            ground (
              arith,
              covers_not-noted r seq c,
              same_key,
              got,
              last_seq_written p t t' t before seq u b,
              last_seq-get p t t' before,
            )
      ]
