-- ===== src/Engine/Cursor.antt =====
-- include/mdbx_containers/sync/engine/SyncEngine.hpp: `apply_batch_ex` and the cursor of an origin, that is
-- the number that `AppliedStore` has for it.
use mdbx_containers.Prelude.{
  ℕ, ◌+◌, ◌%◌, ◌^◌, leb, ◌==◌, ◌≡◌, ◌≢◌, refl, sym, ap, ◌∙◌, Bool, true, false, not, Option, some,
  [], ok, arith, if◌then◌else◌, inl, inr, append-nil,
}
use mdbx_containers.Stateful.{pure}
use mdbx_containers.Stateful.Laws.{bind-eq-ok, then-eq-ok, guard-eq-ok, pure-eq-ok}
use mdbx_containers.Bytes.{write_u64_le, IsU64}
use mdbx_containers.Bytes.Words.{read-write_u64_le}
use mdbx_containers.NodeId.{NodeId, is_same, compare_node_id}
use mdbx_containers.Mdbx.{Bytes, Mdbx, IsMdbx, InTxn, done, failed}
use mdbx_containers.Mdbx.Keeps.{Always}
use mdbx_containers.Protocol.Batch.{ChangeBatch}
use mdbx_containers.Stores
use mdbx_containers.Stores.{Store, opened, find, open_table}
use mdbx_containers.Stores.Meta
use mdbx_containers.Stores.Applied
use mdbx_containers.Stores.Applied.{applied_name, stored_seq}
use mdbx_containers.Stores.Keeps.{Keeps-meta_open, Keeps-applied_open, Keeps-get_node_id}
use mdbx_containers.Engine.{
  ConflictPolicy, applied, skipped, conflict, ApplyOutcome, make_apply_outcome, sequence_gap,
}
use mdbx_containers.Engine.Apply.{apply_batch_ex, check_order, check_and_commit}
use mdbx_containers.Engine.Effects.{NoReserved, IsCommitted, check_and_commit-Outcome}

-- The last number of `origin` that the database has applied.
unfoldable pub cursor : (db : Mdbx) → NodeId → db.Txn → ℕ
unfolding stored_seq
cursor db origin t = elim (db.get applied_name origin t) [
  | done v ↦ stored_seq (some v)
  | failed rc ↦ 0
]

-- Newer than the last number and its successor on 64 bits: its successor.
successor :
    (seq last : ℕ)
    → leb seq last ≡ false
    → not (seq == (last + 1) % 2 ^ 64) ≡ false
    → seq ≡ last + 1
successor seq last newer next = ground arith

module _ (db : Mdbx) where
  find-stored_seq :
      (table key : Bytes) (t t' : db.Txn) (v : Option Bytes)
      → find db table key "AppliedStore read failed" t ≡ ok (v, t')
      → (elim (db.get table key t) [ done v ↦ stored_seq (some v) | failed rc ↦ 0 ]) ≡ stored_seq v
  unfolding find stored_seq
  find-stored_seq table key t t' v h = ground arith

  last_applied_seq-cursor :
      (s : Store) (origin : NodeId) (t t' : db.Txn) (last : ℕ)
      → s.dbi_name ≡ applied_name
      → Applied.last_applied_seq db s origin t ≡ ok (last, t')
      → last ≡ cursor db origin t
  unfolding Applied.last_applied_seq Stores.ensure_open cursor
  last_applied_seq-cursor s origin t t' last named h =
      let (is_open, k) = guard-eq-ok (not s.is_open) _ _ t h in
      let (v, t1, e, j) = bind-eq-ok (find db s.dbi_name origin _) _ t k in
      let same = (pure-eq-ok _ last t1 j).0 in
      sym (rw named at (find-stored_seq s.dbi_name origin t t1 v e) ∙ same)

  pub cursor-same :
      (origin : NodeId) (t t' : db.Txn)
      → db.get applied_name origin t ≡ db.get applied_name origin t'
      → cursor db origin t ≡ cursor db origin t'
  unfolding cursor
  cursor-same origin t t' h = ap (λ c. elim c [ done v ↦ stored_seq (some v) | failed rc ↦ 0 ]) h

  applied_open-name :
      (t t' : db.Txn) (s : Store)
      → Applied.open_store db Applied.make t ≡ ok (s, t')
      → s.dbi_name ≡ applied_name
  unfolding Applied.open_store
  applied_open-name t t' s h =
      let (t1, e, j) = then-eq-ok (open_table db _ _ _) (pure (opened Applied.make)) t h in
      ap (λ s. s.dbi_name) (sym (pure-eq-ok _ s t1 j).0)

  -- A block that ends in an applied batch has not left at this test.
  unless-eq-ok :
      (b : Bool) (x : ApplyOutcome) (f : InTxn db ApplyOutcome) (t t' : db.Txn) (o : ApplyOutcome)
      → (if b then pure x else f) t ≡ ok (o, t')
      → o.result ≡ applied
      → x.result ≢ applied
      → (b ≡ false) × (f t ≡ ok (o, t'))
  unless-eq-ok true x f t t' o h e left =
      absurd (left (ap (λ o. o.result) (pure-eq-ok x o t h).0 ∙ e))
  unless-eq-ok false x f t t' o h e left = (refl, h)

  -- An applied batch has been through all checks.
  apply_batch_ex-reached :
      (laws : IsMdbx db) (policy : ConflictPolicy) (batch : ChangeBatch) (t t' : db.Txn)
      (o : ApplyOutcome)
      → apply_batch_ex db policy batch t ≡ ok (o, t')
      → o.result ≡ applied
      → (last : ℕ) × (meta : Store) × (s : Store) × (t1 : db.Txn) × (last
          ≡ cursor db batch.origin_node_id t)
        × (s.dbi_name ≡ applied_name)
        × (check_order db policy meta s batch
              (record (make_apply_outcome applied batch 0) { last_applied_seq = last })
              t1
            ≡ ok (o, t'))
  unfolding apply_batch_ex
  apply_batch_ex-reached laws policy batch t t' o h is_applied =
      let (meta, t1, e1, h1) = bind-eq-ok (Meta.open_store db Meta.make) _ t h in
      let (s, t2, e2, h2) = bind-eq-ok (Applied.open_store db Applied.make) _ t1 h1 in
      let (node, t3, e3, h3) = bind-eq-ok (Meta.get_node_id db meta) _ t2 h2 in
      let (foreign, h4) =
        unless-eq-ok (is_same (compare_node_id batch.origin_node_id node)) _ _ t3 t' o h3 is_applied
          (λ e. cc) in
      let (last, t4, e4, h5) =
        bind-eq-ok (Applied.last_applied_seq db s batch.origin_node_id) _ t3 h4 in
      let named = applied_open-name t1 t2 s e2 in
      let kept =
        (Keeps-get_node_id {Q = Always} meta).run t2 e3 tt
        ∙ (Keeps-applied_open {Q = Always} laws Applied.make).run t1 e2 tt
        ∙ (Keeps-meta_open {Q = Always} laws Meta.make).run t e1 tt in
      let current = last_applied_seq-cursor s batch.origin_node_id t3 t4 last named e4 in
      (last, meta, s, t4, current ∙ cursor-same batch.origin_node_id t3 t kept, named, h5)

  -- Behind the two tests of the sequence number.
  apply_batch_ex-checked :
      (laws : IsMdbx db) (policy : ConflictPolicy) (batch : ChangeBatch) (t t' : db.Txn)
      (o : ApplyOutcome)
      → apply_batch_ex db policy batch t ≡ ok (o, t')
      → o.result ≡ applied
      → (batch.seq ≡ cursor db batch.origin_node_id t + 1)
        × (s : Store) × (s.dbi_name ≡ applied_name)
        × IsCommitted db s batch o t'
  unfolding check_order
  apply_batch_ex-checked laws policy batch t t' o h is_applied =
      let (last, meta, s, t1, current, named, h1) =
        apply_batch_ex-reached laws policy batch t t' o h is_applied in
      let outcome = record (make_apply_outcome applied batch 0) { last_applied_seq = last } in
      let (newer, h2) =
        unless-eq-ok (leb batch.seq last) (record outcome { result = skipped }) _ t1 t' o h1
          is_applied (λ e. cc) in
      let (next, h3) =
        unless-eq-ok (not (batch.seq == (last + 1) % 2 ^ 64))
          (record outcome { result = conflict; conflict_reason = sequence_gap })
          (check_and_commit db policy meta s batch outcome) t1 t' o h2 is_applied (λ e. cc) in
      (
        successor batch.seq last newer next ∙ ap (λ n. n + 1) current,
        s,
        named,
        elim ((check_and_commit-Outcome laws meta s batch policy outcome).run t1 h3) [
          | inl refused ↦ absurd (cc (refused, is_applied))
          | inr committed ↦ committed
        ],
      )

  stored_seq-write : (seq : ℕ) → IsU64 seq → stored_seq (some (write_u64_le seq)) ≡ seq
  unfolding stored_seq write_u64_le
  stored_seq-write seq bounded =
      rw (append-nil (write_u64_le seq)) at (read-write_u64_le seq [] bounded)

  pub cursor-stored :
      (origin : NodeId) (t : db.Txn) (seq : ℕ)
      → db.get applied_name origin t ≡ done (write_u64_le seq)
      → IsU64 seq
      → cursor db origin t ≡ seq
  unfolding cursor
  cursor-stored origin t seq h bounded =
      ap (λ c. elim c [ done v ↦ stored_seq (some v) | failed rc ↦ 0 ]) h
      ∙ stored_seq-write seq bounded

-- A batch that `apply_batch_ex` applies is the next one of its origin: its number is one more than the
-- cursor of the origin was.
pub apply_batch_ex-next :
    (db : Mdbx) (laws : IsMdbx db) (policy : ConflictPolicy) (batch : ChangeBatch) (t t' : db.Txn)
    (outcome : ApplyOutcome)
    → apply_batch_ex db policy batch t ≡ ok (outcome, t')
    → outcome.result ≡ applied
    → batch.seq ≡ cursor db batch.origin_node_id t + 1
apply_batch_ex-next db laws policy batch t t' outcome h is_applied =
    (apply_batch_ex-checked db laws policy batch t t' outcome h is_applied).0

-- A batch that `apply_batch_ex` applies, with a number of 64 bits, becomes the cursor of its origin, in the
-- outcome as in the database, and no operation of it is on a table with the reserved prefix.
pub apply_batch_ex-cursor :
    (db : Mdbx) (laws : IsMdbx db) (policy : ConflictPolicy) (batch : ChangeBatch) (t t' : db.Txn)
    (outcome : ApplyOutcome)
    → apply_batch_ex db policy batch t ≡ ok (outcome, t')
    → outcome.result ≡ applied
    → IsU64 batch.seq
    → (cursor db batch.origin_node_id t' ≡ batch.seq)
      × (outcome.last_applied_seq ≡ batch.seq)
      × NoReserved batch.ops
apply_batch_ex-cursor db laws policy batch t t' outcome h is_applied bounded =
    let (next, s, named, committed) =
      apply_batch_ex-checked db laws policy batch t t' outcome h is_applied in
    let stored = rw named at committed.recorded in
    (
      cursor-stored db batch.origin_node_id t' batch.seq stored bounded,
      committed.last_is_seq,
      committed.no_reserved,
    )
