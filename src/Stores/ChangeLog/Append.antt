-- ===== src/Stores/ChangeLog/Append.antt =====
-- include/mdbx_containers/sync/stores/ChangeLogStore.hpp: what `append` writes.
use mdbx_containers.Prelude.{
  ℕ, ◌≡◌, sym, ap, ◌∙◌, subst, Bool, true, false, ◌&&◌, ◌==◌, Option, none, some, List, [], ◌∷◌,
  String, length, ok, Result, arith, bytes_eq, bytes_eq_refl, if◌then◌else◌, Bool-cases, not_found,
  inl, inr,
}
use mdbx_containers.Bytes.{IsU64}
use mdbx_containers.NodeId.{NodeId}
use mdbx_containers.Stateful.{◌>>=◌, ◌>>◌, pure, throw_when}
use mdbx_containers.Stateful.Laws.{bind-eq-ok, then-eq-ok, pure-eq-ok}
use mdbx_containers.Mdbx.{Bytes, Mdbx, IsMdbx, InTxn, Call, done, failed, check_write}
use mdbx_containers.Mdbx.Keeps.{
  Keeps, Always, Keeps-bind, Keeps-then, Keeps-pure, Keeps-if, Keeps-throw_when,
}
use mdbx_containers.Stores
use mdbx_containers.Stores.{Store, ensure_open, find}
use mdbx_containers.Stores.Keeps.{Keeps-find, Keeps-ensure_open, Keeps-upsert, Keeps-open_store}
use mdbx_containers.Stores.OriginIndex
use mdbx_containers.Stores.OriginIndex.{OriginTail}
use mdbx_containers.Stores.ChangeLog.{
  ChangeLogStore, encode_key, ensure_ready, collect_changelog_origin_tails, write_origin_tails,
  backfill_origin_index, ensure_origin_index_ready, append, get,
}
use mdbx_containers.Stores.ChangeLog.Keys.{encode_key_same}
use mdbx_containers.Stores.ChangeLog.Reads.{get_same, get_written}

module _ {db : Mdbx} {n k : Bytes} where
  Keeps-last_seq :
      {Q : Option ℕ → Type 0} (s : Store) (p : NodeId)
      → Keeps db n k Q (OriginIndex.last_seq db s p)
  unfolding OriginIndex.last_seq OriginIndex.ensure_ready
  Keeps-last_seq s p = Keeps-then _ _ (Keeps-ensure_open s _) (
      Keeps-bind _ _ (Keeps-find _ _ _)
        (λ value. Keeps-then _ _ (Keeps-throw_when _ _) (Keeps-pure _)))

  Keeps-note_origin :
      {Q : Unit {0} → Type 0} (laws : IsMdbx db) (s : Store) (p : NodeId) (seq : ℕ)
      → bytes_eq s.dbi_name n ≡ false
      → Keeps db n k Q (OriginIndex.note_origin db s p seq)
  unfolding OriginIndex.note_origin OriginIndex.ensure_ready
  Keeps-note_origin laws s p seq other = Keeps-then _ _ (Keeps-ensure_open s _) (
      Keeps-bind _ _ (Keeps-last_seq s p)
        (λ current. Keeps-if _ _ _ (Keeps-pure _) (Keeps-upsert laws _ _ _ _ (ground arith))))

  Keeps-write_origin_tails :
      {Q : Unit {0} → Type 0} (laws : IsMdbx db) (s : Store) (tails : List OriginTail)
      → bytes_eq s.dbi_name n ≡ false
      → Keeps db n k Q (write_origin_tails db s tails)
  unfolding write_origin_tails
  Keeps-write_origin_tails laws s [] other = Keeps-pure _
  Keeps-write_origin_tails laws s (tail ∷ tails) other =
      Keeps-then _ _ (Keeps-note_origin laws s _ _ other)
        (Keeps-write_origin_tails laws s tails other)

  Keeps-collect :
      {Q : List OriginTail → Type 0} (s : ChangeLogStore)
      → Keeps db n k Q (collect_changelog_origin_tails db s)
  unfolding collect_changelog_origin_tails
  Keeps-collect s = record { run = λ t h q. ap (db.get n k) (ground arith) }

  Keeps-empty : {Q : Bool → Type 0} (s : Store) → Keeps db n k Q (OriginIndex.empty db s)
  unfolding OriginIndex.empty OriginIndex.ensure_ready
  Keeps-empty s =
      Keeps-then _ _ (Keeps-ensure_open s _)
        (record { run = λ t h q. ap (db.get n k) (sym (ground (arith, pure-eq-ok _ _ t h))) })

  Keeps-backfill :
      {Q : Unit {0} → Type 0} (laws : IsMdbx db) (s : ChangeLogStore)
      → bytes_eq s.origins.dbi_name n ≡ false
      → Keeps db n k Q (backfill_origin_index db s)
  unfolding backfill_origin_index
  Keeps-backfill laws s other =
      Keeps-bind _ _ (Keeps-collect s)
        (λ tails. Keeps-write_origin_tails laws s.origins tails other)

module _ (db : Mdbx) (laws : IsMdbx db) (s : ChangeLogStore) where
  open_store_name :
      (o o' : Store) (context : String) (t t' : db.Txn)
      → Stores.open_store db o context t ≡ ok (o', t')
      → o'.dbi_name ≡ o.dbi_name
  unfolding Stores.open_store
  open_store_name o o' context t t' h = ground arith

  abbrev fill : Bool → Store → InTxn db (Unit {0})
  fill nothing_indexed o =
      if nothing_indexed then backfill_origin_index db (record s { origins = o }) else pure tt

  abbrev with_index : Store → ChangeLogStore
  with_index o = record s { origins = o; origin_index_ready = true }

  Keeps-fill :
      {k : Bytes} (nothing_indexed : Bool) (o : Store)
      → bytes_eq o.dbi_name s.log.dbi_name ≡ false
      → Keeps db s.log.dbi_name k Always (fill nothing_indexed o)
  Keeps-fill nothing_indexed o other =
      Keeps-if nothing_indexed _ _ (Keeps-backfill laws (record s { origins = o }) other)
        (Keeps-pure tt)

  already_ready :
      (s' : ChangeLogStore) (t t' : db.Txn)
      → s.origin_index_ready ≡ true
      → ensure_origin_index_ready db s t ≡ ok (s', t')
      → (s ≡ s') × (t ≡ t')
  unfolding ensure_origin_index_ready pure
  already_ready s' t t' ready h = ground arith

  ensure_ready-eq-ok :
      (t t' : db.Txn) → ensure_ready db s t ≡ ok (tt, t') → (s.log.is_open ≡ true) × (t ≡ t')
  unfolding ensure_ready ensure_open throw_when
  ensure_ready-eq-ok t t' h = ground arith

  check_write-eq-ok :
      (context : String) (call : db.Txn → Call db.Txn) (t t' : db.Txn)
      → check_write context call t ≡ ok (tt, t')
      → call t ≡ done t'
  unfolding check_write
  check_write-eq-ok context call t t' h = ground arith

  -- The index may be opened and filled; the batches stay as they were.
  ensure_origin_index_ready-eq-ok :
      (s' : ChangeLogStore) (t t' : db.Txn)
      → bytes_eq s.origins.dbi_name s.log.dbi_name ≡ false
      → ensure_origin_index_ready db s t ≡ ok (s', t')
      → (s'.log ≡ s.log)
        × (bytes_eq s'.origins.dbi_name s.log.dbi_name ≡ false)
        × ((k : Bytes) → db.get s.log.dbi_name k t' ≡ db.get s.log.dbi_name k t)
  unfolding ensure_origin_index_ready OriginIndex.open_store
  ensure_origin_index_ready-eq-ok s' t t' other h = elim (Bool-cases s.origin_index_ready) [
    | inl ready ↦
        let (e, j) = already_ready s' t t' ready h in
        (
          ap (λ x. x.log) (sym e),
          subst (λ x. bytes_eq x.origins.dbi_name s.log.dbi_name ≡ false) e other,
          λ k. ap (db.get s.log.dbi_name k) (sym j),
        )
    | inr fresh ↦
        let (o, t1, e1, h1) =
          bind-eq-ok (OriginIndex.open_store db s.origins) _ t (rw fresh at h) in
        let (nothing_indexed, t2, e2, h2) = bind-eq-ok (OriginIndex.empty db o) _ t1 h1 in
        let (t3, e3, h3) = then-eq-ok (fill nothing_indexed o) (pure (with_index o)) t2 h2 in
        let (e4, j) = pure-eq-ok (with_index o) s' t3 h3 in
        let named = open_store_name s.origins o _ t t1 e1 in
        let other_index : bytes_eq o.dbi_name s.log.dbi_name ≡ false =
          subst (λ m. bytes_eq m s.log.dbi_name ≡ false) (sym named) other in
        (
          ap (λ x. x.log) (sym e4),
          subst (λ x. bytes_eq x.origins.dbi_name s.log.dbi_name ≡ false) e4 other_index,
          λ k.
              ap (db.get s.log.dbi_name k) (sym j)
              ∙ (Keeps-fill nothing_indexed o other_index).run t2 e3 tt
              ∙ (Keeps-empty {db = db} {n = s.log.dbi_name} {k = k} {Q = Always} o).run t1 e2 tt
              ∙ (Keeps-open_store {Q = Always} laws s.origins
                    "Failed to open OriginIndexStore DBI").run
                  t e1 tt,
        )
  ]

  get_log :
      (a b : ChangeLogStore) (o : NodeId) (q : ℕ) (t : db.Txn) (r : Result (Option Bytes × db.Txn))
      → b.log ≡ a.log
      → get db a o q t ≡ r
      → get db b o q t ≡ r
  unfolding get ensure_ready
  get_log a b o q t r e h = rw e h

  get_absent :
      (a : ChangeLogStore) (o : NodeId) (q : ℕ) (t : db.Txn)
      → a.log.is_open ≡ true
      → db.get a.log.dbi_name (encode_key o q) t ≡ failed not_found
      → get db a o q t ≡ ok (none, t)
  unfolding get ensure_ready ensure_open throw_when ◌>>◌ find
  get_absent a o q t opened h = ground arith

  abbrev put_batch : NodeId → ℕ → Bytes → ChangeLogStore → InTxn db (Unit {0})
  put_batch origin seq bytes s1 =
      check_write "ChangeLogStore append failed"
        (db.put_new s1.log.dbi_name (encode_key origin seq) bytes)

  abbrev note : NodeId → ℕ → ChangeLogStore → InTxn db (Unit {0})
  note origin seq s1 = OriginIndex.note_origin db s1.origins origin seq

  -- The one record that `append` writes in the changelog.
  append-eq-ok :
      (origin : NodeId) (seq : ℕ) (bytes : Bytes) (s' : ChangeLogStore) (t t' : db.Txn)
      → bytes_eq s.origins.dbi_name s.log.dbi_name ≡ false
      → append db s origin seq bytes t ≡ ok (s', t')
      → (s'.log ≡ s.log)
        × (s.log.is_open ≡ true)
        × (t1 : db.Txn) × (t2 : db.Txn) × ((k : Bytes)
            → db.get s.log.dbi_name k t1 ≡ db.get s.log.dbi_name k t)
        × (db.put_new s.log.dbi_name (encode_key origin seq) bytes t1 ≡ done t2)
        × ((k : Bytes) → db.get s.log.dbi_name k t' ≡ db.get s.log.dbi_name k t2)
  unfolding append
  append-eq-ok origin seq bytes s' t t' names h =
      let (t0, e0, h0) =
        then-eq-ok (ensure_ready db s)
          (ensure_origin_index_ready db s
            >>= (λ s1. put_batch origin seq bytes s1 >> (note origin seq s1 >> pure s1)))
          t h in
      let (opened, j0) = ensure_ready-eq-ok t t0 e0 in
      let (s1, t1, e1, h1) =
        bind-eq-ok (ensure_origin_index_ready db s)
          (λ s1. put_batch origin seq bytes s1 >> (note origin seq s1 >> pure s1)) t0 h0 in
      let (log, other, keeps) = ensure_origin_index_ready-eq-ok s1 t0 t1 names e1 in
      let (t2, e2, h2) =
        then-eq-ok (put_batch origin seq bytes s1) (note origin seq s1 >> pure s1) t1 h1 in
      let (t3, e3, h3) = then-eq-ok (note origin seq s1) (pure s1) t2 h2 in
      let (e4, j4) = pure-eq-ok s1 s' t3 h3 in
      (
        ap (λ x. x.log) (sym e4) ∙ log,
        opened,
        t1,
        t2,
        λ k. keeps k ∙ ap (db.get s.log.dbi_name k) (sym j0),
        subst (λ l. db.put_new l.dbi_name (encode_key origin seq) bytes t1 ≡ done t2) log
            (check_write-eq-ok "ChangeLogStore append failed"
              (db.put_new s1.log.dbi_name (encode_key origin seq) bytes) t1 t2 e2),
        λ k.
            ap (db.get s.log.dbi_name k) (sym j4)
            ∙ (Keeps-note_origin {Q = Always} laws s1.origins origin seq other).run t2 e3 tt,
      )

  -- `append`, when it returns with the two tables under different names, writes the batch under its origin and number,
  -- and leaves every other batch as it was: what `get` read of any batch before, it reads after, but for the one
  -- appended. Origins have 16 bytes and numbers 64 bits.
  pub get-append :
      (origin : NodeId) (seq : ℕ) (bytes : Bytes) (s' : ChangeLogStore) (t t' : db.Txn)
      → bytes_eq s.origins.dbi_name s.log.dbi_name ≡ false
      → length origin ≡ 16
      → IsU64 seq
      → append db s origin seq bytes t ≡ ok (s', t')
      → (other : NodeId) (number : ℕ) (found : Option Bytes) → length other ≡ 16
      → IsU64 number
      → get db s other number t ≡ ok (found, t)
      → get db s' other number t'
        ≡ ok ((if bytes_eq origin other && (seq == number) then some bytes else found), t')
  get-append origin seq bytes s' t t' names l u h other number found lo uo g =
      let (log, opened, t1, t2, before, put, after) =
        append-eq-ok origin seq bytes s' t t' names h in
      let n = s.log.dbi_name in
      let j = encode_key other number in
      let written = laws.get-put_new n (encode_key origin seq) bytes t1 t2 n j put in
      let key = encode_key_same origin other seq number l lo u uo in
      let value = after j in
      let old = before j in
      get_log s s' other number t' _ log (
        ground (
          arith,
          written,
          key,
          bytes_eq_refl n,
          get_same db s other number t t' found,
          get_written db s other number t' bytes opened,
        ))

  -- `append`, when it returns with the two tables under different names, found no batch under the origin and the number:
  -- a batch is never written over.
  pub append_once :
      (origin : NodeId) (seq : ℕ) (bytes : Bytes) (s' : ChangeLogStore) (t t' : db.Txn)
      → bytes_eq s.origins.dbi_name s.log.dbi_name ≡ false
      → append db s origin seq bytes t ≡ ok (s', t')
      → get db s origin seq t ≡ ok (none, t)
  append_once origin seq bytes s' t t' names h =
      let (log, opened, t1, t2, before, put, after) =
        append-eq-ok origin seq bytes s' t t' names h in
      get_absent s origin seq t opened
        (sym (before (encode_key origin seq)) ∙ laws.put_new_once _ _ bytes t1 t2 put)
