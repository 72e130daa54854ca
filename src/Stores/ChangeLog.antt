-- ===== src/Stores/ChangeLog.antt =====
-- include/mdbx_containers/sync/stores/ChangeLogStore.hpp
pub mod Keys
pub mod Reads
pub mod Append
pub mod Prune
use mdbx_containers.Prelude.{
  ℕ, ◌+◌, Bool, true, false, not, ◌&&◌, ◌||◌, Option, none, some, List, [], ◌∷◌, ◌++◌, length, take,
  drop, ◌==◌, ltb, is_empty, bytes_eq, if◌then◌else◌, runtime_error, ok, throw, not_found,
  mdbx_exception, Result,
}
use mdbx_containers.Bytes.{write_u64_be, read_u64_be}
use mdbx_containers.NodeId.{NodeId, is_same, compare_node_id}
use mdbx_containers.Stateful.{◌>>=◌, ◌>>◌, pure, throw_when}
use mdbx_containers.Mdbx.{Bytes, Mdbx, InTxn, Call, done, failed, name, check_write}
use mdbx_containers.Entries.{is_greater, seek}
use mdbx_containers.Stores
use mdbx_containers.Stores.{Store, opened, find, ensure_open}
use mdbx_containers.Stores.OriginIndex
use mdbx_containers.Stores.OriginIndex.{OriginTail}

pub record ChangeLogStore : Type 0 where
  pub log : Store
  pub origin_index_ready : Bool
  pub origins : Store

abbrev pub make : ChangeLogStore
make = record {
  log = record { dbi_name = name "_mdbxc_changelog"; is_open = false };
  origin_index_ready = false;
  origins = OriginIndex.make;
}

unfoldable pub encode_key : NodeId → ℕ → Bytes
encode_key origin seq = origin ++ write_u64_be seq

unfoldable pub decode_key_origin : Bytes → Result NodeId
decode_key_origin key =
    if not (length key == 24)
    then throw (runtime_error "ChangeLogStore key has invalid size")
    else ok (take 16 key)

unfoldable pub decode_key_seq : Bytes → Result ℕ
decode_key_seq key =
    if not (length key == 24)
    then throw (runtime_error "ChangeLogStore key has invalid size")
    else ok (read_u64_be (drop 16 key))

-- A key seen by the scan: its origin is the last one in `out`, whose number it replaces, or a new one.
unfoldable pub note_key : List OriginTail → NodeId → ℕ → List OriginTail
note_key [] origin seq = record { origin = origin; last_seq = seq } ∷ []
note_key (last ∷ []) origin seq =
    if is_same (compare_node_id last.origin origin)
    then record last { last_seq = seq } ∷ []
    else last ∷ record { origin = origin; last_seq = seq } ∷ []
note_key (first ∷ second ∷ out) origin seq = first ∷ note_key (second ∷ out) origin seq

unfoldable pub collect_loop : List (Bytes × Bytes) → List OriginTail → Result (List OriginTail)
unfolding note_key decode_key_origin decode_key_seq
collect_loop [] out = ok out
collect_loop ((k, v) ∷ records) out = elim (decode_key_origin k) [
  | throw e ↦ throw e
  | ok origin ↦ elim (decode_key_seq k) [
    | throw e ↦ throw e
    | ok seq ↦ collect_loop records (note_key out origin seq)
  ]
]

module _ (db : Mdbx) where
  unfoldable pub open_store : ChangeLogStore → InTxn db ChangeLogStore
  unfolding ◌>>=◌ pure Stores.open_store
  open_store s = do
    log ← Stores.open_store db s.log "Failed to open ChangeLogStore DBI"
    pure (record s { log = log })

  unfoldable pub ensure_ready : ChangeLogStore → InTxn db (Unit {0})
  unfolding ensure_open
  ensure_ready s = ensure_open db s.log "ChangeLogStore is not open"

  unfoldable pub collect_changelog_origin_tails : ChangeLogStore → InTxn db (List OriginTail)
  unfolding collect_loop
  collect_changelog_origin_tails s t = elim (collect_loop (db.entries s.log.dbi_name t) []) [
    | ok tails ↦ ok (tails, t)
    | throw e ↦ throw e
  ]

  unfoldable pub write_origin_tails : Store → List OriginTail → InTxn db (Unit {0})
  unfolding ◌>>◌ pure OriginIndex.note_origin
  write_origin_tails origins [] = pure tt
  write_origin_tails origins (tail ∷ tails) = do
    OriginIndex.note_origin db origins tail.origin tail.last_seq
    write_origin_tails origins tails

  unfoldable pub backfill_origin_index : ChangeLogStore → InTxn db (Unit {0})
  unfolding ◌>>=◌ collect_changelog_origin_tails write_origin_tails
  backfill_origin_index s = do
    tails ← collect_changelog_origin_tails s
    write_origin_tails s.origins tails

  -- The index is filled once, if it is empty.
  unfoldable pub ensure_origin_index_ready : ChangeLogStore → InTxn db ChangeLogStore
  unfolding ◌>>=◌ ◌>>◌ pure OriginIndex.open_store OriginIndex.empty backfill_origin_index
  ensure_origin_index_ready s = if s.origin_index_ready then pure s else do
    origins ← OriginIndex.open_store db s.origins
    nothing_indexed ← OriginIndex.empty db origins
    if nothing_indexed then backfill_origin_index (record s { origins = origins }) else pure tt
    pure (record s { origins = origins; origin_index_ready = true })

  unfoldable pub append : ChangeLogStore → NodeId → ℕ → Bytes → InTxn db ChangeLogStore
  unfolding ◌>>=◌ ◌>>◌ pure ensure_ready ensure_origin_index_ready encode_key
      OriginIndex.note_origin check_write
  append s origin seq bytes = do
    ensure_ready s
    s' ← ensure_origin_index_ready s
    check_write "ChangeLogStore append failed"
        (db.put_new s'.log.dbi_name (encode_key origin seq) bytes)
    OriginIndex.note_origin db s'.origins origin seq
    pure s'

  unfoldable pub contains : ChangeLogStore → NodeId → ℕ → InTxn db Bool
  unfolding ◌>>=◌ ◌>>◌ pure ensure_ready encode_key find
  contains s origin seq = do
    ensure_ready s
    value ← find db s.log.dbi_name (encode_key origin seq) "ChangeLogStore contains failed"
    pure (elim value [ none ↦ false | some bytes ↦ true ])

  unfoldable pub get : ChangeLogStore → NodeId → ℕ → InTxn db (Option Bytes)
  unfolding ◌>>◌ ensure_ready encode_key find
  get s origin seq = do
    ensure_ready s
    find db s.log.dbi_name (encode_key origin seq) "ChangeLogStore get failed"

  unfoldable pub erase : ChangeLogStore → NodeId → ℕ → InTxn db Bool
  unfolding ◌>>◌ ensure_ready encode_key
  erase s origin seq = do
    ensure_ready s
    λ t. elim (db.del s.log.dbi_name (encode_key origin seq) t) [
      | done t' ↦ ok (true, t')
      | failed not_found ↦ ok (false, t)
      | failed rc ↦ throw (mdbx_exception rc "ChangeLogStore erase failed")
    ]

  -- The loop of `prune_up_to` over the records that its cursor visits.
  unfoldable pub prune_loop : Bytes → Bytes → List (Bytes × Bytes) → ℕ → InTxn db ℕ
  prune_loop n hi [] removed t = ok (removed, t)
  prune_loop n hi ((k, v) ∷ records) removed t =
      if ltb (length k) 24
      then ok (removed, t)
      else if is_greater (db.cmp n t k hi)
      then ok (removed, t)
      else elim (db.del n k t) [
        | done t' ↦ prune_loop n hi records (removed + 1) t'
        | failed not_found ↦ ok (removed, t)
        | failed rc ↦ throw (mdbx_exception rc "ChangeLogStore prune cursor_del failed")
      ]

  unfoldable pub prune_up_to : ChangeLogStore → NodeId → ℕ → InTxn db ℕ
  unfolding ◌>>◌ ensure_ready encode_key seek prune_loop
  prune_up_to s origin up_to = do
    ensure_ready s
    λ t.
        let n = s.log.dbi_name in
        prune_loop n (encode_key origin up_to)
          (seek (db.cmp n t) (encode_key origin 0) (db.entries n t)) 0 t

  -- The loop of the comparison, over lists of the same size.
  unfoldable pub matches_loop : Store → List NodeId → List OriginTail → InTxn db Bool
  unfolding ◌>>=◌ pure OriginIndex.last_seq
  matches_loop origins [] expected = pure true
  matches_loop origins (actual ∷ rest) [] = pure true
  matches_loop origins (actual ∷ rest) (tail ∷ expected) =
      if not (bytes_eq actual tail.origin) then pure false else do
        actual_seq ← OriginIndex.last_seq db origins actual
        if (elim actual_seq [ none ↦ true | some seq ↦ not (seq == tail.last_seq) ])
            then pure false
            else matches_loop origins rest expected

  -- A local wrapper of the index is used, not the store's own.
  unfoldable pub origin_index_matches_changelog : ChangeLogStore → InTxn db Bool
  unfolding ◌>>=◌ ◌>>◌ pure ensure_ready collect_changelog_origin_tails OriginIndex.open_existing
      OriginIndex.origins matches_loop
  origin_index_matches_changelog s = do
    ensure_ready s
    expected ← collect_changelog_origin_tails s
    index ← OriginIndex.open_existing db OriginIndex.make
    if not index.1 then pure (is_empty expected) else do
      actual_origins ← OriginIndex.origins db index.0
      if not (length actual_origins == length expected)
          then pure false
          else matches_loop index.0 actual_origins expected

  unfoldable pub rebuild_origin_index : ChangeLogStore → InTxn db (ChangeLogStore × ℕ)
  unfolding ◌>>=◌ ◌>>◌ pure ensure_ready collect_changelog_origin_tails OriginIndex.open_store
      OriginIndex.clear write_origin_tails
  rebuild_origin_index s = do
    ensure_ready s
    tails ← collect_changelog_origin_tails s
    origins ← OriginIndex.open_store db s.origins
    removed ← OriginIndex.clear db origins
    write_origin_tails origins tails
    pure (record s { origins = origins; origin_index_ready = true }, length tails)
