-- ===== src/Engine/Operations.antt =====
-- include/mdbx_containers/sync/engine/SyncEngine.hpp: the effect of one operation.
use mdbx_containers.Prelude.{
  ℕ, Bool, true, false, ◌||◌, Option, none, some, List, [], ◌∷◌, ok, throw, bytes_eq, if◌then◌else◌,
  not_found, mdbx_exception, logic_error,
}
use mdbx_containers.NodeId.{NodeId, less, same, greater, compare_bytes, compare_node_id}
use mdbx_containers.Stateful.{◌>>=◌, ◌>>◌, pure, fail}
use mdbx_containers.Mdbx.{Bytes, Mdbx, InTxn, done, failed, check_write, c_str}
use mdbx_containers.Protocol.Batch.{ChangeOpType, put, delete, clear_table, other, ChangeOp}
use mdbx_containers.Stores.{Store, upsert}
use mdbx_containers.Stores.IdentityIndex
use mdbx_containers.Stores.IdentityIndex.{IdentityIndexValue}
use mdbx_containers.Engine.Checks.{open_compatible, persistent_dbi_flags}

-- `dbi_cache`: the names whose tables are open; the handle of a table is its name up to the first NUL
abbrev pub Cache : Type 0
Cache = List Bytes

unfoldable pub cached : Bytes → Cache → Bool
cached dbi [] = false
cached dbi (n ∷ cache) = bytes_eq n dbi || cached dbi cache

unfoldable pub uncache : Bytes → Cache → Cache
uncache dbi [] = []
uncache dbi (n ∷ cache) = let rest = uncache dbi cache in if bytes_eq n dbi then rest else n ∷ rest

abbrev pub is_delete : ChangeOpType → Bool
is_delete delete = true
is_delete put = false
is_delete clear_table = false
is_delete (other n) = false

-- The head of `apply_lww_one_op`: whether the operation is older than what the index has of its key.
unfoldable pub is_stale : ChangeOp → NodeId → Option IdentityIndexValue → Bool
is_stale op origin none = false
is_stale op origin (some current) = elim (compare_bytes op.revision_key current.revision_key) [
  | less ↦ true
  | same ↦ elim (compare_node_id origin current.origin_node_id) [
    | less ↦ true
    | same ↦ true
    | greater ↦ false
  ]
  | greater ↦ false
]

module _ (db : Mdbx) where
  unfoldable pub resolve_user_dbi : Bytes → ℕ → Cache → InTxn db Cache
  unfolding cached open_compatible persistent_dbi_flags
  resolve_user_dbi dbi flags cache t =
      if cached dbi cache
      then ok (cache, t)
      else elim (open_compatible db dbi (persistent_dbi_flags db flags) db.create_flag t) [
        | done t' ↦ ok (dbi ∷ cache, t')
        | failed rc ↦ throw (mdbx_exception rc "SyncEngine: failed to open user DBI")
      ]

  unfoldable pub erase_key : Bytes → Bytes → InTxn db (Unit {0})
  erase_key dbi key t = elim (db.del dbi key t) [
    | done t' ↦ ok (tt, t')
    | failed not_found ↦ ok (tt, t)
    | failed rc ↦ throw (mdbx_exception rc "SyncEngine: mdbx_del failed")
  ]

  -- The switch of `apply_one_op`.
  unfoldable pub run_op : ChangeOpType → ChangeOp → Cache → InTxn db Cache
  unfolding ◌>>◌ pure fail upsert uncache erase_key check_write c_str
  run_op put op cache = do
    upsert db (c_str op.dbi_name) op.storage_key op.value "SyncEngine: mdbx_put failed"
    pure cache
  run_op delete op cache = do
    erase_key (c_str op.dbi_name) op.storage_key
    pure (uncache op.dbi_name cache)
  run_op clear_table op cache = do
    check_write "SyncEngine: mdbx_drop failed" (db.clear (c_str op.dbi_name))
    pure (uncache op.dbi_name cache)
  run_op (other n) op cache = fail (logic_error "SyncEngine: unknown ChangeOpType")

  unfoldable pub apply_one_op : ChangeOp → Cache → InTxn db Cache
  unfolding ◌>>=◌ resolve_user_dbi run_op
  apply_one_op op cache = do
    cache' ← resolve_user_dbi op.dbi_name op.dbi_flags cache
    run_op op.op_type op cache'

  abbrev pub marker : ChangeOp → NodeId → ℕ → IdentityIndexValue
  marker op origin sequence = record {
    storage_key = op.storage_key;
    origin_node_id = origin;
    seq = sequence;
    revision_key = op.revision_key;
    flags = 0;
  }

  unfoldable pub write_marker : Store → ChangeOp → IdentityIndexValue → InTxn db (Unit {0})
  unfolding IdentityIndex.tombstone IdentityIndex.put
  write_marker index op value =
      if is_delete op.op_type
      then IdentityIndex.tombstone db index op.dbi_name op.storage_key value
      else IdentityIndex.put db index op.dbi_name op.storage_key value

  unfoldable pub apply_lww_one_op : ChangeOp → NodeId → ℕ → Store → Cache → InTxn db Cache
  unfolding ◌>>=◌ ◌>>◌ pure IdentityIndex.get is_stale apply_one_op write_marker
  apply_lww_one_op op origin sequence index cache = do
    current ← IdentityIndex.get db index op.dbi_name op.storage_key
    if is_stale op origin current then pure cache else do
      cache' ← apply_one_op op cache
      write_marker index op (marker op origin sequence)
      pure cache'
