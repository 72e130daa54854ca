-- ===== src/Stores/VersionedDbi.antt =====
-- include/mdbx_containers/sync/stores/VersionedDbiStore.hpp, and `is_reserved_dbi_name` of
-- include/mdbx_containers/detail/utils.hpp.
use mdbx_containers.Prelude.{
  Bool, true, false, ◌&&◌, ◌||◌, none, some, [], ok, throw, length, take, leb, if◌then◌else◌,
  is_empty, bytes_eq, key_exist, invalid_argument, mdbx_exception,
}
use mdbx_containers.Stateful.{◌>>=◌, ◌>>◌, pure, throw_when}
use mdbx_containers.Mdbx.{Bytes, Mdbx, InTxn, done, failed, name}
use mdbx_containers.Stores.{Store, opened, find, open_table, open_existing}

abbrev pub reserved_prefix : Bytes
reserved_prefix = name "_mdbxc_"

unfoldable pub is_reserved_dbi_name : Bytes → Bool
is_reserved_dbi_name n =
    leb (length reserved_prefix) (length n)
    && bytes_eq (take (length reserved_prefix) n) reserved_prefix

abbrev pub make : Store
make = record { dbi_name = name "_mdbxc_versioned_dbis"; is_open = false }

module _ (db : Mdbx) where
  unfoldable pub open_for_write : Store → InTxn db Store
  unfolding ◌>>◌ pure open_table
  open_for_write s = if s.is_open then pure s else do
    open_table db s.dbi_name db.create_flag "Failed to open VersionedDbiStore DBI"
    pure (opened s)

  -- Whether this call added the marker.
  unfoldable pub register_dbi : Store → Bytes → InTxn db Bool
  unfolding ◌>>=◌ ◌>>◌ throw_when open_for_write is_reserved_dbi_name
  register_dbi s dbi = do
    throw_when (is_empty dbi || is_reserved_dbi_name dbi)
        (invalid_argument "VersionedDbiStore requires a non-reserved user DBI name")
    s' ← open_for_write s
    λ t. elim (db.put_new s'.dbi_name dbi [] t) [
      | done t' ↦ ok (true, t')
      | failed key_exist ↦ ok (false, t)
      | failed rc ↦ throw (mdbx_exception rc "VersionedDbiStore register failed")
    ]

  -- The result of `find` for a table that exists.
  unfoldable pub lookup : Store → Bytes → InTxn db Bool
  unfolding ◌>>=◌ pure find
  lookup s dbi = do
    value ← find db s.dbi_name dbi "VersionedDbiStore lookup failed"
    pure (elim value [ none ↦ false | some _ ↦ true ])

  -- The store is returned too: the registry is opened at most once.
  unfoldable pub contains : Store → Bytes → InTxn db (Store × Bool)
  unfolding ◌>>=◌ pure open_existing lookup
  contains s dbi = if is_empty dbi then pure (s, false) else do
    (s', exists) ← open_existing db s "Failed to open VersionedDbiStore DBI"
    if exists then (do found ← lookup s' dbi; pure (s', found)) else pure (s', false)
