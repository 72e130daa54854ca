-- ===== src/Stores/ChangeLog/Reads.antt =====
-- include/mdbx_containers/sync/stores/ChangeLogStore.hpp: what `get` reads, from the record of the key.
use mdbx_containers.Prelude.{ℕ, ◌≡◌, Option, true, none, some, ok, arith, not_found}
use mdbx_containers.NodeId.{NodeId}
use mdbx_containers.Stateful.{◌>>◌, throw_when}
use mdbx_containers.Mdbx.{Bytes, Mdbx, done, failed}
use mdbx_containers.Stores.{ensure_open, find}
use mdbx_containers.Stores.ChangeLog.{ChangeLogStore, get, encode_key, ensure_ready}

module _ (db : Mdbx) (s : ChangeLogStore) where
  pub get_same :
      (o : NodeId) (q : ℕ) (t t' : db.Txn) (r : Option Bytes)
      → db.get s.log.dbi_name (encode_key o q) t' ≡ db.get s.log.dbi_name (encode_key o q) t
      → get db s o q t ≡ ok (r, t)
      → get db s o q t' ≡ ok (r, t')
  unfolding get ensure_ready ensure_open throw_when ◌>>◌ find
  get_same o q t t' r e h = ground arith

  pub get_missing :
      (o : NodeId) (q : ℕ) (t t' : db.Txn) (r : Option Bytes)
      → db.get s.log.dbi_name (encode_key o q) t' ≡ failed not_found
      → get db s o q t ≡ ok (r, t)
      → get db s o q t' ≡ ok (none, t')
  unfolding get ensure_ready ensure_open throw_when ◌>>◌ find
  get_missing o q t t' r e h = ground arith

  pub get-found :
      (o : NodeId) (q : ℕ) (t : db.Txn) (v : Bytes)
      → get db s o q t ≡ ok (some v, t)
      → db.get s.log.dbi_name (encode_key o q) t ≡ done v
  unfolding get ensure_ready ensure_open throw_when ◌>>◌ find
  get-found o q t v h = ground arith

  pub get_written :
      (o : NodeId) (q : ℕ) (t : db.Txn) (v : Bytes)
      → s.log.is_open ≡ true
      → db.get s.log.dbi_name (encode_key o q) t ≡ done v
      → get db s o q t ≡ ok (some v, t)
  unfolding get ensure_ready ensure_open throw_when ◌>>◌ find
  get_written o q t v opened h = ground arith
