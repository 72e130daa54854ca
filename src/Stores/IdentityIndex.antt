-- ===== src/Stores/IdentityIndex.antt =====
-- include/mdbx_containers/sync/stores/IdentityIndexStore.hpp
pub mod RoundTrip
use mdbx_containers.Prelude.{
  ℕ, bit_or, Bool, true, false, Option, none, some, List, [], ◌∷◌, ◌++◌, Result, ok, throw, length,
  if◌then◌else◌, not_found, mdbx_exception, String,
}
use mdbx_containers.Bytes.{append_u32_le, append_u64_le, to_u32}
use mdbx_containers.NodeId.{NodeId}
use mdbx_containers.Stateful.{◌>>=◌, ◌>>◌, pure}
use mdbx_containers.Reader.{Cursor, Read, read_bytes, read_u32, read_u64}
use mdbx_containers.Mdbx.{Bytes, Mdbx, InTxn, Call, done, failed, name}
use mdbx_containers.Stores.{Store, opened, find, open_table, ensure_open, upsert}

-- `IDENTITY_TOMBSTONE`
abbrev pub identity_tombstone : ℕ
identity_tombstone = 1

-- `struct IdentityIndexValue`
pub record IdentityIndexValue : Type 0 where
  pub storage_key : Bytes
  pub origin_node_id : NodeId
  pub seq : ℕ
  pub revision_key : Bytes
  pub flags : ℕ

unfoldable pub encode_key : Bytes → Bytes → Bytes
encode_key dbi_name identity_key =
    let out = append_u32_le [] (to_u32 (length dbi_name)) in (out ++ dbi_name) ++ identity_key

unfoldable pub encode_value : IdentityIndexValue → Bytes
encode_value v =
    let out1 = append_u32_le [] (to_u32 (length v.storage_key)) in
    let out2 = out1 ++ v.storage_key in
    let out3 = out2 ++ v.origin_node_id in
    let out4 = append_u64_le out3 v.seq in
    let out5 = append_u32_le out4 (to_u32 (length v.revision_key)) in
    let out6 = out5 ++ v.revision_key in append_u32_le out6 v.flags

abbrev pub underrun : String
underrun = "IdentityIndexStore decode underrun"

unfoldable pub read_value : Read IdentityIndexValue
read_value = do
  sk_len ← read_u32 underrun
  storage_key ← read_bytes underrun sk_len
  origin ← read_bytes underrun 16
  seq ← read_u64 underrun
  rv_len ← read_u32 underrun
  revision_key ← read_bytes underrun rv_len
  flags ← read_u32 underrun
  pure (record {
    storage_key = storage_key;
    origin_node_id = origin;
    seq = seq;
    revision_key = revision_key;
    flags = flags;
  })

-- Bytes behind the value are not looked at.
unfoldable pub decode_value : Bytes → Result IdentityIndexValue
decode_value bytes = elim (read_value (record { rest = bytes; pos = 0 })) [
  | ok (v, c) ↦ ok v
  | throw e ↦ throw e
]

abbrev pub make : Store
make = record { dbi_name = name "_mdbxc_identity_index"; is_open = false }

module _ (db : Mdbx) where
  unfoldable pub open_store : Store → InTxn db Store
  unfolding ◌>>◌ pure open_table
  open_store s = if s.is_open then pure s else do
    open_table db s.dbi_name db.create_flag "Failed to open IdentityIndexStore DBI"
    pure (opened s)

  unfoldable pub put : Store → Bytes → Bytes → IdentityIndexValue → InTxn db (Unit {0})
  unfolding ◌>>◌ ensure_open upsert
  put s dbi_name identity_key value = do
    ensure_open db s "IdentityIndexStore is not open"
    upsert db s.dbi_name (encode_key dbi_name identity_key) (encode_value value)
        "IdentityIndexStore put failed"

  unfoldable pub decoded : Option Bytes → InTxn db (Option IdentityIndexValue)
  decoded none t = ok (none, t)
  decoded (some bytes) t = elim (decode_value bytes) [
    | ok value ↦ ok (some value, t)
    | throw e ↦ throw e
  ]

  unfoldable pub get : Store → Bytes → Bytes → InTxn db (Option IdentityIndexValue)
  unfolding ◌>>=◌ ◌>>◌ ensure_open find decoded
  get s dbi_name identity_key = do
    ensure_open db s "IdentityIndexStore is not open"
    value ← find db s.dbi_name (encode_key dbi_name identity_key) "IdentityIndexStore get failed"
    decoded value

  unfoldable pub tombstone : Store → Bytes → Bytes → IdentityIndexValue → InTxn db (Unit {0})
  unfolding ◌>>◌ ensure_open put
  tombstone s dbi_name identity_key marker = do
    ensure_open db s "IdentityIndexStore is not open"
    put s dbi_name identity_key (record marker { flags = bit_or marker.flags identity_tombstone })

  -- Whether a record was removed.
  unfoldable pub erase : Store → Bytes → Bytes → InTxn db Bool
  unfolding ◌>>◌ ensure_open
  erase s dbi_name identity_key = do
    ensure_open db s "IdentityIndexStore is not open"
    λ t. elim (db.del s.dbi_name (encode_key dbi_name identity_key) t) [
      | done t' ↦ ok (true, t')
      | failed not_found ↦ ok (false, t)
      | failed rc ↦ throw (mdbx_exception rc "IdentityIndexStore erase failed")
    ]
