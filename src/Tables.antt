-- ===== src/Tables.antt =====
-- include/mdbx_containers/detail/BaseTable.hpp and sync/capture/ChangeAccumulator.hpp: what the table
-- classes share. A table works on a transaction and on the operations that the accumulator holds for it.
pub mod Laws
pub mod Capture
pub mod Strings
pub mod Replication
pub mod KeyValue
pub mod Sequence
pub mod SequenceLaws
use mdbx_containers.Prelude.{
  ℕ, Bool, true, false, ◌≡◌, ◌↔◌, List, [], ◌∷◌, ◌++◌, ok, throw, Result, if◌then◌else◌, bit_and,
  invalid_argument, mdbx_exception,
}
use mdbx_containers.Bytes.{to_u32}
use mdbx_containers.Stateful.{Stateful, ◌>>◌, throw_when}
use mdbx_containers.Mdbx.{c_str, Bytes, Mdbx, InTxn, done, failed, check_write}
use mdbx_containers.Protocol.Batch.{ChangeOpType, ChangeOp, complement}
use mdbx_containers.Stores.VersionedDbi.{is_reserved_dbi_name}

-- The fields `m_name` and `m_dbi_flags`. The handle `m_dbi` is `c_str` of the name.
pub record BaseTable : Type 0 where
  pub dbi_name : Bytes
  pub dbi_flags : ℕ

-- What `record_op` asks its connection.
pub record Connection (db : Mdbx) : Type 0 where
  pub is_read_only : Bool
  pub validate_sync_dbi_write : Bytes → ChangeOpType → db.Txn → Result (Unit {0})
  pub sync_capture_suppressed : db.Txn → Bool
  pub has_sync_capture : Bool

-- The overloads of serialize_key, deserialize_key, serialize_value and deserialize_value that a table's types
-- select, and the `operator==` of its keys.
pub record Serializer (K V : Type 0) : Type 0 where
  pub serialize_key : K → Result Bytes
  pub deserialize_key : Bytes → Result K
  pub serialize_value : V → Bytes
  pub deserialize_value : Bytes → Result V
  pub equal_keys : K → K → Bool

pub record IsSerializer {K V : Type 0} (s : Serializer K V) : Type 0 where
  pub deserialize-serialize_key :
      (k : K) (b : Bytes) → s.serialize_key k ≡ ok b → s.deserialize_key b ≡ ok k
  pub deserialize-serialize_value : (v : V) → s.deserialize_value (s.serialize_value v) ≡ ok v
  pub equal_keys_iff : (j k : K) → (s.equal_keys j k ≡ true) ↔ (j ≡ k)

-- The constructor of `BaseTable`, inside its transaction.
unfoldable pub make_base_table : (db : Mdbx) → Connection db → Bytes → ℕ → InTxn db BaseTable
unfolding ◌>>◌ throw_when is_reserved_dbi_name check_write c_str
make_base_table db connection table_name flags =
    let open_flags =
      if connection.is_read_only then bit_and flags (complement db.create_flag) else flags in
    do
      throw_when (is_reserved_dbi_name table_name)
          (invalid_argument "MDBX Containers table name uses reserved internal prefix '_mdbxc_'")
      check_write "Failed to open table" (db.dbi_open (c_str table_name) open_flags)
      λ t. elim (db.dbi_flags (c_str table_name) t) [
        | done dbi_flags ↦ ok (record { dbi_name = table_name; dbi_flags = to_u32 dbi_flags }, t)
        | failed rc ↦ throw (mdbx_exception rc "Failed to read table flags")
      ]

module _ (db : Mdbx) where
  -- The transaction, and `m_pending[txn]`.
  abbrev pub InSession : Type 0 → Type 0
  InSession = Stateful (db.Txn × List ChangeOp)

  unfoldable pub in_txn : {A : Type 0} → InTxn db A → InSession A
  in_txn m (t, pending) = elim (m t) [ ok (a, t') ↦ ok (a, (t', pending)) | throw e ↦ throw e ]

  -- What a cursor reads.
  unfoldable pub reading : {A : Type 0} → (db.Txn → A) → InSession A
  reading f (t, pending) = ok (f t, (t, pending))

  unfoldable pub of_result : {A : Type 0} → Result A → InSession A
  of_result (ok a) s = ok (a, s)
  of_result (throw e) s = throw e

  -- `ThreadLocalChangeAccumulator::record_change_op`
  unfoldable pub record_change_op : ChangeOp → InSession (Unit {0})
  record_change_op op (t, pending) = ok (tt, (t, pending ++ op ∷ []))

  module _ (connection : Connection db) (table : BaseTable) where
    abbrev pub change : ChangeOpType → Bytes → Bytes → ChangeOp
    change type key value = record {
      op_type = type;
      op_flags = 0;
      dbi_flags = table.dbi_flags;
      dbi_name = table.dbi_name;
      storage_key = key;
      value = value;
      identity_key = [];
      revision_key = [];
    }

    unfoldable pub record_op : ChangeOpType → Bytes → Bytes → InSession (Unit {0})
    unfolding record_change_op
    record_op type key value (t, pending) =
        if connection.is_read_only
        then ok (tt, (t, pending))
        else elim (connection.validate_sync_dbi_write table.dbi_name type t) [
          | throw e ↦ throw e
          | ok _ ↦
              if connection.sync_capture_suppressed t
              then ok (tt, (t, pending))
              else if connection.has_sync_capture
              then record_change_op (change type key value) (t, pending)
              else ok (tt, (t, pending))
        ]
