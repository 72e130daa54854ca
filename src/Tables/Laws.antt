-- ===== src/Tables/Laws.antt =====
-- Inversion of the steps that the methods of the tables are made of.
use mdbx_containers.Prelude.{◌≡◌, true, false, List, [], ◌∷◌, ◌++◌, ok, throw, Result, arith}
use mdbx_containers.Mdbx.{Bytes, Mdbx, InTxn}
use mdbx_containers.Protocol.Batch.{ChangeOpType, ChangeOp}
use mdbx_containers.Tables.{
  BaseTable, Connection, in_txn, reading, of_result, record_change_op, record_op, change,
}

-- Writes of the connection's transactions are captured.
pub record IsCapturing {db : Mdbx} (connection : Connection db) : Type 0 where
  pub writable : connection.is_read_only ≡ false
  pub attached : connection.has_sync_capture ≡ true
  pub unsuppressed : (t : db.Txn) → connection.sync_capture_suppressed t ≡ false

module _ (db : Mdbx) {A : Type 0} where
  pub of_result-eq-ok :
      (r : Result A) (s s' : db.Txn × List ChangeOp) {a : A}
      → of_result db r s ≡ ok (a, s')
      → (r ≡ ok a) × (s ≡ s')
  unfolding of_result
  of_result-eq-ok (ok b) s s' h = ground arith
  of_result-eq-ok (throw e) s s' h = cc

  pub in_txn-eq-ok :
      (m : InTxn db A) (s s' : db.Txn × List ChangeOp) {a : A}
      → in_txn db m s ≡ ok (a, s')
      → (m s.0 ≡ ok (a, s'.0)) × (s.1 ≡ s'.1)
  unfolding in_txn
  in_txn-eq-ok m s s' h = ground arith

  pub reading-eq-ok :
      (f : db.Txn → A) (s s' : db.Txn × List ChangeOp) {a : A}
      → reading db f s ≡ ok (a, s')
      → (f s.0 ≡ a) × (s ≡ s')
  unfolding reading
  reading-eq-ok f s s' h = ground arith

module _ (db : Mdbx) (connection : Connection db) (table : BaseTable) where
  pub record_op_same :
      (type : ChangeOpType) (k v : Bytes) (s s' : db.Txn × List ChangeOp)
      → record_op db connection table type k v s ≡ ok (tt, s')
      → s.0 ≡ s'.0
  unfolding record_op record_change_op
  record_op_same type k v s s' h = ground arith

  pub record_op_pending :
      IsCapturing connection
      → (type : ChangeOpType) (k v : Bytes) (s s' : db.Txn × List ChangeOp)
      → record_op db connection table type k v s ≡ ok (tt, s')
      → s'.1 ≡ s.1 ++ change db connection table type k v ∷ []
  unfolding record_op record_change_op
  record_op_pending capturing type k v s s' h =
      ground (arith, capturing.writable, capturing.attached, capturing.unsuppressed s.0)
