-- ===== src/Tables/KeyValue/Replay.antt =====
-- include/mdbx_containers/KeyValueTable.hpp with sync/engine/SyncEngine.hpp: what one node captures, another
-- node applies.
use mdbx_containers.Prelude.{ℕ, ◌≡◌, sym, ap, ◌∙◌, List, [], ◌∷◌, ok}
use mdbx_containers.NodeId.{NodeId}
use mdbx_containers.Stateful.{◌>>◌}
use mdbx_containers.Mdbx.{Bytes, Mdbx, IsMdbx}
use mdbx_containers.Protocol.Batch.{ChangeOp}
use mdbx_containers.Stores.{Store}
use mdbx_containers.Engine.Operations.{Cache}
use mdbx_containers.Engine.Apply.{apply_ops}
use mdbx_containers.Tables.{BaseTable, Connection, Serializer, InSession}
use mdbx_containers.Tables.Laws.{IsCapturing}
use mdbx_containers.Tables.Capture.{
  Captures, Captures-bind, Captures-then, Captures-pure, effects, effects_at, records,
}
use mdbx_containers.Tables.Replication.{unversioned, apply_ops-effects}
use mdbx_containers.Tables.KeyValue.Bulk.{db_reconcile, db_erase_range}
use mdbx_containers.Tables.KeyValue.Spec.{
  Command, insert_or_assign, insert_if_absent, update, erase, find, contains, append, clear, Answer,
  run, run_all,
}
use mdbx_containers.Tables.KeyValue.Writes.{
  Captures-db_get, Captures-db_contains, Captures-db_insert_or_assign, Captures-db_insert_if_absent,
  Captures-db_update, Captures-db_erase, Captures-db_clear, Captures-db_append,
  Captures-db_reconcile, Captures-db_erase_range,
}

module _ (db : Mdbx) (laws : IsMdbx db) where
  -- A record that was the same in both databases is the same after the method and after its changes.
  replayed :
      {A : Type 0} (m : InSession db A)
      → Captures db m
      → (t t' u u' : db.Txn) (a : A) (ops : List ChangeOp) (origin : NodeId) (seq : ℕ)
        (index : Store) (cache : Cache) (n k : Bytes)
      → m (t, []) ≡ ok (a, (t', ops))
      → apply_ops db ops (unversioned ops) origin seq index cache u ≡ ok (tt, u')
      → db.get n k u ≡ db.get n k t
      → db.get n k u' ≡ db.get n k t'
  replayed m captures t t' u u' a ops origin seq index cache n k ran applied same =
      let (recorded, c) = captures.run (t, []) ran in
      apply_ops-effects db laws ops origin seq index cache u u' n k applied
      ∙ effects_at ops (records db u) (records db t) n k same
      ∙ ap (λ l. effects l (records db t) n k) c.pending
      ∙ sym (c.happened n k)

module _ {K V : Type 0} (db : Mdbx) (laws : IsMdbx db) (connection : Connection db)
    (capturing : IsCapturing connection) (s : Serializer K V) (table : BaseTable) where
  Captures-run : (command : Command K V) → Captures db (run db connection s table command)
  unfolding run
  Captures-run (insert_or_assign key value) =
      Captures-then _ _ (Captures-db_insert_or_assign laws connection capturing s table key value)
        (Captures-pure _)
  Captures-run (insert_if_absent key value) =
      Captures-bind _ _ (Captures-db_insert_if_absent laws connection capturing s table key value)
        (λ inserted. Captures-pure _)
  Captures-run (update key fn) =
      Captures-bind _ _ (Captures-db_update laws connection capturing s table key fn)
        (λ updated. Captures-pure _)
  Captures-run (erase key) =
      Captures-bind _ _ (Captures-db_erase laws connection capturing s table key)
        (λ erased. Captures-pure _)
  Captures-run (find key) =
      Captures-bind _ _ (Captures-db_get laws connection capturing s table key)
        (λ value. Captures-pure _)
  Captures-run (contains key) =
      Captures-bind _ _ (Captures-db_contains laws connection capturing s table key)
        (λ present. Captures-pure _)
  Captures-run (append container) =
      Captures-then _ _ (Captures-db_append laws connection capturing s table container)
        (Captures-pure _)
  Captures-run clear =
      Captures-then _ _ (Captures-db_clear laws connection capturing s table) (Captures-pure _)

  Captures-run_all :
      (commands : List (Command K V)) → Captures db (run_all db connection s table commands)
  unfolding run_all
  Captures-run_all [] = Captures-pure []
  Captures-run_all (command ∷ commands) =
      Captures-bind _ _ (Captures-run command)
        (λ answer. Captures-bind _ _ (Captures-run_all commands) (λ answers. Captures-pure _))

  -- Calls of a table on a connection that captures record all that they do: where any sequence of calls returns
  -- from an empty list of pending operations, and the loop of the sync engine applies the operations that are
  -- pending then to another database with no versioned table, every record that was the same in both databases
  -- is the same in both after it.
  pub run_all-replayed :
      (commands : List (Command K V)) (t t' u u' : db.Txn) (answers : List (Answer V))
      (ops : List ChangeOp) (origin : NodeId) (seq : ℕ) (index : Store) (cache : Cache)
      (n k : Bytes)
      → run_all db connection s table commands (t, []) ≡ ok (answers, (t', ops))
      → apply_ops db ops (unversioned ops) origin seq index cache u ≡ ok (tt, u')
      → db.get n k u ≡ db.get n k t
      → db.get n k u' ≡ db.get n k t'
  run_all-replayed commands =
      replayed db laws (run_all db connection s table commands) (Captures-run_all commands)

  -- `db_reconcile` and `db_erase_range` record all that they do on a connection that captures: where a call of the
  -- first and after it one of the second return from an empty list of pending operations, and the engine's loop
  -- applies those that are pending then to another database with no versioned table, every record that was the same
  -- in both databases is the same in both after it.
  pub bulk-replayed :
      (container : List (K × V)) (from_key to_key : K) (t t' u u' : db.Txn) (removed : ℕ)
      (ops : List ChangeOp) (origin : NodeId) (seq : ℕ) (index : Store) (cache : Cache)
      (n k : Bytes)
      → (db_reconcile db connection s table container
            >> db_erase_range db connection s table from_key to_key)
          (t, [])
        ≡ ok (removed, (t', ops))
      → apply_ops db ops (unversioned ops) origin seq index cache u ≡ ok (tt, u')
      → db.get n k u ≡ db.get n k t
      → db.get n k u' ≡ db.get n k t'
  bulk-replayed container from_key to_key =
      replayed db laws
        (db_reconcile db connection s table container
          >> db_erase_range db connection s table from_key to_key)
        (Captures-then _ _ (Captures-db_reconcile laws connection capturing s table container)
          (Captures-db_erase_range laws connection capturing s table from_key to_key))
