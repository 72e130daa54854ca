-- ===== src/Lib.antt =====
-- mdbx-containers: tables in a libmdbx database, and how a node takes over the changes of other nodes.
--
-- A node keeps typed tables in one libmdbx database. A write of a table (`KeyValueTable`) goes to the database
-- and, as an operation, to the list that the transaction collects (`BaseTable::record_op`). The operations of a
-- transaction make a change batch, numbered for each origin and kept in the changelog (`ChangeLogStore`, with an
-- index of the last number of each origin). A batch goes over the wire as bytes (`ChangeBatchCodec`); the receiver's engine (`SyncEngine`)
-- applies it in a transaction, checks it against the state that its own tables hold, the stores, and moves
-- the cursor of the batch's origin. The files, with paths below include/mdbx_containers:
-- - Bytes, NodeId: sync/common.hpp. An array or string of bytes is a list of numbers.
-- - Protocol: sync/protocol, `ChangeOp`, `ChangeBatch`, `CodecBounds` and `ChangeBatchCodec`. Protocol/Encode
--   and Protocol/Decode follow the two functions, Protocol/Layout says what the bytes are.
-- - Reader: the cursor over a buffer of that codec; its rules serve the other codecs as well.
-- - Mdbx: libmdbx as a parameter, a record of the calls that the sync layer makes. A handle of a table is the
--   name that libmdbx opens: what the source names, up to its first NUL (`c_str`). `IsMdbx` is the documented behaviour that theorems use, for tables without MDBX_DUPSORT;
--   Mdbx/Memory has a database in memory that meets it.
-- - Entries: the records of a table in the order of the keys, which a cursor goes over; a loop of a cursor is a
--   loop over them.
-- - Tables: detail/BaseTable.hpp with `record_change_op` of sync/capture/ChangeAccumulator.hpp, on the pair of a
--   transaction and its pending operations. Tables/KeyValue: KeyValueTable.hpp, its methods `db_*`; what the
--   types of a table select (serialize_key and the like) is the interface `Serializer` with laws, which
--   Tables/Strings fills for `std::string` (detail/utils.hpp). Tables/KeyValue/Spec has the map that a table
--   stands for. Tables/Capture and Tables/Replication say what recorded operations do to the records.
--   Tables/Sequence has the methods of SequenceTable.hpp that one record is enough for; the machine is
--   little-endian there.
-- - Stores: sync/stores, one file for each store, with `checked_txn_env` left out: a transaction of the model
--   is never null nor of another environment. The names of the stores hold no NUL.
-- - Engine: sync/engine/SyncEngine.hpp. Engine/Checks and Engine/Operations have what `apply_batch_ex` calls,
--   Engine/Apply has `apply_batch_ex` itself, cut at its early returns, and Engine/Push has `handle_push`.
--   Engine/Pull has the messages of a pull and the origins known, Engine/PullPage `pull_changelog_page` and
--   `handle_pull`, with `handle_full_snapshot_pull` as an argument; Engine/PullSpec says which batches a request
--   lacks.
-- - Witnesses: runs at concrete inputs.
--
-- A function that throws loses what it did to the state (Stateful): a decoder's position is a local variable,
-- and a transaction that is left by an exception is aborted by its guard. A function that returns leaves the
-- state that it made, whatever its result says; so a statement on a refused batch is one on the records.
--
-- Numbers are those of the C++ types, with the wrap-around of `last + 1` and the casts of sizes to 32 bits
-- written out. No function runs on fuel: the loops go over lists, or over a count that the input holds.
--
-- Not modelled: running out of memory, the exclusion of threads, the text of error messages of a push or a pull, the
-- observers of an apply (what they are told is returned), the flush of the pending operations into a batch,
-- snapshots, selective and logical replication, transports, the worker, the table classes other than
-- `KeyValueTable` and `SequenceTable`, `with_transaction` and the connection: what a table asks its connection is a parameter.
pub mod Prelude
pub mod Bytes
pub mod NodeId
pub mod Stateful
pub mod Mdbx
pub mod Reader
pub mod Protocol
pub mod Stores
pub mod Engine
pub mod Tables
pub mod Entries
pub mod Witnesses
