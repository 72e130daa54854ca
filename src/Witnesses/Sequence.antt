-- ===== src/Witnesses/Sequence.antt =====
-- A sequence of byte strings on a database in memory.
use mdbx_containers.Prelude.{
  ℕ, ◌^◌, ◌<◌, ◌≡◌, ◌≢◌, Result, refl, true, false, some, [], ◌∷◌, ok, arith,
}
use mdbx_containers.NodeId.{compare_bytes}
use mdbx_containers.Bytes.{write_u64_le}
use mdbx_containers.Mdbx.{Bytes, c_str, name}
use mdbx_containers.Mdbx.Memory.{memory, memory-IsMdbx}
use mdbx_containers.Protocol.Batch.{ChangeOp, put}
use mdbx_containers.Tables.{BaseTable, Connection, change}
use mdbx_containers.Tables.Sequence.{db_append, db_get, db_contains}
use mdbx_containers.Tables.SequenceLaws.{IsNextIndex, db_append-get}

abbrev journal : BaseTable
journal = record { dbi_name = name "journal"; dbi_flags = 0 }

abbrev plain : Connection memory
plain = record {
  is_read_only = false;
  validate_sync_dbi_write = λ dbi_name type t. ok tt;
  sync_capture_suppressed = λ t. false;
  has_sync_capture = true;
}

abbrev serialize_value : Bytes → Bytes
serialize_value v = v

abbrev deserialize_value : Bytes → Result Bytes
deserialize_value v = ok v

abbrev key : ℕ → Bytes
key n = n ∷ 0 ∷ 0 ∷ 0 ∷ 0 ∷ 0 ∷ 0 ∷ 0 ∷ []

-- The index 4 is in use.
abbrev before : memory.Txn
unfolding memory
before = (name "journal", key 4, 7 ∷ []) ∷ []

abbrev after : memory.Txn
unfolding memory
after = (name "journal", key 4, 7 ∷ []) ∷ (name "journal", key 5, 8 ∷ []) ∷ []

abbrev put_8 : ChangeOp
put_8 = change memory plain journal put (key 5) (8 ∷ [])

append_run :
    db_append memory plain serialize_value deserialize_value journal (8 ∷ []) (before, [])
    ≡ ok (5, (after, put_8 ∷ []))
unfolding db_append memory compare_bytes c_str
append_run = refl

db_append-get_example :
    IsNextIndex ((key 4, 7 ∷ []) ∷ []) 5
    × (db_contains memory plain serialize_value deserialize_value journal 5 (before, [])
        ≡ ok (false, (before, [])))
    × (db_get memory plain serialize_value deserialize_value journal 5 (after, put_8 ∷ [])
        ≡ ok (some (8 ∷ []), (after, put_8 ∷ [])))
    × ((j : ℕ)
        → j < 2 ^ 64
        → j ≢ 5
        → memory.get journal.dbi_name (write_u64_le j) after
          ≡ memory.get journal.dbi_name (write_u64_le j) before)
unfolding c_str memory
db_append-get_example =
    db_append-get memory memory-IsMdbx plain serialize_value deserialize_value journal
      (λ value. refl) (before, []) (after, put_8 ∷ []) (8 ∷ []) 5 (omega arith) append_run
