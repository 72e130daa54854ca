-- ===== src/Witnesses/ChangeLog.antt =====
-- The changelog on a database in memory.
use mdbx_containers.Prelude.{ℕ, ◌≡◌, refl, true, none, some, [], ◌∷◌, ok, arith}
use mdbx_containers.Bytes.{write_u64_le, write_u64_be, read_u64_le}
use mdbx_containers.NodeId.{NodeId, less, compare_bytes}
use mdbx_containers.Mdbx.{Bytes, name, check_write}
use mdbx_containers.Mdbx.Memory.{memory, memory-IsMdbx}
use mdbx_containers.Entries.{seek, place}
use mdbx_containers.Stateful
use mdbx_containers.Stores
use mdbx_containers.Stores.{Store}
use mdbx_containers.Stores.OriginIndex
use mdbx_containers.Stores.OriginIndex.Laws.{note_origin_max}
use mdbx_containers.Stores.ChangeLog.{
  ChangeLogStore, encode_key, decode_key_origin, decode_key_seq, ensure_ready,
  ensure_origin_index_ready, append, get, prune_loop, prune_up_to,
}
use mdbx_containers.Stores.ChangeLog.Keys.{encode_key_order, decode_key-encode_key}
use mdbx_containers.Stores.ChangeLog.Append.{get-append, append_once}
use mdbx_containers.Stores.ChangeLog.Prune.{get-prune_up_to}

abbrev node : ℕ → NodeId
node n = n ∷ 0 ∷ 0 ∷ 0 ∷ 0 ∷ 0 ∷ 0 ∷ 0 ∷ 0 ∷ 0 ∷ 0 ∷ 0 ∷ 0 ∷ 0 ∷ 0 ∷ 0 ∷ []

abbrev store : ChangeLogStore
store = record {
  log = record { dbi_name = name "_mdbxc_changelog"; is_open = true };
  origin_index_ready = true;
  origins = record { dbi_name = name "_mdbxc_origins"; is_open = true };
}

abbrev index : Store
index = record { dbi_name = name "_mdbxc_origins"; is_open = true }

-- The key of the batch `n` of the node 2.
abbrev key : ℕ → Bytes
key n =
    2 ∷ 0 ∷ 0 ∷ 0 ∷ 0 ∷ 0 ∷ 0 ∷ 0 ∷ 0 ∷ 0 ∷ 0 ∷ 0 ∷ 0 ∷ 0 ∷ 0 ∷ 0 ∷ 0 ∷ 0 ∷ 0 ∷ 0 ∷ 0 ∷ 0 ∷ 0 ∷ n
    ∷ []

abbrev tail : ℕ → Bytes
tail n = n ∷ 0 ∷ 0 ∷ 0 ∷ 0 ∷ 0 ∷ 0 ∷ 0 ∷ []

abbrev one : memory.Txn
unfolding memory
one = (name "_mdbxc_changelog", key 1, 7 ∷ []) ∷ (name "_mdbxc_origins", node 2, tail 1) ∷ []

abbrev two : memory.Txn
unfolding memory
two =
    (name "_mdbxc_changelog", key 1, 7 ∷ [])
    ∷ (name "_mdbxc_origins", node 2, tail 2)
    ∷ (name "_mdbxc_changelog", key 2, 8 ∷ [])
    ∷ []

abbrev pruned : memory.Txn
unfolding memory
pruned = (name "_mdbxc_origins", node 2, tail 2) ∷ (name "_mdbxc_changelog", key 2, 8 ∷ []) ∷ []

append_run : append memory store (node 2) 2 (8 ∷ []) one ≡ ok (store, two)
unfolding append ensure_ready ensure_origin_index_ready encode_key write_u64_be write_u64_le
    read_u64_le OriginIndex.note_origin OriginIndex.last_seq OriginIndex.ensure_ready
    OriginIndex.is_bad_value OriginIndex.seq_of OriginIndex.covers Stores.ensure_open Stores.find
    Stores.upsert check_write Stateful.throw_when Stateful.pure Stateful.◌>>=◌ Stateful.◌>>◌ memory
    compare_bytes mdbx_containers.Mdbx.Memory.find mdbx_containers.Mdbx.Memory.insert
    mdbx_containers.Mdbx.Memory.put_new
append_run = refl

get_run : get memory store (node 2) 1 one ≡ ok (some (7 ∷ []), one)
unfolding get ensure_ready encode_key write_u64_be Stores.ensure_open Stores.find
    Stateful.throw_when Stateful.◌>>◌ memory mdbx_containers.Mdbx.Memory.find
get_run = refl

get-append_example : get memory store (node 2) 1 two ≡ ok (some (7 ∷ []), two)
get-append_example =
    get-append memory memory-IsMdbx store (node 2) 2 (8 ∷ []) store one two refl refl (omega arith)
      append_run (node 2) 1 (some (7 ∷ [])) refl (omega arith) get_run

append_once_example : get memory store (node 2) 2 one ≡ ok (none, one)
append_once_example =
    append_once memory memory-IsMdbx store (node 2) 2 (8 ∷ []) store one two refl append_run

prune_run : prune_up_to memory store (node 2) 1 two ≡ ok (1, pruned)
unfolding prune_up_to prune_loop ensure_ready encode_key write_u64_be Stores.ensure_open
    Stateful.throw_when Stateful.◌>>◌ memory compare_bytes seek place
    mdbx_containers.Mdbx.Memory.find mdbx_containers.Mdbx.Memory.without
    mdbx_containers.Mdbx.Memory.del mdbx_containers.Mdbx.Memory.table
prune_run = refl

get_two : get memory store (node 2) 2 two ≡ ok (some (8 ∷ []), two)
unfolding get ensure_ready encode_key write_u64_be Stores.ensure_open Stores.find
    Stateful.throw_when Stateful.◌>>◌ memory mdbx_containers.Mdbx.Memory.find
get_two = refl

get-prune_up_to_example : get memory store (node 2) 2 pruned ≡ ok (some (8 ∷ []), pruned)
unfolding memory mdbx_containers.Mdbx.Memory.table place compare_bytes
get-prune_up_to_example =
    get-prune_up_to memory memory-IsMdbx store (node 2) 1 two pruned 1 refl (refl, (refl, tt)) refl
      (omega arith) prune_run (node 2) 2 (some (8 ∷ [])) refl (omega arith) get_two

note_run : OriginIndex.note_origin memory index (node 2) 1 two ≡ ok (tt, two)
unfolding write_u64_le read_u64_le OriginIndex.note_origin OriginIndex.last_seq
    OriginIndex.ensure_ready OriginIndex.is_bad_value OriginIndex.seq_of OriginIndex.covers
    Stores.ensure_open Stores.find Stores.upsert check_write Stateful.throw_when Stateful.pure
    Stateful.◌>>=◌ Stateful.◌>>◌ memory mdbx_containers.Mdbx.Memory.find
    mdbx_containers.Mdbx.Memory.insert
note_run = refl

last_run : OriginIndex.last_seq memory index (node 2) two ≡ ok (some 2, two)
unfolding read_u64_le OriginIndex.last_seq OriginIndex.ensure_ready OriginIndex.is_bad_value
    OriginIndex.seq_of Stores.ensure_open Stores.find Stateful.throw_when Stateful.pure
    Stateful.◌>>=◌ Stateful.◌>>◌ memory mdbx_containers.Mdbx.Memory.find
last_run = refl

note_origin_max_example : OriginIndex.last_seq memory index (node 2) two ≡ ok (some 2, two)
note_origin_max_example =
    note_origin_max memory index memory-IsMdbx (node 2) 1 two two (node 2) (some 2) (omega arith)
      note_run last_run

encode_key_order_example : compare_bytes (encode_key (node 2) 255) (encode_key (node 2) 256) ≡ less
unfolding compare_bytes
encode_key_order_example =
    encode_key_order (node 2) (node 2) 255 256 refl refl (omega arith) (omega arith)

decode_key-encode_key_example :
    (decode_key_origin (encode_key (node 2) 256) ≡ ok (node 2))
    × (decode_key_seq (encode_key (node 2) 256) ≡ ok 256)
decode_key-encode_key_example = decode_key-encode_key (node 2) 256 refl (omega arith)
