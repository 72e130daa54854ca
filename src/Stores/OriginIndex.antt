-- ===== src/Stores/OriginIndex.antt =====
-- include/mdbx_containers/sync/stores/OriginIndexStore.hpp
pub mod Laws
use mdbx_containers.Prelude.{
  ℕ, ◌+◌, Bool, true, false, not, ◌||◌, Option, none, some, List, [], ◌∷◌, map, length, ◌==◌, leb,
  is_empty, if◌then◌else◌, runtime_error,
}
use mdbx_containers.Bytes.{write_u64_le, read_u64_le}
use mdbx_containers.NodeId.{NodeId}
use mdbx_containers.Stateful.{◌>>=◌, ◌>>◌, pure, throw_when}
use mdbx_containers.Mdbx.{Bytes, Mdbx, InTxn, name, check_write}
use mdbx_containers.Stores
use mdbx_containers.Stores.{Store, find, ensure_open, upsert}

pub record OriginTail : Type 0 where
  pub origin : NodeId
  pub last_seq : ℕ

abbrev pub make : Store
make = record { dbi_name = name "_mdbxc_origins"; is_open = false }

-- Whether a record is there but not of eight bytes.
unfoldable pub is_bad_value : Option Bytes → Bool
is_bad_value none = false
is_bad_value (some value) = not (length value == 8)

unfoldable pub seq_of : Option Bytes → Option ℕ
seq_of none = none
seq_of (some value) = some (read_u64_le value)

-- `last_seq(…) && current >= seq`
unfoldable pub covers : Option ℕ → ℕ → Bool
covers none seq = false
covers (some current) seq = leb seq current

module _ (db : Mdbx) where
  unfoldable pub open_store : Store → InTxn db Store
  unfolding Stores.open_store
  open_store s = Stores.open_store db s "Failed to open OriginIndexStore DBI"

  unfoldable pub open_existing : Store → InTxn db (Store × Bool)
  unfolding Stores.open_existing
  open_existing s = Stores.open_existing db s "Failed to open existing OriginIndexStore DBI"

  unfoldable pub ensure_ready : Store → InTxn db (Unit {0})
  unfolding ensure_open
  ensure_ready s = ensure_open db s "OriginIndexStore is not open"

  unfoldable pub empty : Store → InTxn db Bool
  unfolding ◌>>◌ ensure_ready
  empty s = do ensure_ready s; λ t. pure (is_empty (db.entries s.dbi_name t)) t

  -- The loop over the records that the cursor visits, from a count of removed ones.
  unfoldable pub clear_loop : Store → List (Bytes × Bytes) → ℕ → InTxn db ℕ
  unfolding ◌>>◌ pure check_write
  clear_loop s [] removed = pure removed
  clear_loop s ((k, v) ∷ records) removed = do
    check_write "OriginIndexStore clear cursor_del failed" (db.del s.dbi_name k)
    clear_loop s records (removed + 1)

  unfoldable pub clear : Store → InTxn db ℕ
  unfolding ◌>>◌ ensure_ready clear_loop
  clear s = do ensure_ready s; λ t. clear_loop s (db.entries s.dbi_name t) 0 t

  -- The result is none where the function returns false.
  unfoldable pub last_seq : Store → NodeId → InTxn db (Option ℕ)
  unfolding ◌>>=◌ ◌>>◌ pure ensure_ready find throw_when is_bad_value seq_of
  last_seq s origin = do
    ensure_ready s
    value ← find db s.dbi_name origin "OriginIndexStore last_seq failed"
    throw_when (is_bad_value value) (runtime_error "OriginIndexStore value has invalid size")
    pure (seq_of value)

  unfoldable pub note_origin : Store → NodeId → ℕ → InTxn db (Unit {0})
  unfolding ◌>>=◌ ◌>>◌ pure ensure_ready last_seq upsert covers
  note_origin s origin seq = do
    ensure_ready s
    current ← last_seq s origin
    if covers current seq
        then pure tt
        else upsert db s.dbi_name origin (write_u64_le seq) "OriginIndexStore note_origin failed"

  unfoldable pub tails_loop : List (Bytes × Bytes) → InTxn db (List OriginTail)
  unfolding ◌>>=◌ ◌>>◌ pure throw_when
  tails_loop [] = pure []
  tails_loop ((k, v) ∷ records) = do
    throw_when (not (length k == 16)) (runtime_error "OriginIndexStore key has invalid size")
    throw_when (not (length v == 8)) (runtime_error "OriginIndexStore value has invalid size")
    tails ← tails_loop records
    pure (record { origin = k; last_seq = read_u64_le v } ∷ tails)

  unfoldable pub origin_tails : Store → InTxn db (List OriginTail)
  unfolding ◌>>◌ ensure_ready tails_loop
  origin_tails s = do ensure_ready s; λ t. tails_loop (db.entries s.dbi_name t) t

  unfoldable pub origins : Store → InTxn db (List NodeId)
  unfolding ◌>>=◌ pure origin_tails
  origins s = do tails ← origin_tails s; pure (map (λ tail. tail.origin) tails)
