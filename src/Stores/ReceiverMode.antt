-- ===== src/Stores/ReceiverMode.antt =====
-- include/mdbx_containers/sync/stores/ReceiverReplicationModeStore.hpp
pub mod RoundTrip
use mdbx_containers.Prelude.{
  ℕ, zero, suc, Bool, true, false, not, ◌&&◌, ◌||◌, Option, none, some, List, [], ◌∷◌, ◌++◌, Result,
  ok, throw, throw_if, length, ltb, ◌==◌, if◌then◌else◌, is_empty, runtime_error, logic_error,
  length_error, invalid_argument, String,
}
use mdbx_containers.Bytes.{append_u32_le, to_u32}
use mdbx_containers.NodeId.{
  NodeId, Comparison, less, same, greater, compare_bytes, is_same, is_zero_sync_id,
}
use mdbx_containers.Stateful.{◌>>=◌, ◌>>◌, pure, throw_when, fail}
use mdbx_containers.Reader.{Cursor, Read, read_bytes, read_u8, read_u32}
use mdbx_containers.Mdbx.{Bytes, Mdbx, InTxn, name}
use mdbx_containers.Stores
use mdbx_containers.Stores.{Store, find, ensure_open, upsert}

-- `enum class ReceiverReplicationMode`
pub data ReceiverReplicationMode : Type 0 where
  full_global selective : ReceiverReplicationMode

unfoldable pub mode_to_u8 : ReceiverReplicationMode → ℕ
mode_to_u8 full_global = 1
mode_to_u8 selective = 2

abbrev pub is_full_global : ReceiverReplicationMode → Bool
is_full_global full_global = true
is_full_global selective = false

abbrev pub is_selective : ReceiverReplicationMode → Bool
is_selective full_global = false
is_selective selective = true

-- `struct ReceiverReplicationModeState`
pub record ReceiverReplicationModeState : Type 0 where
  pub mode : ReceiverReplicationMode
  pub scope_ids : List Bytes

-- `selective_replication_max_scope_id_len`, `selective_replication_max_manifest_entries`
abbrev pub max_scope_id_len : ℕ
max_scope_id_len = 256

abbrev pub max_manifest_entries : ℕ
max_manifest_entries = 10000

abbrev pub format_version : ℕ
format_version = 1

abbrev pub is_less : Comparison → Bool
is_less less = true
is_less _ = false

-- `a >= b` of strings
abbrev pub at_least : Bytes → Bytes → Bool
at_least a b = not (is_less (compare_bytes a b))

unfoldable pub is_bad_scope : Bytes → Bool
is_bad_scope scope = is_empty scope || ltb max_scope_id_len (length scope)

-- The loop of `encode`; the first argument is the scope before.
unfoldable pub put_scopes : Option Bytes → Bytes → List Bytes → Result Bytes
put_scopes previous out [] = ok out
put_scopes previous out (scope ∷ scopes) =
    let rest =
      put_scopes (some scope) (append_u32_le out (to_u32 (length scope)) ++ scope) scopes in
    if elim previous [ none ↦ false | some p ↦ at_least p scope ]
    then throw (logic_error "receiver mode ScopeIds must be sorted and unique")
    else if is_bad_scope scope
    then throw (invalid_argument "receiver replication mode has invalid ScopeId")
    else rest

unfoldable pub encode : ReceiverReplicationModeState → Result Bytes
unfolding put_scopes
encode state =
    if is_full_global state.mode && not (is_empty state.scope_ids)
    then throw (logic_error "full-global receiver mode must not carry scopes")
    else if is_selective state.mode && is_empty state.scope_ids
    then throw (logic_error "selective receiver mode must carry a scope")
    else if ltb max_manifest_entries (length state.scope_ids)
    then throw (length_error "receiver mode scope count exceeds the v1 bound")
    else let out1 = append_u32_le [] format_version in
      let out2 = out1 ++ mode_to_u8 state.mode ∷ [] in
      put_scopes none (append_u32_le out2 (to_u32 (length state.scope_ids))) state.scope_ids

abbrev pub invalid_scope : String
invalid_scope = "invalid receiver replication mode ScopeId"

unfoldable pub read_scope : Read Bytes
read_scope = do
  size ← read_u32 "truncated receiver mode ScopeId length"
  throw_when (size == 0 || ltb max_scope_id_len size) (runtime_error invalid_scope)
  read_bytes invalid_scope size

unfoldable pub read_scopes : ℕ → Option Bytes → Read (List Bytes)
read_scopes zero previous = pure []
read_scopes (suc count) previous = do
  scope ← read_scope
  throw_when (elim previous [ none ↦ false | some p ↦ at_least p scope ])
      (runtime_error "receiver mode ScopeIds are not canonical")
  scopes ← read_scopes count (some scope)
  pure (scope ∷ scopes)

unfoldable pub read_mode : ℕ → Read ReceiverReplicationMode
read_mode raw =
    if raw == 1
    then pure full_global
    else if raw == 2
    then pure selective
    else fail (runtime_error "unknown receiver replication mode")

-- `decode` behind its check of the size
unfoldable pub read_state : Read ReceiverReplicationModeState
read_state = do
  version ← read_u32 "truncated receiver mode version"
  throw_when (not (version == format_version))
      (runtime_error "unsupported receiver replication mode format")
  raw ← read_u8 "truncated receiver mode version"
  mode ← read_mode raw
  count ← read_u32 "truncated receiver mode scope count"
  throw_when (ltb max_manifest_entries count)
      (runtime_error "receiver mode scope count exceeds the v1 bound")
  scopes ← read_scopes count none
  throw_when
      ((is_full_global mode && not (is_empty scopes)) || (is_selective mode && is_empty scopes))
      (runtime_error "invalid receiver replication mode payload")
  pure (record { mode = mode; scope_ids = scopes })

unfoldable pub decode : Bytes → Result ReceiverReplicationModeState
decode value =
    if ltb (length value) 9
    then throw (runtime_error "invalid receiver replication mode record")
    else elim (read_state (record { rest = value; pos = 0 })) [
      | ok (state, cur) ↦
          if is_empty cur.rest
          then ok state
          else throw (runtime_error "invalid receiver replication mode payload")
      | throw e ↦ throw e
    ]

abbrev pub make : Store
make = record { dbi_name = name "_mdbxc_receiver_mode"; is_open = false }

-- `std::lower_bound` and `insert` on the sorted scopes; none where the scope is there already.
unfoldable pub insert_scope : Bytes → List Bytes → Option (List Bytes)
insert_scope scope [] = some (scope ∷ [])
insert_scope scope (s ∷ scopes) =
    let rest = insert_scope scope scopes in
    if is_less (compare_bytes s scope)
    then elim rest [ none ↦ none | some l ↦ some (s ∷ l) ]
    else if is_same (compare_bytes s scope)
    then none
    else some (scope ∷ s ∷ scopes)

module _ (db : Mdbx) where
  unfoldable pub open_store : Store → InTxn db Store
  unfolding Stores.open_store
  open_store s = Stores.open_store db s "Failed to open receiver replication mode DBI"

  abbrev not_open : String
  not_open = "ReceiverReplicationModeStore is not open"

  -- `id_value`
  unfoldable pub check_id : NodeId → InTxn db (Unit {0})
  unfolding throw_when
  check_id db_id =
      throw_when (is_zero_sync_id db_id)
        (invalid_argument "receiver replication mode DbId must not be zero")

  unfoldable pub decoded : Option Bytes → InTxn db (Option ReceiverReplicationModeState)
  decoded none t = ok (none, t)
  decoded (some bytes) t = elim (decode bytes) [ ok s ↦ ok (some s, t) | throw e ↦ throw e ]

  unfoldable pub get : Store → NodeId → InTxn db (Option ReceiverReplicationModeState)
  unfolding ◌>>=◌ ◌>>◌ ensure_open find decoded check_id
  get s db_id = do
    ensure_open db s not_open
    check_id db_id
    value ← find db s.dbi_name db_id "Receiver replication mode read failed"
    decoded value

  unfoldable pub put : Store → NodeId → ReceiverReplicationModeState → InTxn db (Unit {0})
  unfolding ◌>>◌ upsert check_id
  put s db_id state = elim (encode state) [
    | ok bytes ↦ do
      check_id db_id
      upsert db s.dbi_name db_id bytes "Receiver replication mode write failed"
    | throw e ↦ fail e
  ]

  unfoldable pub claim_full_global : Store → NodeId → InTxn db Bool
  unfolding ◌>>=◌ ◌>>◌ pure get put
  claim_full_global s db_id = do
    found ← get s db_id
    elim found [
      | some state ↦ pure (is_full_global state.mode)
      | none ↦ do put s db_id (record { mode = full_global; scope_ids = [] }); pure true
    ]

  -- The branch of `claim_selective` for a record that is there.
  unfoldable pub admit : Store → NodeId → Bytes → ReceiverReplicationModeState → InTxn db Bool
  unfolding ◌>>◌ pure put insert_scope
  admit s db_id scope state =
      if not (is_selective state.mode)
      then pure false
      else elim (insert_scope scope state.scope_ids) [
        | none ↦ pure true
        | some scopes ↦ do put s db_id (record state { scope_ids = scopes }); pure true
      ]

  unfoldable pub claim_selective : Store → NodeId → Bytes → InTxn db Bool
  unfolding ◌>>=◌ ◌>>◌ pure get put admit throw_when ensure_open
  claim_selective s db_id scope = do
    ensure_open db s not_open
    throw_when (is_bad_scope scope)
        (invalid_argument "receiver replication mode has invalid ScopeId")
    found ← get s db_id
    elim found [
      | some state ↦ admit s db_id scope state
      | none ↦ do put s db_id (record { mode = selective; scope_ids = scope ∷ [] }); pure true
    ]
