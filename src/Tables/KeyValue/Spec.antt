-- ===== src/Tables/KeyValue/Spec.antt =====
-- The map that a key-value table stands for, and the calls that a client makes of it
-- (include/mdbx_containers/KeyValueTable.hpp).
use mdbx_containers.Prelude.{Bool, true, false, Option, none, some, List, [], ◌∷◌, if◌then◌else◌}
use mdbx_containers.Stateful.{◌>>=◌, ◌>>◌, pure}
use mdbx_containers.Mdbx.{Mdbx}
use mdbx_containers.Tables.{BaseTable, Connection, Serializer, InSession}
use mdbx_containers.Tables.KeyValue.{
  db_get, db_contains, db_insert_or_assign, db_insert_if_absent, db_update, db_erase, db_clear,
}
use mdbx_containers.Tables.KeyValue.Bulk.{db_append}

pub data Command (K V : Type 0) : Type 0 where
  insert_or_assign insert_if_absent : K → V → Command K V
  update : K → (V → V) → Command K V
  erase find contains : K → Command K V
  append : List (K × V) → Command K V
  clear : Command K V

-- What a call returns: nothing, whether it did something or found something, or a value.
pub data Answer (V : Type 0) : Type 0 where
  done : Answer V
  flag : Bool → Answer V
  found : Option V → Answer V

module _ {K V : Type 0} (db : Mdbx) (connection : Connection db) (s : Serializer K V)
    (table : BaseTable) where
  unfoldable pub run : Command K V → InSession db (Answer V)
  unfolding ◌>>=◌ ◌>>◌ pure db_get db_contains db_insert_or_assign db_insert_if_absent db_update
      db_erase db_clear db_append
  run (insert_or_assign key value) =
      db_insert_or_assign db connection s table key value >> pure done
  run (insert_if_absent key value) = do
    inserted ← db_insert_if_absent db connection s table key value
    pure (flag inserted)
  run (update key fn) = do updated ← db_update db connection s table key fn; pure (flag updated)
  run (erase key) = do erased ← db_erase db connection s table key; pure (flag erased)
  run (find key) = do value ← db_get db connection s table key; pure (found value)
  run (contains key) = do present ← db_contains db connection s table key; pure (flag present)
  run (append container) = db_append db connection s table container >> pure done
  run clear = db_clear db connection s table >> pure done

  unfoldable pub run_all : List (Command K V) → InSession db (List (Answer V))
  unfolding ◌>>=◌ pure run
  run_all [] = pure []
  run_all (command ∷ commands) = do
    answer ← run command
    answers ← run_all commands
    pure (answer ∷ answers)

-- The abstract map.
abbrev pub Map : Type 0 → Type 0 → Type 0
Map K V = K → Option V

abbrev pub is_some : {V : Type 0} → Option V → Bool
is_some none = false
is_some (some v) = true

module _ {K V : Type 0} (equal_keys : K → K → Bool) where
  abbrev pub assign : K → V → Map K V → Map K V
  assign key value m k = if equal_keys key k then some value else m k

  abbrev pub assign_all : List (K × V) → Map K V → Map K V
  assign_all [] m = m
  assign_all ((key, value) ∷ container) m = assign_all container (assign key value m)

  abbrev pub unassign : K → Map K V → Map K V
  unassign key m k = if equal_keys key k then none else m k

  -- The map after a call, and what the call answers.
  abbrev pub step : Command K V → Map K V → Map K V × Answer V
  step (insert_or_assign key value) m = (assign key value m, done)
  step (insert_if_absent key value) m = elim (m key) [
    | none ↦ (assign key value m, flag true)
    | some old ↦ (m, flag false)
  ]
  step (update key fn) m = elim (m key) [
    | none ↦ (m, flag false)
    | some old ↦ (assign key (fn old) m, flag true)
  ]
  step (erase key) m = (unassign key m, flag (is_some (m key)))
  step (find key) m = (m, found (m key))
  step (contains key) m = (m, flag (is_some (m key)))
  step (append container) m = (assign_all container m, done)
  step clear m = ((λ k. none), done)

  abbrev pub steps : List (Command K V) → Map K V → Map K V × List (Answer V)
  steps [] m = (m, [])
  steps (command ∷ commands) m =
      let (next, answer) = step command m in
      let (last, answers) = steps commands next in (last, answer ∷ answers)
