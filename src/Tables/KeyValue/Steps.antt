-- ===== src/Tables/KeyValue/Steps.antt =====
-- include/mdbx_containers/KeyValueTable.hpp: sequences of calls against the map.
use mdbx_containers.Prelude.{
  ◌≡◌, refl, sym, ap, ◌∙◌, subst, Bool, true, false, not, Option, none, some, List, [], ◌∷◌, ok,
  if◌then◌else◌,
}
use mdbx_containers.Stateful.{◌>>=◌, pure}
use mdbx_containers.Stateful.Laws.{bind-eq-ok, then-eq-ok, pure-eq-ok}
use mdbx_containers.Mdbx.{Mdbx, IsMdbx}
use mdbx_containers.Protocol.Batch.{ChangeOp}
use mdbx_containers.Tables.{BaseTable, Connection, Serializer, IsSerializer}
use mdbx_containers.Tables.KeyValue.{
  db_get, db_contains, db_insert_or_assign, db_insert_if_absent, db_update, db_erase, db_clear,
}
use mdbx_containers.Tables.KeyValue.Bulk.{db_append}
use mdbx_containers.Tables.KeyValue.Spec.{
  Command, insert_or_assign, insert_if_absent, update, erase, find, contains, append, clear, Answer,
  done, flag, found, run, run_all, Map, is_some, step, steps, assign,
}
use mdbx_containers.Tables.KeyValue.Refinement.{
  Represents, db_get-eq-ok, db_contains-eq-ok, db_insert_or_assign-Represents,
}
use mdbx_containers.Tables.KeyValue.Refined.{
  db_insert_if_absent-eq-ok, db_update-eq-ok, db_erase-eq-ok, db_append-Represents,
  db_clear-Represents,
}

module _ {K V : Type 0} (db : Mdbx) (laws : IsMdbx db) (connection : Connection db)
    (s : Serializer K V) (serializes : IsSerializer s) (table : BaseTable) where
  abbrev Follows : db.Txn × List ChangeOp → Answer V → Map K V × Answer V → Type 0
  Follows u a next = (a ≡ next.1) × Represents db laws connection s serializes table u.0 next.0

  inserted-Follows :
      (key : K) (value : V) (u : db.Txn × List ChangeOp) (m : Map K V) (a : Answer V) (made : Bool)
      → a ≡ flag made
      → made ≡ not (is_some (m key))
      → Represents db laws connection s serializes table u.0
          (if is_some (m key) then m else assign s.equal_keys key value m)
      → Follows u a (step s.equal_keys (insert_if_absent key value) m)
  inserted-Follows key value u m a made i said r = go (m key) (i ∙ ap flag said) r
    where
      go :
          (o : Option V)
          → a ≡ flag (not (is_some o))
          → Represents db laws connection s serializes table u.0
              (if is_some o then m else assign s.equal_keys key value m)
          → Follows u a (elim o [
            | none ↦ (assign s.equal_keys key value m, flag true)
            | some old ↦ (m, flag false)
          ])
      go none i r = (i, r)
      go (some old) i r = (i, r)

  updated-Follows :
      (key : K) (fn : V → V) (u : db.Txn × List ChangeOp) (m : Map K V) (a : Answer V)
      (updated : Bool) (o : Option V)
      → m key ≡ o
      → a ≡ flag updated
      → ((o : Option V)
          → m key ≡ o
          → (updated ≡ is_some o)
            × Represents db laws connection s serializes table u.0
                (elim o [ none ↦ m | some value ↦ assign s.equal_keys key (fn value) m ]))
      → Follows u a (elim o [
        | none ↦ (m, flag false)
        | some old ↦ (assign s.equal_keys key (fn old) m, flag true)
      ])
  updated-Follows key fn u m a updated none e i r =
      let (said, after) = r none e in (i ∙ ap flag said, after)
  updated-Follows key fn u m a updated (some old) e i r =
      let (said, after) = r (some old) e in (i ∙ ap flag said, after)

  -- A call of a method answers what the map answers, and the table holds the map after it.
  run-step :
      (command : Command K V) (u u' : db.Txn × List ChangeOp) (m : Map K V) (a : Answer V)
      → Represents db laws connection s serializes table u.0 m
      → run db connection s table command u ≡ ok (a, u')
      → Follows u' a (step s.equal_keys command m)
  unfolding run
  run-step (insert_or_assign key value) u u' m a r h =
      let (w, e, j) =
        then-eq-ok (db_insert_or_assign db connection s table key value) (pure done) u h in
      let (i, same) = pure-eq-ok done a w j in
      (
        sym i,
        subst
            (λ x.
              Represents db laws connection s serializes table x.0
                (assign s.equal_keys key value m))
            same
            (db_insert_or_assign-Represents db laws connection s serializes table u w m key value r
              e),
      )
  run-step (insert_if_absent key value) u u' m a r h =
      let (made, w, e, j) =
        bind-eq-ok (db_insert_if_absent db connection s table key value) (λ made. pure (flag made))
          u h in
      let (i, same) = pure-eq-ok (flag made) a w j in
      let (said, after) =
        db_insert_if_absent-eq-ok db laws connection s serializes table u w m key value made r e in
      inserted-Follows key value u' m a made (sym i) said (
        subst
          (λ x.
            Represents db laws connection s serializes table x.0
              (if is_some (m key) then m else assign s.equal_keys key value m))
          same after)
  run-step (update key fn) u u' m a r h =
      let (updated, w, e, j) =
        bind-eq-ok (db_update db connection s table key fn) (λ updated. pure (flag updated)) u h in
      let (i, same) = pure-eq-ok (flag updated) a w j in
      updated-Follows key fn u' m a updated (m key) refl (sym i) (λ o eq.
        let (said, after) =
          db_update-eq-ok db laws connection s serializes table u w m key fn updated o eq r e in
        (
          said,
          subst
              (λ x.
                Represents db laws connection s serializes table x.0
                  (elim o [ none ↦ m | some value ↦ assign s.equal_keys key (fn value) m ]))
              same after,
        ))
  run-step (erase key) u u' m a r h =
      let (erased, w, e, j) =
        bind-eq-ok (db_erase db connection s table key) (λ erased. pure (flag erased)) u h in
      let (i, same) = pure-eq-ok (flag erased) a w j in
      let (said, after) =
        db_erase-eq-ok db laws connection s serializes table u w m key erased r e in
      (
        sym i ∙ ap flag said,
        subst
            (λ x.
              Represents db laws connection s serializes table x.0
                (step s.equal_keys (erase key) m).0)
            same after,
      )
  run-step (find key) u u' m a r h =
      let (value, w, e, j) =
        bind-eq-ok (db_get db connection s table key) (λ value. pure (found value)) u h in
      let (i, same) = pure-eq-ok (found value) a w j in
      let (said, kept) = db_get-eq-ok db laws connection s serializes table u w m key value r e in
      (
        sym i ∙ ap found said,
        subst (λ x. Represents db laws connection s serializes table x.0 m) (kept ∙ same) r,
      )
  run-step (contains key) u u' m a r h =
      let (present, w, e, j) =
        bind-eq-ok (db_contains db connection s table key) (λ present. pure (flag present)) u h in
      let (i, same) = pure-eq-ok (flag present) a w j in
      let (said, kept) =
        db_contains-eq-ok db laws connection s serializes table u w m key present r e in
      (
        sym i ∙ ap flag said,
        subst (λ x. Represents db laws connection s serializes table x.0 m) (kept ∙ same) r,
      )
  run-step (append container) u u' m a r h =
      let (w, e, j) = then-eq-ok (db_append db connection s table container) (pure done) u h in
      let (i, same) = pure-eq-ok done a w j in
      (
        sym i,
        subst
            (λ x.
              Represents db laws connection s serializes table x.0
                (step s.equal_keys (append container) m).0)
            same (db_append-Represents db laws connection s serializes table u w m container r e),
      )
  run-step clear u u' m a r h =
      let (w, e, j) = then-eq-ok (db_clear db connection s table) (pure done) u h in
      let (i, same) = pure-eq-ok done a w j in
      (
        sym i,
        subst
            (λ x.
              Represents db laws connection s serializes table x.0 (step s.equal_keys clear m).0)
            same (db_clear-Represents db laws connection s serializes table u w m r e),
      )

  -- A key-value table is a map: where any sequence of calls returns on a table that holds a map, the answers are
  -- those of the same calls of the map, and the table holds the map after them.
  pub run_all-steps :
      (commands : List (Command K V)) (u u' : db.Txn × List ChangeOp) (m : Map K V)
      (answers : List (Answer V))
      → Represents db laws connection s serializes table u.0 m
      → run_all db connection s table commands u ≡ ok (answers, u')
      → (answers ≡ (steps s.equal_keys commands m).1)
        × Represents db laws connection s serializes table u'.0 (steps s.equal_keys commands m).0
  unfolding run_all
  run_all-steps [] u u' m answers r h =
      let (i, same) = pure-eq-ok [] answers u h in
      (sym i, subst (λ x. Represents db laws connection s serializes table x.0 m) same r)
  run_all-steps (command ∷ commands) u u' m answers r h =
      let rest = λ (answer : Answer V).
        run_all db connection s table commands >>= (λ answers. pure (answer ∷ answers)) in
      let (answer, w, e, j) = bind-eq-ok (run db connection s table command) rest u h in
      let (more, x, f, l) =
        bind-eq-ok (run_all db connection s table commands) (λ answers. pure (answer ∷ answers)) w
          j in
      let (i, same) = pure-eq-ok (answer ∷ more) answers x l in
      let (said, after) = run-step command u w m answer r e in
      let next = (step s.equal_keys command m).0 in
      let (said_all, after_all) = run_all-steps commands w x next more after f in
      (
        sym i ∙ ap (λ a. a ∷ more) said ∙ ap (λ l. (step s.equal_keys command m).1 ∷ l) said_all,
        subst
            (λ y.
              Represents db laws connection s serializes table y.0
                (steps s.equal_keys commands next).0)
            same after_all,
      )
