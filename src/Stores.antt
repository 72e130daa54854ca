-- ===== src/Stores.antt =====
-- What the wrappers of include/mdbx_containers/sync/stores share: a table name with the flag `m_open`, and
-- the calls of libmdbx with `check_mdbx`. `checked_txn_env` refuses a null transaction and one of another
-- environment; a transaction of the model is neither.
pub mod Keeps
pub mod Meta
pub mod Applied
pub mod IdentityIndex
pub mod VersionedDbi
pub mod ReceiverMode
pub mod OriginIndex
pub mod ChangeLog
use mdbx_containers.Prelude.{
  ℕ, Bool, true, false, not, Option, none, some, String, List, ok, throw, Result, ReturnCode,
  not_found, eaccess, Exception, mdbx_exception, logic_error, if◌then◌else◌,
}
use mdbx_containers.Stateful.{Stateful, ◌>>=◌, ◌>>◌, pure, throw_when, fail}
use mdbx_containers.Mdbx.{Bytes, Mdbx, InTxn, Call, done, failed, check_write}

pub record Store : Type 0 where
  pub dbi_name : Bytes
  pub is_open : Bool

abbrev pub opened : Store → Store
opened s = record s { is_open = true }

module _ (db : Mdbx) where
  -- `mdbx_get`, where only MDBX_NOTFOUND is no error
  unfoldable pub find : Bytes → Bytes → String → InTxn db (Option Bytes)
  find table key context t = elim (db.get table key t) [
    | done value ↦ ok (some value, t)
    | failed not_found ↦ ok (none, t)
    | failed rc ↦ throw (mdbx_exception rc context)
  ]

  unfoldable pub open_table : Bytes → ℕ → String → InTxn db (Unit {0})
  unfolding check_write
  open_table table flags context = check_write context (db.dbi_open table flags)

  -- `open`: MDBX_CREATE, and a plain open where the transaction is read-only.
  unfoldable pub open_store : Store → String → InTxn db Store
  open_store s context t =
      if s.is_open then ok (s, t) else elim (db.dbi_open s.dbi_name db.create_flag t) [
        | done t' ↦ ok (opened s, t')
        | failed eaccess ↦ elim (db.dbi_open s.dbi_name 0 t) [
          | done t' ↦ ok (opened s, t')
          | failed rc ↦ throw (mdbx_exception rc context)
        ]
        | failed rc ↦ throw (mdbx_exception rc context)
      ]

  -- `open_existing`: the result says whether the table exists.
  unfoldable pub open_existing : Store → String → InTxn db (Store × Bool)
  open_existing s context t =
      if s.is_open then ok ((s, true), t) else elim (db.dbi_open s.dbi_name 0 t) [
        | done t' ↦ ok ((opened s, true), t')
        | failed not_found ↦ ok ((s, false), t)
        | failed rc ↦ throw (mdbx_exception rc context)
      ]

  unfoldable pub ensure_open : Store → String → InTxn db (Unit {0})
  unfolding throw_when
  ensure_open s message = throw_when (not s.is_open) (logic_error message)

  unfoldable pub upsert : Bytes → Bytes → Bytes → String → InTxn db (Unit {0})
  unfolding check_write
  upsert table key value context = check_write context (db.put table key value)
