-- ===== src/Stores/Keeps.antt =====
-- What the stores leave as it was: opening a store and reading from it change no record.
use mdbx_containers.Prelude.{
  ℕ, ◌≡◌, ap, Bool, true, false, ◌&&◌, Option, none, some, String, bytes_eq, Result, ok, throw,
  arith,
}
use mdbx_containers.Stateful.{◌>>◌, fail}
use mdbx_containers.NodeId.{NodeId}
use mdbx_containers.Mdbx.{Bytes, Mdbx, IsMdbx}
use mdbx_containers.Mdbx.Keeps.{
  Keeps, Keeps-bind, Keeps-then, Keeps-pure, Keeps-if, Keeps-fail, Keeps-option, Keeps-throw_when,
  Keeps-never, Keeps-put, Keeps-dbi_open, keeps_rules,
}
use mdbx_containers.Stores
use mdbx_containers.Stores.{Store, opened, find, open_table, open_existing, ensure_open, upsert}
use mdbx_containers.Stores.Meta
use mdbx_containers.Stores.Applied
use mdbx_containers.Stores.VersionedDbi
use mdbx_containers.Stores.IdentityIndex
use mdbx_containers.Stores.IdentityIndex.{IdentityIndexValue}
use mdbx_containers.Stores.ReceiverMode

module _ {db : Mdbx} {n k : Bytes} where
  pub Keeps-find :
      {Q : Option Bytes → Type 0} (table key : Bytes) (context : String)
      → Keeps db n k Q (find db table key context)
  unfolding find
  Keeps-find table key context = record { run = λ t h q. ap (db.get n k) (ground arith) }

  pub Keeps-ensure_open :
      {Q : Unit {0} → Type 0} (s : Store) (message : String)
      → Keeps db n k Q (ensure_open db s message)
  unfolding ensure_open
  Keeps-ensure_open s message = Keeps-throw_when _ _

  pub Keeps-open_table :
      {Q : Unit {0} → Type 0} (laws : IsMdbx db) (table : Bytes) (flags : ℕ) (context : String)
      → Keeps db n k Q (open_table db table flags context)
  unfolding open_table
  Keeps-open_table laws table flags context = Keeps-dbi_open laws table flags context

  pub Keeps-upsert :
      {Q : Unit {0} → Type 0} (laws : IsMdbx db) (table key value : Bytes) (context : String)
      → (bytes_eq table n && bytes_eq key k) ≡ false
      → Keeps db n k Q (upsert db table key value context)
  unfolding upsert
  Keeps-upsert laws table key value context other = Keeps-put laws table key value context other

  pub Keeps-open_store :
      {Q : Store → Type 0} (laws : IsMdbx db) (s : Store) (context : String)
      → Keeps db n k Q (Stores.open_store db s context)
  unfolding Stores.open_store
  Keeps-open_store laws s context = record {
    run = λ t {a} {t'} h q. ground (
      arith,
      laws.get-dbi_open s.dbi_name db.create_flag t t' n k,
      laws.get-dbi_open s.dbi_name 0 t t' n k,
    );
  }

  pub Keeps-open_existing :
      {Q : Store × Bool → Type 0} (laws : IsMdbx db) (s : Store) (context : String)
      → Keeps db n k Q (open_existing db s context)
  unfolding open_existing
  Keeps-open_existing laws s context = record {
    run = λ t {a} {t'} h q. ground (arith, laws.get-dbi_open s.dbi_name 0 t t' n k);
  }

ruleset wrapper_rules = (
  keeps_rules, Keeps-find, Keeps-ensure_open, Keeps-open_table, Keeps-open_store,
  Keeps-open_existing,
)

module _ {db : Mdbx} {n k : Bytes} where
  pub Keeps-meta_open :
      {Q : Store → Type 0} (laws : IsMdbx db) (s : Store) → Keeps db n k Q (Meta.open_store db s)
  unfolding Meta.open_store
  Keeps-meta_open laws s = Keeps-open_store laws s _

  pub Keeps-get_db_uuid : {Q : NodeId → Type 0} (s : Store) → Keeps db n k Q (Meta.get_db_uuid db s)
  unfolding Meta.get_db_uuid Meta.read_fixed
  Keeps-get_db_uuid s = search wrapper_rules depth 12

  pub Keeps-get_node_id : {Q : NodeId → Type 0} (s : Store) → Keeps db n k Q (Meta.get_node_id db s)
  unfolding Meta.get_node_id Meta.try_get_node_id
  Keeps-get_node_id s = search wrapper_rules depth 12

  pub Keeps-applied_open :
      {Q : Store → Type 0} (laws : IsMdbx db) (s : Store) → Keeps db n k Q (Applied.open_store db s)
  unfolding Applied.open_store
  Keeps-applied_open laws s = search wrapper_rules depth 12

  pub Keeps-last_applied_seq :
      {Q : ℕ → Type 0} (s : Store) (origin : NodeId)
      → Keeps db n k Q (Applied.last_applied_seq db s origin)
  unfolding Applied.last_applied_seq
  Keeps-last_applied_seq s origin = search wrapper_rules depth 12

  pub Keeps-set_last_applied_seq :
      {Q : Unit {0} → Type 0} (laws : IsMdbx db) (s : Store) (origin : NodeId) (seq : ℕ)
      → (bytes_eq s.dbi_name n && bytes_eq origin k) ≡ false
      → Keeps db n k Q (Applied.set_last_applied_seq db s origin seq)
  unfolding Applied.set_last_applied_seq
  Keeps-set_last_applied_seq laws s origin seq other =
      Keeps-then _ _ (Keeps-ensure_open s _) (Keeps-upsert laws _ _ _ _ other)

  Keeps-lookup :
      {Q : Bool → Type 0} (s : Store) (dbi : Bytes) → Keeps db n k Q (VersionedDbi.lookup db s dbi)
  unfolding VersionedDbi.lookup
  Keeps-lookup s dbi = search wrapper_rules depth 12

  pub Keeps-contains :
      {Q : Store × Bool → Type 0} (laws : IsMdbx db) (s : Store) (dbi : Bytes)
      → Keeps db n k Q (VersionedDbi.contains db s dbi)
  unfolding VersionedDbi.contains
  Keeps-contains laws s dbi = Keeps-if _ _ _ (Keeps-pure _) (
      Keeps-bind _ _ (Keeps-open_existing laws s _) (λ (s', exists).
        Keeps-if exists _ _ (Keeps-bind _ _ (Keeps-lookup s' dbi) (λ found. Keeps-pure _))
          (Keeps-pure _)))

  pub Keeps-index_open :
      {Q : Store → Type 0} (laws : IsMdbx db) (s : Store)
      → Keeps db n k Q (IdentityIndex.open_store db s)
  unfolding IdentityIndex.open_store
  Keeps-index_open laws s = search wrapper_rules depth 12

  Keeps-index_decoded :
      {Q : Option IdentityIndexValue → Type 0} (value : Option Bytes)
      → Keeps db n k Q (IdentityIndex.decoded db value)
  unfolding IdentityIndex.decoded
  Keeps-index_decoded none = record { run = λ t h q. ap (db.get n k) (ground arith) }
  Keeps-index_decoded (some v) = record { run = λ t h q. ap (db.get n k) (ground arith) }

  pub Keeps-index_get :
      {Q : Option IdentityIndexValue → Type 0} (s : Store) (dbi key : Bytes)
      → Keeps db n k Q (IdentityIndex.get db s dbi key)
  unfolding IdentityIndex.get
  Keeps-index_get s dbi key =
      Keeps-then _ _ (Keeps-ensure_open s _) (Keeps-bind _ _ (Keeps-find _ _ _) Keeps-index_decoded)

  pub Keeps-index_put :
      {Q : Unit {0} → Type 0} (laws : IsMdbx db) (s : Store) (dbi key : Bytes)
      (v : IdentityIndexValue)
      → bytes_eq s.dbi_name n ≡ false
      → Keeps db n k Q (IdentityIndex.put db s dbi key v)
  unfolding IdentityIndex.put
  Keeps-index_put laws s dbi key v other =
      Keeps-then _ _ (Keeps-ensure_open s _) (Keeps-upsert laws _ _ _ _ (ground arith))

  pub Keeps-index_tombstone :
      {Q : Unit {0} → Type 0} (laws : IsMdbx db) (s : Store) (dbi key : Bytes)
      (v : IdentityIndexValue)
      → bytes_eq s.dbi_name n ≡ false
      → Keeps db n k Q (IdentityIndex.tombstone db s dbi key v)
  unfolding IdentityIndex.tombstone
  Keeps-index_tombstone laws s dbi key v other =
      Keeps-then _ _ (Keeps-ensure_open s _) (Keeps-index_put laws _ _ _ _ other)

  -- `receiver_mode`
  Keeps-mode_decoded :
      {Q : Option ReceiverMode.ReceiverReplicationModeState → Type 0} (value : Option Bytes)
      → Keeps db n k Q (ReceiverMode.decoded db value)
  unfolding ReceiverMode.decoded
  Keeps-mode_decoded none = record { run = λ t h q. ap (db.get n k) (ground arith) }
  Keeps-mode_decoded (some v) = record { run = λ t h q. ap (db.get n k) (ground arith) }

  pub Keeps-mode_open :
      {Q : Store → Type 0} (laws : IsMdbx db) (s : Store)
      → Keeps db n k Q (ReceiverMode.open_store db s)
  unfolding ReceiverMode.open_store
  Keeps-mode_open laws s = Keeps-open_store laws s _

  pub Keeps-mode_get :
      {Q : Option ReceiverMode.ReceiverReplicationModeState → Type 0} (s : Store) (db_id : NodeId)
      → Keeps db n k Q (ReceiverMode.get db s db_id)
  unfolding ReceiverMode.get ReceiverMode.check_id
  Keeps-mode_get s db_id =
      Keeps-then _ _ (Keeps-ensure_open s _) (
        Keeps-then _ _ (Keeps-throw_when _ _)
          (Keeps-bind _ _ (Keeps-find _ _ _) Keeps-mode_decoded))

  -- A claim that is refused writes nothing.
  pub Keeps-claim_refused :
      (s : Store) (db_id : NodeId)
      → Keeps db n k (λ claimed. claimed ≡ false) (ReceiverMode.claim_full_global db s db_id)
  unfolding ReceiverMode.claim_full_global
  Keeps-claim_refused s db_id =
      Keeps-bind _ _ (Keeps-mode_get s db_id)
        (λ found. Keeps-option found _ _ (Keeps-never _ true (λ e. cc)) (λ state. Keeps-pure _))

  Keeps-mode_put :
      {Q : Unit {0} → Type 0} (laws : IsMdbx db) (s : Store) (db_id : NodeId)
      (state : ReceiverMode.ReceiverReplicationModeState)
      → bytes_eq s.dbi_name n ≡ false
      → Keeps db n k Q (ReceiverMode.put db s db_id state)
  unfolding ReceiverMode.put ReceiverMode.check_id
  Keeps-mode_put {Q = Q} laws s db_id state other = by_bytes (ReceiverMode.encode state)
    where
      by_bytes :
          (r : Result Bytes)
          → Keeps db n k Q (elim r [
            | ok bytes ↦
                ReceiverMode.check_id db db_id
                >> upsert db s.dbi_name db_id bytes "Receiver replication mode write failed"
            | throw e ↦ fail e
          ])
      by_bytes (ok bytes) =
          Keeps-then _ _ (Keeps-throw_when _ _) (Keeps-upsert laws _ _ _ _ (ground arith))
      by_bytes (throw e) = Keeps-fail e

  -- A claim writes in its own table.
  pub Keeps-claim :
      {Q : Bool → Type 0} (laws : IsMdbx db) (s : Store) (db_id : NodeId)
      → bytes_eq s.dbi_name n ≡ false
      → Keeps db n k Q (ReceiverMode.claim_full_global db s db_id)
  unfolding ReceiverMode.claim_full_global
  Keeps-claim laws s db_id other = Keeps-bind _ _ (Keeps-mode_get s db_id) (λ found.
      Keeps-option found _ _
        (Keeps-then _ _ (Keeps-mode_put laws s db_id _ other) (Keeps-pure true))
        (λ state. Keeps-pure _))
