-- ===== src/Stores/ReceiverMode/RoundTrip.antt =====
-- The record of a receiver's mode is read back.
use mdbx_containers.Prelude.{
  ◌<◌, ◌≤◌, ◌≡◌, refl, ◌∙◌, Bool, false, not, ◌&&◌, Option, none, some, List, [], ◌∷◌, ◌++◌,
  append_assoc, append-nil, ok, length, ltb, is_empty, arith,
}
use native.Mathlib.Nat.{mod-eq_of_lt}
use mdbx_containers.Bytes.{IsU32, to_u32, write_u32_le, append_u32_le}
use mdbx_containers.Reader.Reads.{
  Reads, Reads-bind, Reads-last, Reads-guard, Reads-pure, read_u8-Reads, read_u32-Reads,
  read_bytes-Reads,
}
use mdbx_containers.Mdbx.{Bytes}
use mdbx_containers.Stores.ReceiverMode.{
  ReceiverReplicationMode, full_global, selective, mode_to_u8, is_full_global, is_selective,
  ReceiverReplicationModeState, max_manifest_entries, format_version, at_least, is_bad_scope,
  put_scopes, encode, read_scope, read_scopes, read_mode, read_state, decode,
}

scopes_bytes : List Bytes → Bytes
scopes_bytes [] = []
scopes_bytes (s ∷ scopes) = (write_u32_le (to_u32 (length s)) ++ s) ++ scopes_bytes scopes

abbrev follows : Option Bytes → Bytes → Bool
follows previous scope = elim previous [ none ↦ false | some p ↦ at_least p scope ]

-- Every scope is well-formed and greater than the scope before it.
abbrev IsCanonical : Option Bytes → List Bytes → Type 0
IsCanonical previous [] = Unit
IsCanonical previous (s ∷ scopes) =
    (follows previous s ≡ false) × (is_bad_scope s ≡ false) × IsCanonical (some s) scopes

put_scopes-ok :
    (previous : Option Bytes) (out : Bytes) (scopes : List Bytes) (out' : Bytes)
    → put_scopes previous out scopes ≡ ok out'
    → IsCanonical previous scopes × (out' ≡ out ++ scopes_bytes scopes)
unfolding put_scopes scopes_bytes append_u32_le
put_scopes-ok previous out [] out' h = (tt, rw (append-nil out) (cc))
put_scopes-ok previous out (s ∷ scopes) out' h =
    let next = (out ++ write_u32_le (to_u32 (length s))) ++ s in
    let (order, shape, rest) = split h in
    let (w, e) = put_scopes-ok (some s) next scopes out' rest in
    ((order, shape, w), e ∙ simp append_assoc)
  where
    split :
        put_scopes previous out (s ∷ scopes) ≡ ok out'
        → (follows previous s ≡ false)
          × (is_bad_scope s ≡ false)
          × (put_scopes (some s) ((out ++ write_u32_le (to_u32 (length s))) ++ s) scopes ≡ ok out')
    split k = ground arith

scope_shape : (s : Bytes) → is_bad_scope s ≡ false → (0 < length s) × (length s ≤ 256)
unfolding is_bad_scope
scope_shape [] h = cc
scope_shape (b ∷ s) h = ground arith

read_scope-Reads :
    (s : Bytes)
    → is_bad_scope s ≡ false
    → Reads read_scope (write_u32_le (to_u32 (length s)) ++ s) s
unfolding read_scope
read_scope-Reads s h =
    let (some_bytes, few) = scope_shape s h in
    let fits : IsU32 (length s) = omega arith in
    rw (mod-eq_of_lt fits) (
      Reads-bind _ _ (read_u32-Reads _ (length s) fits)
        (Reads-guard _ _ _ (ground arith) (read_bytes-Reads _ s _ refl)))

read_scopes-Reads :
    (previous : Option Bytes) (scopes : List Bytes)
    → IsCanonical previous scopes
    → Reads (read_scopes (length scopes) previous) (scopes_bytes scopes) scopes
unfolding read_scopes scopes_bytes
read_scopes-Reads previous [] w = Reads-pure []
read_scopes-Reads previous (s ∷ scopes) w =
    Reads-bind _ _ (read_scope-Reads s w.1) (
      Reads-guard _ _ _ w.0 (Reads-last _ _ (read_scopes-Reads (some s) scopes w.2) (Reads-pure _)))

read_mode-Reads : (mode : ReceiverReplicationMode) → Reads (read_mode (mode_to_u8 mode)) [] mode
unfolding read_mode mode_to_u8
read_mode-Reads full_global = Reads-pure full_global
read_mode-Reads selective = Reads-pure selective

state_bytes : ReceiverReplicationModeState → Bytes
state_bytes state =
    write_u32_le format_version
    ++ ((mode_to_u8 state.mode ∷ [])
        ++ (write_u32_le (to_u32 (length state.scope_ids)) ++ scopes_bytes state.scope_ids))

-- What `encode` checks of a state.
pub record IsState (state : ReceiverReplicationModeState) : Type 0 where
  pub carried : (is_full_global state.mode && not (is_empty state.scope_ids)) ≡ false
  pub present : (is_selective state.mode && is_empty state.scope_ids) ≡ false
  pub few : ltb max_manifest_entries (length state.scope_ids) ≡ false
  pub canonical : IsCanonical none state.scope_ids

encode-ok :
    (state : ReceiverReplicationModeState) (bytes : Bytes)
    → encode state ≡ ok bytes
    → IsState state × (bytes ≡ state_bytes state)
unfolding encode state_bytes append_u32_le
encode-ok state bytes h =
    let (carried, present, few, rest) = split h in
    let (w, e) = put_scopes-ok none _ state.scope_ids bytes rest in
    (
      record { carried = carried; present = present; few = few; canonical = w },
      e ∙ simp append_assoc,
    )
  where
    split :
        encode state ≡ ok bytes
        → ((is_full_global state.mode && not (is_empty state.scope_ids)) ≡ false)
          × ((is_selective state.mode && is_empty state.scope_ids) ≡ false)
          × (ltb max_manifest_entries (length state.scope_ids) ≡ false)
          × (put_scopes none
                ((([] ++ write_u32_le format_version) ++ mode_to_u8 state.mode ∷ [])
                  ++ write_u32_le (to_u32 (length state.scope_ids)))
                state.scope_ids
              ≡ ok bytes)
    split k = ground arith

read_state-Reads :
    (state : ReceiverReplicationModeState)
    → IsState state
    → Reads read_state (state_bytes state) state
unfolding read_state state_bytes
read_state-Reads state w =
    let few = w.few in
    let fits : IsU32 (length state.scope_ids) = ground arith in
    Reads-bind _ _ (read_u32-Reads _ format_version (omega arith)) (
      Reads-guard _ _ _ refl (
        Reads-bind _ _ (read_u8-Reads _ (mode_to_u8 state.mode)) (
          Reads-bind _ _ (read_mode-Reads state.mode) (
            rw (mod-eq_of_lt fits) (
              Reads-bind _ _ (read_u32-Reads _ (length state.scope_ids) fits) (
                Reads-guard _ _ _ w.few (
                  Reads-last _ _ (read_scopes-Reads none state.scope_ids w.canonical)
                    (Reads-guard _ _ _ (rw (w.carried, w.present)) (Reads-pure state)))))))))

-- A record that `encode` writes is read back by `decode`.
pub decode-encode :
    (state : ReceiverReplicationModeState) (bytes : Bytes)
    → encode state ≡ ok bytes
    → decode bytes ≡ ok state
unfolding decode
decode-encode state bytes h =
    let (w, e) = encode-ok state bytes h in
    let run = rw (append-nil (state_bytes state)) at ((read_state-Reads state w).run [] 0) in
    rw e (rw (long state, decode) (rw (run, decode)))
  where
    long : (s : ReceiverReplicationModeState) → ltb (length (state_bytes s)) 9 ≡ false
    long s = unfold state_bytes write_u32_le in ground arith
