-- ===== src/Engine/PullRetained.antt =====
-- include/mdbx_containers/sync/engine/SyncEngine.hpp: what the checks of an origin say of the changelog.
use mdbx_containers.Prelude.{
  ℕ, ◌+◌, ◌-◌, ◌^◌, ◌≤◌, ◌≡◌, refl, sym, ap, ◌∙◌, subst, Bool, true, false, if◌then◌else◌, Option,
  none, some, List, [], ◌∷◌, arith, ok, throw, Result, take, Bool-cases, leb, ◌==◌, bytes_eq,
  bytes_eq_refl, All, ◌⊎◌, inl, inr,
}
use mdbx_containers.NodeId.{NodeId, is_same, compare_node_id, compare_bytes}
use mdbx_containers.NodeId.Laws.{compare_node_id_same}
use mdbx_containers.Entries.{Entry, is_less, seek, IsSorted}
use mdbx_containers.Entries.Order.{All-seek}
use mdbx_containers.Stores.ChangeLog.{encode_key}
use mdbx_containers.Engine.Pull.{
  PullRequest, PullOrigin, last_seq_for, origin_is_at_tail, max_seq, changelog_key_origin,
  changelog_key_seq,
}
use mdbx_containers.Engine.PullPage.{request_has_retained_start, changelog_earliest_seq}
use mdbx_containers.Engine.PullLaws.{StopsAt, key_origin_lem}
use mdbx_containers.Engine.PullPages.{up_to_date}
use mdbx_containers.Engine.PullMissing.{
  origin_of, seq_of, IsLogged, is_missing, missing, stopped-missing,
}
use mdbx_containers.Engine.PullSpec.{known, last_seq_for-known, HasUpTo, IsKnown, NoGap}

module _ (entries : List Entry) (request : PullRequest) where
  covered-missing :
      (origin : NodeId) (tail n : ℕ) (l : List Entry)
      → tail ≤ n
      → All (λ e. bytes_eq (origin_of e) origin ≡ true → seq_of e ≤ tail) l
      → missing origin n l ≡ []
  covered-missing origin tail n [] h a = refl
  covered-missing origin tail n (e ∷ l) h (here, rest) =
      let seen : is_missing origin n e ≡ false = go (bytes_eq (origin_of e) origin) refl in
      rw seen (covered-missing origin tail n l h rest)
    where
      go : (b : Bool) → bytes_eq (origin_of e) origin ≡ b → is_missing origin n e ≡ false
      go true eq = let bound = here eq in ground (arith, bound, eq)
      go false eq = ground (arith, eq)

  greatest-missing :
      (origin : NodeId) (l : List Entry) → All IsLogged l → missing origin (2 ^ 64 - 1) l ≡ []
  greatest-missing origin [] a = refl
  greatest-missing origin (e ∷ l) (here, rest) =
      let seen : is_missing origin (2 ^ 64 - 1) e ≡ false = ground (arith, here.seq_fits) in
      rw seen (greatest-missing origin l rest)

  HasUpTo-seek :
      (origin : NodeId) (n : ℕ) (k : List ℕ) (l : List Entry)
      → HasUpTo origin n (seek compare_bytes k l)
      → HasUpTo origin n l
  unfolding seek
  HasUpTo-seek origin n k [] h = h
  HasUpTo-seek origin n k (e ∷ l) h =
      go (is_less (compare_bytes e.0 k)) (λ i. HasUpTo-seek origin n k l i) h
    where
      go :
          (b : Bool)
          → (HasUpTo origin n (seek compare_bytes k l) → HasUpTo origin n l)
          → HasUpTo origin n (if b then seek compare_bytes k l else e ∷ l)
          → HasUpTo origin n (e ∷ l)
      go true rest i = inr (rest i)
      go false rest i = i

  module _ (sorted : IsSorted compare_bytes entries) (logged : All IsLogged entries) where
    passed-cases :
        (o : PullOrigin)
        → up_to_date compare_bytes entries request o ≡ true
        → (known request.have o.origin ≡ 2 ^ 64 - 1)
          ⊎ (tail : ℕ) × (o.tail ≡ some tail) × (tail ≤ known request.have o.origin)
    unfolding origin_is_at_tail
    passed-cases o up = go o.tail refl (last_seq_for-known request.have o.origin)
      where
        go :
            (tail : Option ℕ)
            → o.tail ≡ tail
            → last_seq_for request.have o.origin ≡ known request.have o.origin
            → (known request.have o.origin ≡ 2 ^ 64 - 1)
              ⊎ (tail : ℕ) × (o.tail ≡ some tail) × (tail ≤ known request.have o.origin)
        go none e same = inl (ground arith)
        go (some tail) e same = elim (Bool-cases (leb tail (last_seq_for request.have o.origin))) [
          | inl at ↦ inr (tail, e, ground arith)
          | inr not_at ↦ inl (ground arith)
        ]

    -- An origin that the loop passes over.
    pub passed-missing :
        (o : PullOrigin)
        → IsKnown entries request o
        → up_to_date compare_bytes entries request o ≡ true
        → (missing o.origin (known request.have o.origin) entries ≡ [])
          × ((tail : ℕ) → o.tail ≡ some tail → tail ≤ known request.have o.origin)
    passed-missing o k up = elim (passed-cases o up) [
      | inl greatest ↦ (
        ap (λ n. missing o.origin n entries) greatest ∙ greatest-missing o.origin entries logged,
        λ tail e. let fits = (k.covers tail e).0 in omega (arith, fits, greatest),
      )
      | inr (tail, e, reached) ↦ (
        covered-missing o.origin tail (known request.have o.origin) entries reached
            (k.covers tail e).1,
        λ tail' e'.
            let equal : tail ≡ tail' = ground (arith, e, e') in omega (arith, equal, reached),
      )
    ]

    -- The first record of the origin, where there is one.
    earliest-cases :
        (origin : NodeId) (r : Option ℕ)
        → changelog_earliest_seq compare_bytes entries request origin ≡ ok r
        → (r ≡ none) × StopsAt origin (seek compare_bytes (encode_key origin 0) entries)
          ⊎ (e : Entry) × (l : List Entry) × (seek compare_bytes (encode_key origin 0) entries
              ≡ e ∷ l)
            × (is_same (compare_node_id (origin_of e) origin) ≡ true)
            × (r ≡ some (seq_of e))
    unfolding changelog_earliest_seq changelog_key_seq
    earliest-cases origin r h = go (seek compare_bytes (encode_key origin 0) entries) refl
      where
        go :
            (s : List Entry)
            → seek compare_bytes (encode_key origin 0) entries ≡ s
            → (r ≡ none) × StopsAt origin s
              ⊎ (e : Entry) × (l : List Entry) × (s ≡ e ∷ l)
                × (is_same (compare_node_id (origin_of e) origin) ≡ true)
                × (r ≡ some (seq_of e))
        go [] es = inl (ground arith, tt)
        go ((k, v) ∷ l) es =
            by_origin (changelog_key_origin k) (is_same (compare_node_id (take 16 k) origin)) refl
              refl
          where
            by_origin :
                (ro : Result NodeId) (own : Bool)
                → changelog_key_origin k ≡ ro
                → is_same (compare_node_id (take 16 k) origin) ≡ own
                → (r ≡ none) × StopsAt origin ((k, v) ∷ l)
                  ⊎ (e : Entry) × (l' : List Entry) × ((k, v) ∷ l ≡ e ∷ l')
                    × (is_same (compare_node_id (origin_of e) origin) ≡ true)
                    × (r ≡ some (seq_of e))
            by_origin (throw e) own eo ew = absurd (ground arith)
            by_origin (ok o) false eo ew = inl (ground (arith, key_origin_lem k o eo), ew)
            by_origin (ok o) true eo ew =
                inr ((k, v), l, refl, ew, ground (arith, key_origin_lem k o eo))

    start-cases :
        (o : PullOrigin)
        → up_to_date compare_bytes entries request o ≡ false
        → request_has_retained_start compare_bytes entries request o ≡ ok true
        → (r : Option ℕ) × (changelog_earliest_seq compare_bytes entries request o.origin ≡ ok r)
          × (r ≡ none → (tail : ℕ) → o.tail ≡ some tail → tail ≤ known request.have o.origin)
          × ((first : ℕ) → r ≡ some first → first ≤ known request.have o.origin + 1)
    unfolding request_has_retained_start
    start-cases o lacks kept =
        go (changelog_earliest_seq compare_bytes entries request o.origin) refl
          (last_seq_for-known request.have o.origin) (ground arith) (ground arith)
      where
        go :
            (r : Result (Option ℕ))
            → changelog_earliest_seq compare_bytes entries request o.origin ≡ r
            → last_seq_for request.have o.origin ≡ known request.have o.origin
            → origin_is_at_tail o request.have ≡ false
            → (last_seq_for request.have o.origin == max_seq) ≡ false
            → (r : Option ℕ) × (changelog_earliest_seq compare_bytes entries request o.origin
                ≡ ok r)
              × (r ≡ none → (tail : ℕ) → o.tail ≡ some tail → tail ≤ known request.have o.origin)
              × ((first : ℕ) → r ≡ some first → first ≤ known request.have o.origin + 1)
        go (throw e) er same at room = absurd (ground arith)
        go (ok none) er same at room =
            (none, er, (λ d tail et. ground arith), λ first d. absurd (cc d))
        go (ok (some f)) er same at room =
            (some f, er, (λ d. absurd (cc d)), λ first d. ground arith)

    pub retained-NoGap :
        (o : PullOrigin)
        → IsKnown entries request o
        → up_to_date compare_bytes entries request o ≡ false
        → request_has_retained_start compare_bytes entries request o ≡ ok true
        → NoGap entries request o
    retained-NoGap o k lacks kept =
        let (r, e, tails, firsts) = start-cases o lacks kept in
        elim (earliest-cases o.origin r e) [
          | inl (nothing, stops) ↦ inl (
            stopped-missing o.origin k.origin_fits (known request.have o.origin) 0 entries
                (omega arith) (omega arith) sorted logged stops,
            tails nothing,
          )
          | inr (f, l, sought, own, is_first) ↦
              let log =
                subst (All IsLogged) sought
                  (All-seek IsLogged compare_bytes (encode_key o.origin 0) entries logged) in
              let equal =
                compare_node_id_same (origin_of f) o.origin (log.0.origin_fits ∙ sym k.origin_fits)
                  (ground (arith, own)) in
              inr (
                HasUpTo-seek o.origin (known request.have o.origin + 1) (encode_key o.origin 0)
                  entries
                  (subst (HasUpTo o.origin (known request.have o.origin + 1)) (sym sought) (
                    inl (
                      ap (λ n. bytes_eq n o.origin) equal ∙ bytes_eq_refl o.origin,
                      firsts (seq_of f) is_first,
                    ))))
        ]
