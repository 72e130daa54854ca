-- ===== src/Engine/PullLaws.antt =====
-- include/mdbx_containers/sync/engine/SyncEngine.hpp: what a page of a pull holds.
use mdbx_containers.Prelude.{
  ◌+◌, ◌%◌, ◌^◌, ◌≤◌, ◌<◌, ◌≡◌, refl, sym, ap, ◌∙◌, subst, Bool, true, false, ◌||◌, none, List, [],
  ◌∷◌, ◌++◌, ok, throw, Result, arith, length, length-append, take, drop, leb, ltb, append_assoc,
  append-nil, ◌⊎◌, inl, inr,
}
use mdbx_containers.Bytes.{read_u64_be}
use mdbx_containers.NodeId.{NodeId, is_same, compare_node_id}
use mdbx_containers.Mdbx.{Bytes}
use mdbx_containers.Entries.{Entry}
use mdbx_containers.Protocol.Batch.{ChangeBatch}
use mdbx_containers.Protocol.Decode.{decode_exact}
use mdbx_containers.Engine.Pull.{PullRequest, changelog_key_origin, changelog_key_seq}
use mdbx_containers.Engine.PullPage.{Page, Walk, origin_done, page_full, too_large, pull_loop}

-- A record of the changelog under an origin holds the batch, which is of that origin and has the record's number.
pub record HoldsBatch (origin : NodeId) (e : Entry) (batch : ChangeBatch) : Type 0 where
  pub decoded : decode_exact e.1 none ≡ ok batch
  pub key_origin : is_same (compare_node_id (take 16 e.0) origin) ≡ true
  pub batch_origin : is_same (compare_node_id batch.origin_node_id origin) ≡ true
  pub same_seq : batch.seq ≡ read_u64_be (drop 16 e.0)

-- The records are the batches', in their order.
abbrev pub AreBatches : NodeId → List Entry → List ChangeBatch → Type 0
AreBatches origin [] [] = Unit {0}
AreBatches origin [] (b ∷ batches) = ⊥
AreBatches origin (e ∷ l) [] = ⊥
AreBatches origin (e ∷ l) (b ∷ batches) = HoldsBatch origin e b × AreBatches origin l batches

-- The records from here on are no longer the origin's.
abbrev pub StopsAt : NodeId → List Entry → Type 0
StopsAt origin [] = Unit {0}
StopsAt origin (e ∷ l) = is_same (compare_node_id (take 16 e.0) origin) ≡ false

-- The batches are those of all records from here up to the first of another origin.
pub record Delivered (origin : NodeId) (l : List Entry) (batches : List ChangeBatch) : Type 0 where
  pub got : List Entry
  pub rest : List Entry
  pub split : l ≡ got ++ rest
  pub held : AreBatches origin got batches
  pub stop : StopsAt origin rest

-- A page without batches has no bytes.
abbrev pub IsWeighed : Page → Type 0
IsWeighed page = length page.taken ≡ 0 → page.total_bytes ≡ 0

-- A page that is called full has a batch, where the request leaves room for one.
abbrev pub Progress : PullRequest → Page → Walk → Type 0
Progress request page walk =
    walk ≡ page_full → 0 < request.max_batches → 0 < request.max_bytes → 0 < length page.taken

-- What a walk over an origin did to the page: it took `taken`.
pub record Walked (origin : NodeId) (request : PullRequest) (l : List Entry) (page page' : Page)
    (walk : Walk) : Type 0 where
  pub taken : List ChangeBatch
  pub pages : page'.taken ≡ page.taken ++ taken
  pub bounded : length page.taken ≤ request.max_batches → length page'.taken ≤ request.max_batches
  pub complete : walk ≡ origin_done → Delivered origin l taken
  pub weighed : IsWeighed page → IsWeighed page' × Progress request page' walk

pub key_origin_lem : (k : Bytes) (o : NodeId) → changelog_key_origin k ≡ ok o → o ≡ take 16 k
unfolding changelog_key_origin
key_origin_lem k o h = ground arith

-- A round of the loop: it stops, or it takes a batch and goes on.
abbrev Round : NodeId → PullRequest → Bytes → Bytes → List Entry → Page → Page → Walk → Type 0
Round origin request k v l page page' walk =
    (page ≡ page')
      × ((walk ≡ origin_done) → is_same (compare_node_id (take 16 k) origin) ≡ false)
      × ((walk ≡ page_full)
          → (leb request.max_batches (length page.taken) || leb request.max_bytes page.total_bytes)
            ≡ true)
    ⊎ (batch : ChangeBatch) × (next : Page) × HoldsBatch origin (k, v) batch
      × (next.taken ≡ page.taken ++ batch ∷ [])
      × (length page.taken < request.max_batches)
      × (pull_loop origin request l next ≡ ok (page', walk))

pull_loop-cases :
    (origin : NodeId) (request : PullRequest) (k v : Bytes) (l : List Entry) (page page' : Page)
    (walk : Walk)
    → pull_loop origin request ((k, v) ∷ l) page ≡ ok (page', walk)
    → Round origin request k v l page page' walk
unfolding pull_loop changelog_key_seq
pull_loop-cases origin request k v l page page' walk h =
    go (changelog_key_origin k) (is_same (compare_node_id (take 16 k) origin))
      (leb request.max_batches (length page.taken) || leb request.max_bytes page.total_bytes)
      (ltb request.max_single_batch_bytes (length v)) (decode_exact v none) refl refl refl refl refl
  where
    go :
        (ro : Result NodeId) (here full large : Bool) (rb : Result ChangeBatch)
        → changelog_key_origin k ≡ ro
        → is_same (compare_node_id (take 16 k) origin) ≡ here
        → (leb request.max_batches (length page.taken) || leb request.max_bytes page.total_bytes)
          ≡ full
        → ltb request.max_single_batch_bytes (length v) ≡ large
        → decode_exact v none ≡ rb
        → Round origin request k v l page page' walk
    go (throw e) here full large rb eo eh ef el eb = ground arith
    go (ok o) false full large rb eo eh ef el eb =
        let r : (page ≡ page') × (walk ≡ origin_done) = ground (arith, key_origin_lem k o eo) in
        inl (r.0, λ d. eh, λ d. absurd (ground (arith, r.1, d)))
    go (ok o) true true large rb eo eh ef el eb =
        let r : (page ≡ page') × (walk ≡ page_full) = ground (arith, key_origin_lem k o eo) in
        inl (r.0, (λ d. absurd (ground (arith, r.1, d))), λ d. ef)
    go (ok o) true false true rb eo eh ef el eb =
        let r : (page ≡ page') × (walk ≡ too_large) = ground (arith, key_origin_lem k o eo) in
        inl (r.0, (λ d. absurd (ground (arith, r.1, d))), λ d. absurd (ground (arith, r.1, d)))
    go (ok o) true false false (throw e) eo eh ef el eb =
        absurd (ground (arith, key_origin_lem k o eo))
    go (ok o) true false false (ok batch) eo eh ef el eb =
        let next : Page = record {
          taken = page.taken ++ batch ∷ [];
          total_bytes = (page.total_bytes + length v) % 2 ^ 64;
        } in
        inr (
          batch,
          next,
          record {
            decoded = eb;
            key_origin = eh;
            batch_origin = ground (arith, key_origin_lem k o eo);
            same_seq = ground (arith, key_origin_lem k o eo);
          },
          refl,
          ground arith,
          ground (arith, key_origin_lem k o eo),
        )

full_page :
    (request : PullRequest) (page : Page)
    → IsWeighed page
    → (leb request.max_batches (length page.taken) || leb request.max_bytes page.total_bytes) ≡ true
    → 0 < request.max_batches
    → 0 < request.max_bytes
    → 0 < length page.taken
full_page request page w full room bytes = ground arith

pub Walked-nothing :
    (origin : NodeId) (request : PullRequest) (l : List Entry) (page page' : Page) (walk : Walk)
    → page ≡ page'
    → (walk ≡ origin_done → StopsAt origin l)
    → (walk ≡ page_full
        → (leb request.max_batches (length page.taken) || leb request.max_bytes page.total_bytes)
          ≡ true)
    → Walked origin request l page page' walk
Walked-nothing origin request l page page' walk same_page stops full = record {
  taken = [];
  pages = ap (λ p. p.taken) (sym same_page) ∙ sym (append-nil page.taken);
  bounded = λ b. subst (λ p. length p.taken ≤ request.max_batches) same_page b;
  complete = λ d. record { got = []; rest = l; split = refl; held = tt; stop = stops d };
  weighed = λ w.
      subst (λ p. IsWeighed p × Progress request p walk) same_page
        (w, λ d room bytes. full_page request page w (full d) room bytes);
}

pub pull_loop-Walked :
    (origin : NodeId) (request : PullRequest) (l : List Entry) (page page' : Page) (walk : Walk)
    → pull_loop origin request l page ≡ ok (page', walk)
    → Walked origin request l page page' walk
unfolding pull_loop
pull_loop-Walked origin request [] page page' walk h =
    let r : (page ≡ page') × (walk ≡ origin_done) = ground arith in
    Walked-nothing origin request [] page page' walk r.0 (λ d. tt)
      (λ d. absurd (ground (arith, r.1, d)))
pull_loop-Walked origin request ((k, v) ∷ l) page page' walk h =
    elim (pull_loop-cases origin request k v l page page' walk h) [
      | inl (same_page, stops, full) ↦
          Walked-nothing origin request ((k, v) ∷ l) page page' walk same_page stops full
      | inr (batch, next, holds, takes, room, go_on) ↦
          let w = pull_loop-Walked origin request l next page' walk go_on in
          record {
            taken = batch ∷ w.taken;
            pages =
                w.pages
                ∙ ap (λ b. b ++ w.taken) takes
                ∙ append_assoc page.taken (batch ∷ []) w.taken;
            bounded = λ b.
                w.bounded
                  (omega (arith, room, ap length takes, length-append page.taken (batch ∷ [])));
            complete = λ d.
                let c = w.complete d in
                record {
                  got = (k, v) ∷ c.got;
                  rest = c.rest;
                  split = ap (λ x. (k, v) ∷ x) c.split;
                  held = (holds, c.held);
                  stop = c.stop;
                };
            weighed = λ d. w.weighed (λ none_taken. absurd (
                omega (arith, none_taken, ap length takes, length-append page.taken (batch ∷ []))));
          }
    ]
