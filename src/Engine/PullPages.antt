-- ===== src/Engine/PullPages.antt =====
-- include/mdbx_containers/sync/engine/SyncEngine.hpp: the page over all origins.
use mdbx_containers.Prelude.{
  ◌+◌, ◌≤◌, ◌≡◌, refl, sym, ap, ◌∙◌, subst, Bool, true, false, ◌||◌, List, [], ◌∷◌, ◌++◌, ok, throw,
  Result, arith, length, ◌==◌, append_assoc, append-nil, ◌⊎◌, inl, inr,
}
use mdbx_containers.NodeId.{NodeId, Comparison}
use mdbx_containers.Mdbx.{Bytes}
use mdbx_containers.Entries.{Entry, seek}
use mdbx_containers.Protocol.Batch.{ChangeBatch}
use mdbx_containers.Stores.ChangeLog.{encode_key}
use mdbx_containers.Engine.Pull.{PullRequest, PullOrigin, last_seq_for, origin_is_at_tail, max_seq}
use mdbx_containers.Engine.PullPage.{
  Page, Walk, origin_done, page_full, too_large, pull_loop, pull_origin_batches, pull_origins,
}
use mdbx_containers.Engine.PullLaws.{Delivered, IsWeighed, Progress, Walked, pull_loop-Walked}

-- The first statement where the test holds, else the second.
abbrev pub Either : Bool → Type 0 → Type 0 → Type 0
Either true A B = A
Either false A B = B

module _ (cmp : Bytes → Bytes → Comparison) (entries : List Entry) (request : PullRequest) where
  -- The records of an origin that the request lacks, and what comes after them.
  abbrev pub lacking : NodeId → List Entry
  lacking origin = seek cmp (encode_key origin (last_seq_for request.have origin + 1)) entries

  -- The request has all that there is of the origin.
  abbrev pub up_to_date : PullOrigin → Bool
  up_to_date o = origin_is_at_tail o request.have || (last_seq_for request.have o.origin == max_seq)

  -- The batches of an origin, then others.
  abbrev pub Parts : PullOrigin → (List ChangeBatch → Type 0) → List ChangeBatch → Type 0
  Parts o Others batches =
      (mine : List ChangeBatch) × (more : List ChangeBatch) × (batches ≡ mine ++ more)
      × Delivered o.origin (lacking o.origin) mine
      × Others more

  -- The batches are, origin by origin, all those that the request lacks.
  abbrev pub AllDelivered : List PullOrigin → List ChangeBatch → Type 0
  AllDelivered [] batches = batches ≡ []
  AllDelivered (o ∷ origins) batches =
      Either (up_to_date o) (AllDelivered origins batches) (Parts o (AllDelivered origins) batches)

  -- What the loop over the origins does to a page.
  pub record Filled (origins : List PullOrigin) (page page' : Page) (walk : Walk) : Type 0 where
    pub taken : List ChangeBatch
    pub pages : page'.taken ≡ page.taken ++ taken
    pub bounded : length page.taken ≤ request.max_batches → length page'.taken ≤ request.max_batches
    pub complete : walk ≡ origin_done → AllDelivered origins taken
    pub weighed : IsWeighed page → Progress request page' walk

  -- A round of the loop over the origins: nothing is lacking, or the walk over the origin went
  -- to its end or ended the loop.
  abbrev Visit : PullOrigin → List PullOrigin → Page → Page → Walk → Type 0
  Visit o origins page page' walk =
      (up_to_date o ≡ true) × (pull_origins cmp entries request origins page ≡ ok (page', walk))
      ⊎ (up_to_date o ≡ false)
        × (next : Page) × (step : Walk) × (pull_loop o.origin request (lacking o.origin) page
            ≡ ok (next, step))
        × ((step ≡ origin_done) × (pull_origins cmp entries request origins next ≡ ok (page', walk))
            ⊎ (next ≡ page') × (walk ≡ step) × (walk ≡ origin_done → ⊥))

  pull_origins-Visit :
      (o : PullOrigin) (origins : List PullOrigin) (page page' : Page) (walk : Walk)
      → pull_origins cmp entries request (o ∷ origins) page ≡ ok (page', walk)
      → Visit o origins page page' walk
  unfolding pull_origins pull_origin_batches
  pull_origins-Visit o origins page page' walk h =
      go (origin_is_at_tail o request.have) (last_seq_for request.have o.origin == max_seq)
        (pull_loop o.origin request (lacking o.origin) page) refl refl refl
    where
      go :
          (at_tail at_end : Bool) (r : Result (Page × Walk))
          → origin_is_at_tail o request.have ≡ at_tail
          → (last_seq_for request.have o.origin == max_seq) ≡ at_end
          → pull_loop o.origin request (lacking o.origin) page ≡ r
          → Visit o origins page page' walk
      go true at_end r et em er = inl (ground arith, ground arith)
      go false true r et em er = inl (ground arith, ground arith)
      go false false (throw e) et em er = absurd (ground arith)
      go false false (ok (next, origin_done)) et em er =
          inr (ground arith, next, origin_done, er, inl (refl, ground arith))
      go false false (ok (next, page_full)) et em er =
          let e : (next ≡ page') × (page_full ≡ walk) = ground arith in
          inr (
            ground arith,
            next,
            page_full,
            er,
            inr (e.0, sym e.1, λ d. absurd (ground (arith, e.1, d))),
          )
      go false false (ok (next, too_large)) et em er =
          let e : (next ≡ page') × (too_large ≡ walk) = ground arith in
          inr (
            ground arith,
            next,
            too_large,
            er,
            inr (e.0, sym e.1, λ d. absurd (ground (arith, e.1, d))),
          )

  up_to_date-Delivered :
      (o : PullOrigin) (origins : List PullOrigin) (batches : List ChangeBatch)
      → up_to_date o ≡ true
      → AllDelivered origins batches
      → AllDelivered (o ∷ origins) batches
  up_to_date-Delivered o origins batches e d =
      subst (λ b. Either b (AllDelivered origins batches) (Parts o (AllDelivered origins) batches))
        (sym e) d

  lacking-Delivered :
      (o : PullOrigin) (origins : List PullOrigin) (mine more : List ChangeBatch)
      → up_to_date o ≡ false
      → Delivered o.origin (lacking o.origin) mine
      → AllDelivered origins more
      → AllDelivered (o ∷ origins) (mine ++ more)
  lacking-Delivered o origins mine more e d rest =
      subst
        (λ b.
          Either b (AllDelivered origins (mine ++ more))
            (Parts o (AllDelivered origins) (mine ++ more)))
        (sym e) (mine, more, refl, d, rest)

  visited :
      (o : PullOrigin) (origins : List PullOrigin) (page next page' : Page) (walk step : Walk)
      → up_to_date o ≡ false
      → Walked o.origin request (lacking o.origin) page next step
      → (step ≡ origin_done) × Filled origins next page' walk
        ⊎ (next ≡ page') × (walk ≡ step) × (walk ≡ origin_done → ⊥)
      → Filled (o ∷ origins) page page' walk
  visited o origins page next page' walk step lacks w (inl (finished, f)) = record {
    taken = w.taken ++ f.taken;
    pages = f.pages ∙ ap (λ b. b ++ f.taken) w.pages ∙ append_assoc page.taken w.taken f.taken;
    bounded = λ b. f.bounded (w.bounded b);
    complete =
        λ d. lacking-Delivered o origins w.taken f.taken lacks (w.complete finished) (f.complete d);
    weighed = λ g. f.weighed (w.weighed g).0;
  }
  visited o origins page next page' walk step lacks w (inr (e, ends, never)) = record {
    taken = w.taken;
    pages = ap (λ p. p.taken) (sym e) ∙ w.pages;
    bounded = λ b. subst (λ p. length p.taken ≤ request.max_batches) e (w.bounded b);
    complete = λ d. absurd (never d);
    weighed = λ g d. subst (λ p. Progress request p step) e (w.weighed g).1 (sym ends ∙ d);
  }

  pub pull_origins-Filled :
      (origins : List PullOrigin) (page page' : Page) (walk : Walk)
      → pull_origins cmp entries request origins page ≡ ok (page', walk)
      → Filled origins page page' walk
  unfolding pull_origins
  pull_origins-Filled [] page page' walk h =
      let e : page ≡ page' = ground arith in
      record {
        taken = [];
        pages = ap (λ p. p.taken) (sym e) ∙ sym (append-nil page.taken);
        bounded = λ b. subst (λ p. length p.taken ≤ request.max_batches) e b;
        complete = λ d. refl;
        weighed = λ g d. absurd (ground (arith, d));
      }
  pull_origins-Filled (o ∷ origins) page page' walk h =
      elim (pull_origins-Visit o origins page page' walk h) [
        | inl (nothing, rest) ↦
            let f = pull_origins-Filled origins page page' walk rest in
            record {
              taken = f.taken;
              pages = f.pages;
              bounded = f.bounded;
              complete = λ d. up_to_date-Delivered o origins f.taken nothing (f.complete d);
              weighed = f.weighed;
            }
        | inr (lacks, next, step, walked, rest) ↦
            let w = pull_loop-Walked o.origin request (lacking o.origin) page next step walked in
            visited o origins page next page' walk step lacks w (elim rest [
              | inl (finished, more) ↦
                  inl (finished, pull_origins-Filled origins next page' walk more)
              | inr stopped ↦ inr stopped
            ])
      ]
