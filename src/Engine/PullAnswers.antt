-- ===== src/Engine/PullAnswers.antt =====
-- include/mdbx_containers/sync/engine/SyncEngine.hpp: what a page of a pull answers.
use mdbx_containers.Prelude.{
  ◌≤◌, ◌≡◌, ◌<◌, refl, sym, ap, ◌∙◌, subst, Bool, true, false, List, [], ok, throw, Result, arith,
  length, ◌⊎◌, inl, inr,
}
use mdbx_containers.NodeId.{Comparison}
use mdbx_containers.Mdbx.{Bytes}
use mdbx_containers.Entries.{Entry}
use mdbx_containers.Engine.Pull.{PullRequest, PullResponse, PullOrigin, refuse}
use mdbx_containers.Engine.PullPage.{
  Page, Walk, origin_done, page_full, too_large, pull_origins, fill_page, all_retained,
}
use mdbx_containers.Engine.PullPages.{AllDelivered, pull_origins-Filled}

module _ (cmp : Bytes → Bytes → Comparison) (entries : List Entry) (request : PullRequest) where
  -- A refusal, or what the loop over the origins took.
  fill_page-cases :
      (origins : List PullOrigin) (out response : PullResponse)
      → fill_page cmp entries request origins out ≡ ok response
      → (response.batches ≡ []) × (response.is_ok ≡ false) × (response.has_more ≡ false)
        ⊎ (page : Page) × (walk : Walk) × (pull_origins cmp entries request origins
              (record { taken = []; total_bytes = 0 })
            ≡ ok (page, walk))
          × (response.batches ≡ page.taken)
          × (response.has_more ≡ false → walk ≡ origin_done)
          × (response.has_more ≡ true → walk ≡ page_full)
          × (all_retained cmp entries request origins ≡ ok true)
  unfolding fill_page refuse
  fill_page-cases origins out response h =
      go (all_retained cmp entries request origins)
        (pull_origins cmp entries request origins (record { taken = []; total_bytes = 0 })) refl
        refl
    where
      go :
          (ra : Result Bool) (rp : Result (Page × Walk))
          → all_retained cmp entries request origins ≡ ra
          → pull_origins cmp entries request origins (record { taken = []; total_bytes = 0 }) ≡ rp
          → (response.batches ≡ []) × (response.is_ok ≡ false) × (response.has_more ≡ false)
            ⊎ (page : Page) × (walk : Walk) × (pull_origins cmp entries request origins
                  (record { taken = []; total_bytes = 0 })
                ≡ ok (page, walk))
              × (response.batches ≡ page.taken)
              × (response.has_more ≡ false → walk ≡ origin_done)
              × (response.has_more ≡ true → walk ≡ page_full)
              × (all_retained cmp entries request origins ≡ ok true)
      go (throw e) rp ea ep = absurd (ground arith)
      go (ok false) rp ea ep = inl (ground arith)
      go (ok true) (throw e) ea ep = absurd (ground arith)
      go (ok true) (ok (page, origin_done)) ea ep =
          let e : (response.batches ≡ page.taken) × (response.has_more ≡ false) = ground arith in
          inr (page, origin_done, ep, e.0, (λ d. refl), (λ d. absurd (ground (arith, e.1, d))), ea)
      go (ok true) (ok (page, page_full)) ea ep =
          let e : (response.batches ≡ page.taken) × (response.has_more ≡ true) = ground arith in
          inr (page, page_full, ep, e.0, (λ d. absurd (ground (arith, e.1, d))), (λ d. refl), ea)
      go (ok true) (ok (page, too_large)) ea ep = inl (ground arith)

  -- A page of a pull that says it has no more holds, for each origin that the loop does not pass over, the batches
  -- of the records from the number after the request's on, up to the first record of another origin.
  pub fill_page-AllDelivered :
      (origins : List PullOrigin) (out response : PullResponse)
      → fill_page cmp entries request origins out ≡ ok response
      → response.is_ok ≡ true
      → response.has_more ≡ false
      → AllDelivered cmp entries request origins response.batches
  fill_page-AllDelivered origins out response h fine last =
      elim (fill_page-cases origins out response h) [
        | inl (none_taken, bad, no_more) ↦ absurd (ground (arith, bad))
        | inr (page, walk, pulled, taken, last_one, more_left, kept) ↦
            let f =
              pull_origins-Filled cmp entries request origins
                (record { taken = []; total_bytes = 0 }) page walk pulled in
            subst (AllDelivered cmp entries request origins) (sym (taken ∙ f.pages))
              (f.complete (last_one last))
      ]

  -- A page that is not refused has been preceded by the check of every origin.
  pub fill_page-all_retained :
      (origins : List PullOrigin) (out response : PullResponse)
      → fill_page cmp entries request origins out ≡ ok response
      → response.is_ok ≡ true
      → all_retained cmp entries request origins ≡ ok true
  fill_page-all_retained origins out response h fine =
      elim (fill_page-cases origins out response h) [
        | inl (none_taken, bad, no_more) ↦ absurd (ground (arith, bad))
        | inr (page, walk, pulled, taken, last_one, more_left, kept) ↦ kept
      ]

  -- A page of a pull has at most as many batches as the request allows.
  pub fill_page-bounded :
      (origins : List PullOrigin) (out response : PullResponse)
      → fill_page cmp entries request origins out ≡ ok response
      → length response.batches ≤ request.max_batches
  fill_page-bounded origins out response h = elim (fill_page-cases origins out response h) [
    | inl nothing ↦ omega (arith, ap length nothing.0)
    | inr (page, walk, pulled, taken, last_one, more_left, kept) ↦
        let f =
          pull_origins-Filled cmp entries request origins (record { taken = []; total_bytes = 0 })
            page walk pulled in
        subst (λ b. length b ≤ request.max_batches) (sym taken) (f.bounded (omega arith))
  ]

  -- A page of a pull that says it has more holds a batch, where the request leaves room for a batch and a byte: so a
  -- receiver that goes on pulling gets further with each page.
  pub fill_page-progress :
      (origins : List PullOrigin) (out response : PullResponse)
      → fill_page cmp entries request origins out ≡ ok response
      → 0 < request.max_batches
      → 0 < request.max_bytes
      → response.has_more ≡ true
      → 0 < length response.batches
  fill_page-progress origins out response h room bytes goes_on =
      elim (fill_page-cases origins out response h) [
        | inl (none_taken, bad, no_more) ↦ absurd (ground (arith, no_more))
        | inr (page, walk, pulled, taken, last_one, more_left, kept) ↦
            let f =
              pull_origins-Filled cmp entries request origins
                (record { taken = []; total_bytes = 0 }) page walk pulled in
            subst (λ b. 0 < length b) (sym taken)
              (f.weighed (λ d. refl) (more_left goes_on) room bytes)
      ]
