-- ===== src/Engine/PullSent.antt =====
-- include/mdbx_containers/sync/engine/SyncEngine.hpp: the last page of a pull against the changelog.
use mdbx_containers.Prelude.{
  ◌+◌, ◌≡◌, refl, sym, subst, Bool, true, false, List, [], ◌∷◌, arith, ok, throw, Result, All, inl,
}
use mdbx_containers.Bytes.{IsU64}
use mdbx_containers.NodeId.{compare_bytes}
use mdbx_containers.Entries.{Entry, seek, IsSorted}
use mdbx_containers.Protocol.Batch.{ChangeBatch}
use mdbx_containers.Stores.ChangeLog.{encode_key}
use mdbx_containers.Engine.Pull.{PullRequest, PullResponse, PullOrigin}
use mdbx_containers.Engine.PullPage.{fill_page, all_retained, request_has_retained_start}
use mdbx_containers.Engine.PullLaws.{AreBatches, Delivered}
use mdbx_containers.Engine.PullPages.{AllDelivered, up_to_date, Either, Parts}
use mdbx_containers.Engine.PullAnswers.{fill_page-AllDelivered, fill_page-all_retained}
use mdbx_containers.Engine.PullMissing.{IsLogged, Delivered-missing}
use mdbx_containers.Engine.PullSpec.{known, last_seq_for-known, IsKnown, AllSent}
use mdbx_containers.Engine.PullRetained.{passed-missing, retained-NoGap}

module _ (entries : List Entry) (request : PullRequest) where
  module _ (sorted : IsSorted compare_bytes entries) (logged : All IsLogged entries) where
    all_retained-each :
        (o : PullOrigin) (origins : List PullOrigin)
        → all_retained compare_bytes entries request (o ∷ origins) ≡ ok true
        → (request_has_retained_start compare_bytes entries request o ≡ ok true)
          × (all_retained compare_bytes entries request origins ≡ ok true)
    unfolding all_retained
    all_retained-each o origins h =
        go (request_has_retained_start compare_bytes entries request o) refl
      where
        go :
            (r : Result Bool)
            → request_has_retained_start compare_bytes entries request o ≡ r
            → (request_has_retained_start compare_bytes entries request o ≡ ok true)
              × (all_retained compare_bytes entries request origins ≡ ok true)
        go (throw e) er = absurd (ground arith)
        go (ok false) er = absurd (ground arith)
        go (ok true) er = (er, ground arith)

    AllDelivered-AllSent :
        (origins : List PullOrigin) (batches : List ChangeBatch)
        → All (IsKnown entries request) origins
        → all_retained compare_bytes entries request origins ≡ ok true
        → AllDelivered compare_bytes entries request origins batches
        → AllSent entries request origins batches
    AllDelivered-AllSent [] batches k h d = d
    AllDelivered-AllSent (o ∷ origins) batches (here, k) h d =
        let (kept, rest) = all_retained-each o origins h in
        go kept (λ more. AllDelivered-AllSent origins more k rest)
          (up_to_date compare_bytes entries request o) refl d
      where
        go :
            request_has_retained_start compare_bytes entries request o ≡ ok true
            → ((more : List ChangeBatch)
                → AllDelivered compare_bytes entries request origins more
                → AllSent entries request origins more)
            → (b : Bool) → up_to_date compare_bytes entries request o ≡ b
            → Either b (AllDelivered compare_bytes entries request origins batches) (
                Parts compare_bytes entries request o
                  (AllDelivered compare_bytes entries request origins)
                  batches)
            → AllSent entries request (o ∷ origins) batches
        go kept others true up delivered =
            let passed = passed-missing entries request sorted logged o here up in
            (
              [],
              batches,
              refl,
              subst (λ l. AreBatches o.origin l []) (sym passed.0) tt,
              inl passed,
              others batches delivered,
            )
        go kept others false lacks (mine, more, split, delivered, rest) =
            let n = known request.have o.origin in
            let same = last_seq_for-known request.have o.origin in
            let small : IsU64 (n + 1) = ground (arith, same, here.have_fits, lacks) in
            (
              mine,
              more,
              split,
              Delivered-missing o.origin here.origin_fits n entries mine small sorted logged (
                  subst
                    (λ m.
                      Delivered o.origin (seek compare_bytes (encode_key o.origin (m + 1)) entries)
                        mine)
                    same delivered),
              retained-NoGap entries request sorted logged o here lacks kept,
              others more rest,
            )

    -- A page of a pull that is positive and says that it has no more holds, for each origin that it goes over in
    -- turn, the batches of all records of the changelog above the number that the request has, in their order and no
    -- other; and no batch that the request lacks was pruned unnoticed: the changelog keeps a record of the origin at
    -- the next number or below, or there is nothing that the request lacks. The changelog is in bytewise order, with
    -- keys of origins of 16 bytes and numbers of 64 bits; the origins have 16 bytes, the numbers that the request has
    -- and the tails 64 bits, and a tail that an origin comes with is no smaller than the numbers of its records.
    pub fill_page-AllSent :
        (origins : List PullOrigin) (out response : PullResponse)
        → All (IsKnown entries request) origins
        → fill_page compare_bytes entries request origins out ≡ ok response
        → response.is_ok ≡ true
        → response.has_more ≡ false
        → AllSent entries request origins response.batches
    fill_page-AllSent origins out response k h fine last =
        AllDelivered-AllSent origins response.batches k
          (fill_page-all_retained compare_bytes entries request origins out response h fine)
          (fill_page-AllDelivered compare_bytes entries request origins out response h fine last)
