-- ===== src/SyncRuns/Listing/Laws.antt =====
-- What the pages of apps/api/src/sync-runs/sync-runs.service.ts show, all together.
use mathlib.Core.Path.{subst}
use sync_bridge_platform.Base.{
  ℕ, ◌*◌, ◌≤◌, String, Bool, true, false, ◌&&◌, ◌||◌, Option, none, some, List, [], ◌∷◌, map, ◌==◌,
  eq_iff, ◌≡◌, refl, sym, ap, ◌∙◌, arith, any, keep, keep-ext, keep-false, or_else, length,
  length-latest_first, latest_first, inl, inr, Bool-cases,
}
use sync_bridge_platform.Database.{SyncRun, SyncRunStatus, SyncPipeline, World, find}
use sync_bridge_platform.Database.Laws.{HasDistinctIds}
use sync_bridge_platform.Listing.{ListQuery, page_of, read_pages}
use sync_bridge_platform.Listing.Laws.{page_of-nil, read_pages-all}
use sync_bridge_platform.SyncRuns.Tables.{Actor, find_pipeline}
use sync_bridge_platform.SyncRuns.Execute.{is_privileged}
use sync_bridge_platform.SyncRuns.Listing.{has_status, owned_ids, is_of, scoped_page, list_all}

-- The query for a page.
abbrev pub pages_of : Option SyncRunStatus → ℕ → ℕ → ListQuery SyncRunStatus
pages_of status limit page = record { page = some page; limit = some limit; status = status }

and-false : (b : Bool) → b && false ≡ false
and-false true = refl
and-false false = refl

and-true : (b : Bool) → b && true ≡ b
and-true true = refl
and-true false = refl

module _ {N : Type 0} where
  abbrev is_owner : Actor → Option (SyncPipeline N) → Bool
  is_owner caller none = false
  is_owner caller (some p) = p.owner_id == caller.sub

  -- The rule by which a single run is shown: to privileged callers, and to the owner of its pipeline.
  abbrev pub may_read : Actor → World N → SyncRun → Bool
  may_read caller w r =
      is_privileged caller.role || is_owner caller (find_pipeline r.pipeline_id w.pipelines)

  abbrev pub readable_runs : Option SyncRunStatus → Actor → World N → List SyncRun
  readable_runs status caller w =
      latest_first (keep (λ r. has_status status r && may_read caller w r) w.sync_runs)

  abbrev ids_among : (caller : Actor) (pid : String) (ps : List (SyncPipeline N)) → Bool
  ids_among caller pid ps =
      any (λ id. id == pid) (map (λ p. p.id) (keep (λ p. p.owner_id == caller.sub) ps))

  ids_among-none :
      (caller : Actor) (pid : String) (ps : List (SyncPipeline N))
      → find (λ p. p.id) pid ps ≡ none
      → ids_among caller pid ps ≡ false
  unfolding find
  ids_among-none caller pid [] h = refl
  ids_among-none caller pid (p ∷ ps) h = ground (arith, ids_among-none caller pid ps)

  -- A pipeline is among those of the caller exactly if the one under its id is the caller's.
  ids_among_lem :
      (caller : Actor) (pid : String) (ps : List (SyncPipeline N))
      → HasDistinctIds (λ p. p.id) ps
      → ids_among caller pid ps ≡ is_owner caller (find (λ p. p.id) pid ps)
  unfolding find
  ids_among_lem caller pid [] h = refl
  ids_among_lem caller pid (p ∷ ps) (fresh, h) = elim (Bool-cases (p.id == pid)) [
    | inl e ↦ ground (
      arith,
      e,
      eq_iff p.id pid,
      ids_among-none caller pid ps
          (subst (λ k. find (λ q. q.id) k ps ≡ none) ((eq_iff p.id pid).0 e) fresh),
    )
    | inr e ↦ ground (arith, e, ids_among_lem caller pid ps h)
  ]

  -- The scope of a caller without privileges, also without pipelines.
  pub scoped_page_lem :
      (ids : List String) (query : ListQuery SyncRunStatus) (w : World N)
      → scoped_page ids query w
        ≡ page_of
            (or_else query.page 1)
            (or_else query.limit 20)
            (keep (λ r. has_status query.status r && is_of ids r) w.sync_runs)
  scoped_page_lem [] query w = sym (
      ap (page_of (or_else query.page 1) (or_else query.limit 20))
        (keep-false _ w.sync_runs (λ r. and-false (has_status query.status r)))
      ∙ page_of-nil _ _)
  scoped_page_lem (id ∷ ids) query w = refl

  list_all_lem :
      (query : ListQuery SyncRunStatus) (caller : Actor) (w : World N)
      → HasDistinctIds (λ p. p.id) w.pipelines
      → list_all query caller w
        ≡ page_of
            (or_else query.page 1)
            (or_else query.limit 20)
            (keep (λ r. has_status query.status r && may_read caller w r) w.sync_runs)
  unfolding list_all
  list_all_lem query caller w h = elim (Bool-cases (is_privileged caller.role)) [
    | inl e ↦
        rw (e, list_all)
          (ap (page_of (or_else query.page 1) (or_else query.limit 20))
            (keep-ext _ _ w.sync_runs (λ r. sym (and-true (has_status query.status r)))))
    | inr e ↦
        rw (e, list_all)
          (scoped_page_lem (owned_ids caller w) query w
            ∙ ap (page_of (or_else query.page 1) (or_else query.limit 20)) (
                keep-ext _ _ w.sync_runs (λ r.
                  ap (λ b. has_status query.status r && b)
                    (ids_among_lem caller r.pipeline_id w.pipelines h))))
  ]

  -- With distinct ids of pipelines, a client that reads the pages of `listAll` one after the other, as many as the
  -- total calls for, gets every run of the status asked for that it may read one by one, and no other, newest
  -- first and without a gap or a repetition; and every page tells the number of those runs.
  pub list_all-pages :
      (status : Option SyncRunStatus) (limit n : ℕ) (caller : Actor) (w : World N)
      → HasDistinctIds (λ p. p.id) w.pipelines
      → length (readable_runs status caller w) ≤ n * limit
      → (read_pages (λ page. list_all (pages_of status limit page) caller w) n
          ≡ readable_runs status caller w)
        × ((page : ℕ)
            → (list_all (pages_of status limit page) caller w).total
              ≡ length (readable_runs status caller w))
  list_all-pages status limit n caller w distinct enough =
      let rows = keep (λ r. has_status status r && may_read caller w r) w.sync_runs in
      (
        read_pages-all limit rows _
            (λ page.
              ap (λ p. p.items) (list_all_lem (pages_of status limit page) caller w distinct))
            n (omega (arith, length-latest_first rows)),
        λ page.
            ap (λ p. p.total) (list_all_lem (pages_of status limit page) caller w distinct)
            ∙ (unfold page_of in sym (length-latest_first rows)),
      )
