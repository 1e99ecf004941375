-- ===== src/Ctl/Requests/Invariant/Sources.antt =====
-- The requests that change the extract sources keep the form.
use churro.Common.{ℕ, String, List, [], ◌∷◌, ◌==◌, ◌≡◌, refl, not, ◌&&◌, false, Distinct}
use churro.Common.Ensures.{
  Ensures, Ensures-bind, Ensures-give, Ensures-write, Ensures-refuse, Ensures-refuse_all,
}
use churro.Domain.{ExtractSource}
use churro.Cluster.{
  Api, Pipeline, Pod, ExtractSourceDefinition, kube_client, dial_extractsource, call_extractsource,
}
use churro.Cluster.Specs.{
  attempt-Ensures, get_pipeline_or_panic-Ensures, list_selected-Ensures, delete_pod_named-Ensures,
}
use churro.Ctl.Removal.Laws.{delete_entry-without, without-Distinct}
use churro.Ctl.Rewriting.Laws.{Ensures-rewrite_all}
use churro.Ctl.Sources.{
  path_taken, source_definition, edit_source, current_source, no_source, trigger_update,
  delete_pods, delete_data_source_pods, add_source, delete_extract_source, change_source,
}
use churro.Ctl.Requests.Invariant.{
  IsWellFormed, Kept, Kept-Stable, Held, Held-Stable, Drawn, Drawn-Stable, DrawsDistinct, Fits,
  Fits-snoc, Fits-delete, Fits-edited, fresh-New, fetch-Drawn, update-Kept, fetch-Held, source_ids,
}
use churro.Ctl.Requests.Invariant.Paths.{paths, added_paths, changed_paths}

module _ (api : Api) where
  with_sources :
      (calls : ℕ) (p : Pipeline) (l : List ExtractSourceDefinition)
      → IsWellFormed api calls p
      → Fits api (λ x. x.id) calls l
      → Distinct (paths l)
      → IsWellFormed api calls (record p { extractsources = l })
  with_sources calls p l w (d, u) e = record {
    sources_distinct = d;
    paths_distinct = e;
    functions_distinct = w.functions_distinct;
    rules_distinct = w.rules_distinct;
    sources_undrawn = u;
    functions_undrawn = w.functions_undrawn;
    rules_undrawn = w.rules_undrawn;
  }

  sources_fit :
      (calls : ℕ) (p : Pipeline)
      → IsWellFormed api calls p
      → Fits api (λ x. x.id) calls p.extractsources
  sources_fit calls p w = (w.sources_distinct, w.sources_undrawn)

  trigger_update-Kept : Ensures (Kept api) (trigger_update api) (λ _. Kept api) (Kept api)
  unfolding trigger_update
  trigger_update-Kept =
      Ensures-bind (get_pipeline_or_panic-Ensures api (Kept-Stable api) (λ s w. w)) λ _.
        Ensures-bind (attempt-Ensures api dial_extractsource (Kept-Stable api) (λ s w. w)) λ _.
          Ensures-bind (attempt-Ensures api call_extractsource (Kept-Stable api) (λ s w. w))
            λ _. Ensures-write _ (λ s w. w)

  delete_pods-Kept :
      (namespace : String) (l : List Pod)
      → Ensures (Kept api) (delete_pods api namespace l) (λ _. Kept api) (Kept api)
  unfolding delete_pods
  delete_pods-Kept namespace [] = Ensures-give tt (λ s w. w)
  delete_pods-Kept namespace (p ∷ l) =
      Ensures-bind
        (delete_pod_named-Ensures api namespace p.name (Kept-Stable api) (λ s w. w) (λ s w. w))
        λ _. delete_pods-Kept namespace l

  delete_data_source_pods-Kept :
      (namespace name : String)
      → Ensures (Kept api) (delete_data_source_pods api namespace name) (λ _. Kept api) (Kept api)
  unfolding delete_data_source_pods
  delete_data_source_pods-Kept namespace name =
      Ensures-bind (attempt-Ensures api kube_client (Kept-Stable api) (λ s w. w)) λ _.
        Ensures-bind (list_selected-Ensures api _ (Kept-Stable api) (λ s w. w))
          λ pods. delete_pods-Kept namespace pods

  pub delete_extract_source-Kept :
      (namespace id : String)
      → Ensures (Kept api) (delete_extract_source api namespace id) (λ _. Kept api) (Kept api)
  unfolding delete_extract_source
  delete_extract_source-Kept namespace id = Ensures-bind (fetch-Held api) λ p.
      Ensures-bind {Q = λ _. Held api p} (Ensures-refuse _ _ (λ s h. h.1) (λ _ s h. h)) λ _.
        Ensures-bind
          (update-Kept api _ (Held-Stable api p) (λ s h. h.1)
            λ s h.
              with_sources s.calls p _ h.0
                (Fits-delete api (λ x. x.id) s.calls p.extractsources id
                  (sources_fit s.calls p h.0))
                (rw (delete_entry-without (λ x. x.id) id p.extractsources h.0.sources_distinct) (
                  without-Distinct (λ x. x.id) id (λ x. x.path) p.extractsources
                    h.0.paths_distinct)))
          λ _. Ensures-bind trigger_update-Kept λ _. delete_data_source_pods-Kept namespace _

  pub change_source-Kept :
      (f : ExtractSource) → Ensures (Kept api) (change_source api f) (λ _. Kept api) (Kept api)
  unfolding change_source
  change_source-Kept f = Ensures-bind (fetch-Held api) λ p.
      Ensures-bind
        {Q = λ _ s.
          Held api p s
          × ((not ((current_source f.id p.extractsources no_source).path == f.path)
                && path_taken f.path p.extractsources)
              ≡ false)}
        (Ensures-refuse _ _ (λ s h. h.1) (λ ok s h. (h, ok)))
        λ _.
          Ensures-bind
            {Q = λ _ s.
              Held api p s
              × ((not ((current_source f.id p.extractsources no_source).path == f.path)
                    && path_taken f.path p.extractsources)
                  ≡ false)}
            (Ensures-refuse _ _ (λ s h. h.0.1) (λ _ s h. h))
            λ _.
              Ensures-bind
                (Ensures-rewrite_all (λ x. x.id) f.id (edit_source f) _ p.extractsources
                  (λ s h. h.0.0.sources_distinct) (λ _ s h. h.0.1)
                  (update-Kept api _ (λ s h. (Held-Stable api p s h.0, h.1)) (λ s h. h.0.1)
                    λ s h.
                      with_sources s.calls p _ h.0.0
                        (Fits-edited api (λ x. x.id) s.calls p.extractsources f.id (edit_source f)
                          (λ x. refl) (sources_fit s.calls p h.0.0))
                        (changed_paths f p.extractsources h.0.0.sources_distinct
                          h.0.0.paths_distinct h.1)))
                λ _. trigger_update-Kept

  module _ (distinct : DrawsDistinct api) where
    pub add_source-Kept :
        (w : ExtractSource) → Ensures (Kept api) (add_source api w) (λ _. Kept api) (Kept api)
    unfolding add_source
    add_source-Kept w =
        Ensures-bind {Q = λ _. Kept api} (Ensures-refuse_all _ (λ s k. k) (λ _ s k. k)) λ _.
          Ensures-bind (fresh-New api distinct source_ids (λ n p k. k.sources_undrawn)) λ id.
            Ensures-bind (fetch-Drawn api source_ids id) λ p.
              Ensures-bind
                {Q = λ _ s.
                  Drawn api source_ids p id s × (path_taken w.path p.extractsources ≡ false)}
                (Ensures-refuse _ _ (λ s h. h.0.1) (λ free s h. (h, free)))
                λ _.
                  Ensures-bind
                    (update-Kept api _ (λ s h. (Drawn-Stable api source_ids p id s h.0, h.1))
                      (λ s h. h.0.0.1)
                      λ s h.
                        with_sources s.calls p _ h.0.0.0
                          (Fits-snoc api (λ x. x.id) s.calls p.extractsources _
                            (sources_fit s.calls p h.0.0.0) h.0.1)
                          (added_paths p.extractsources (source_definition id w)
                            h.0.0.0.paths_distinct h.1))
                    λ _. Ensures-bind trigger_update-Kept λ _. Ensures-give id (λ s k. k)
