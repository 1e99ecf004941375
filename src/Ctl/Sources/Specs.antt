-- ===== src/Ctl/Sources/Specs.antt =====
-- What the requests that change the extract sources do to the stored document, whatever outside
-- calls fail. The extractsource service is called behind the change, so an error of that call leaves
-- the new document in place.
use churro.Common.{
  String, List, [], ◌∷◌, ◌++◌, map, none, ◌≡◌, refl, ◌∙◌, Distinct, false, ◌⊎◌, inl, inr, suc, ◌&&◌,
  ◌==◌, not, ◌+◌, ap, arith,
}
use churro.Common.Action.{first_refusal, returned, proceed, write, give, ◌>>=◌}
use churro.Common.Ensures.{
  Ends, Ensures, Ensures-bind, Ensures-give, Ensures-weaken, Ensures-refuse-then,
  Ensures-refuse_all-then, Ensures-write,
}
use churro.Domain.{ExtractSource}
use churro.Cluster.{Api, Cluster, Pipeline, Pod, dial_extractsource, call_extractsource, fresh}
use churro.Cluster.Specs.{
  attempt-Ensures, get_pipeline_or_panic-Ensures, list_selected-Ensures, delete_pod_named-Ensures,
}
use churro.Cluster.Faultless.{
  Faultless, refuse_all-passed, refuse-passed, attempt-passed, fetch-passed, update-passed,
  get_pipeline_or_panic-passed,
}
use churro.Cluster.Document.{Stored, Ensures-fetch-then, Ensures-fresh-then, update-Stored}
use churro.Ctl.Removal.{without}
use churro.Ctl.Removal.Laws.{delete_entry-without}
use churro.Ctl.Rewriting.{edited}
use churro.Ctl.Rewriting.Laws.{Ensures-rewrite_all, edited-absent}
use churro.Ctl.Sources.{
  checks, path_taken, source_definition, edit_source, no_source, current_source, trigger_update,
  delete_pods, delete_data_source_pods, add_source, delete_extract_source, change_source,
}

module _ (api : Api) (p : Pipeline) {E : Cluster → Type 0} where
  trigger_update-Stored :
      ((s : Cluster) → Stored p s → E s) → Ensures (Stored p) (trigger_update api) (λ _. Stored p) E
  unfolding trigger_update
  trigger_update-Stored stop = Ensures-bind (get_pipeline_or_panic-Ensures api (λ s h. h) stop) λ _.
      Ensures-bind (attempt-Ensures api dial_extractsource (λ s h. h) stop) λ _.
        Ensures-bind (attempt-Ensures api call_extractsource (λ s h. h) stop)
          λ _. Ensures-write _ (λ s h. h)

  delete_pods-Stored :
      (namespace : String) (l : List Pod)
      → ((s : Cluster) → Stored p s → E s)
      → Ensures (Stored p) (delete_pods api namespace l) (λ _. Stored p) E
  unfolding delete_pods
  delete_pods-Stored namespace [] stop = Ensures-give tt (λ s h. h)
  delete_pods-Stored namespace (x ∷ l) stop =
      Ensures-bind (delete_pod_named-Ensures api namespace x.name (λ s h. h) stop (λ s h. h))
        λ _. delete_pods-Stored namespace l stop

  delete_data_source_pods-Stored :
      (namespace name : String)
      → ((s : Cluster) → Stored p s → E s)
      → Ensures (Stored p) (delete_data_source_pods api namespace name) (λ _. Stored p) E
  unfolding delete_data_source_pods
  delete_data_source_pods-Stored namespace name stop =
      Ensures-bind (attempt-Ensures api _ (λ s h. h) stop) λ _.
        Ensures-bind (list_selected-Ensures api _ (λ s h. h) stop)
          λ pods. delete_pods-Stored namespace pods stop

-- Creating an extract source: on success the request has passed the checks, no source had its path,
-- and the stored document has gained the source, under the answered ID, as the last. On an error it
-- is the old one, or it has gained the source under some ID.
pub add_source_lem :
    (api : Api) (w : ExtractSource) (s : Cluster)
    → let added = λ (id : String). record s.pipeline {
      extractsources = s.pipeline.extractsources ++ (source_definition id w ∷ []);
    } in
      Ends
        (λ id t.
          (first_refusal (checks w) ≡ none)
          × (path_taken w.path s.pipeline.extractsources ≡ false)
          × (t.pipeline ≡ added id))
        (λ t. (t.pipeline ≡ s.pipeline) ⊎ ((id : String) × (t.pipeline ≡ added id)))
        (add_source api w s)
unfolding add_source
add_source_lem api w s =
    let p = s.pipeline in
    (Ensures-refuse_all-then _ (λ t h. inl h)
        λ passed. Ensures-fresh-then api p _ λ id.
          Ensures-fetch-then api p _ (λ t h. inl h)
            (Ensures-refuse-then _ _ (λ t h. inl h)
              λ free. Ensures-bind (update-Stored api p _ (λ t h. inl h)) λ _.
                Ensures-bind (trigger_update-Stored api _ (λ t h. inr (id, h)))
                  λ _. Ensures-give id (λ t h. (passed, free, h)))).at
      s refl

-- Deleting an extract source, where no source's ID occurs twice: on success the stored document has
-- lost the source of that ID and nothing else, so the rules and the extensions of the source are
-- left; on an error it is the old one or this new one.
pub delete_extract_source_lem :
    (api : Api) (namespace id : String) (s : Cluster)
    → Distinct (map (λ x. x.id) s.pipeline.extractsources)
    → let new = record s.pipeline {
      extractsources = without (λ x. x.id) id s.pipeline.extractsources;
    } in
      Ends
        (λ _ t. t.pipeline ≡ new)
        (λ t. (t.pipeline ≡ s.pipeline) ⊎ (t.pipeline ≡ new))
        (delete_extract_source api namespace id s)
unfolding delete_extract_source
delete_extract_source_lem api namespace id s d =
    let p = s.pipeline in
    (Ensures-fetch-then api p _ (λ t h. inl h)
        (Ensures-refuse-then _ _ (λ t h. inl h)
          λ _. rw (delete_entry-without (λ x. x.id) id p.extractsources d) (
            Ensures-bind (update-Stored api p _ (λ t h. inl h)) λ _.
              Ensures-bind (trigger_update-Stored api _ (λ t h. inr h))
                λ _. delete_data_source_pods-Stored api _ namespace _ (λ t h. inr h)))).at
      s refl

-- Updating an extract source, where no source's ID occurs twice: on success the source of the
-- request's ID is edited in the stored document, which is otherwise the old one, and the request's
-- path is that source's own or no source had it; on an error the document is the old one or this new
-- one.
pub change_source_lem :
    (api : Api) (f : ExtractSource) (s : Cluster)
    → Distinct (map (λ x. x.id) s.pipeline.extractsources)
    → let new = record s.pipeline {
      extractsources = edited (λ x. x.id) f.id (edit_source f) s.pipeline.extractsources;
    } in
      Ends
        (λ _ t.
          ((not ((current_source f.id s.pipeline.extractsources no_source).path == f.path)
              && path_taken f.path s.pipeline.extractsources)
            ≡ false)
          × (t.pipeline ≡ new))
        (λ t. (t.pipeline ≡ s.pipeline) ⊎ (t.pipeline ≡ new))
        (change_source api f s)
unfolding change_source
change_source_lem api f s d =
    let p = s.pipeline in
    (Ensures-fetch-then api p _ (λ t h. inl h)
        (Ensures-refuse-then _ _ (λ t h. inl h)
          λ free.
            Ensures-refuse-then _ _ (λ t h. inl h)
              λ _.
                Ensures-bind
                  (Ensures-rewrite_all (λ x. x.id) f.id (edit_source f) _ p.extractsources
                    (λ t h. d)
                    (λ gone t h.
                      h ∙ rw (edited-absent (λ x. x.id) f.id (edit_source f) p.extractsources gone))
                    (update-Stored api p _ (λ t h. inl h)))
                  λ _.
                    Ensures-weaken (trigger_update-Stored api _ (λ t h. inr h)) (λ t h. h)
                      (λ _ t h. (free, h)) (λ t h. h))).at
      s refl

-- Creating an extract source succeeds where the request passes the checks, no source has its path
-- and no outside call fails: the answer is the drawn ID, the source is the last of the stored
-- document, and the extractsource service is notified once.
pub add_source-succeeds :
    (api : Api) (w : ExtractSource) (s : Cluster)
    → Faultless api
    → first_refusal (checks w) ≡ none
    → path_taken w.path s.pipeline.extractsources ≡ false
    → add_source api w s ≡ (
      returned (api.new_id s.calls),
      record s {
        pipeline = record s.pipeline {
          extractsources =
              s.pipeline.extractsources ++ (source_definition (api.new_id s.calls) w ∷ []);
        };
        notified = suc s.notified;
        calls = 10 + s.calls;
      },
    )
unfolding add_source trigger_update fresh ◌>>=◌ write give
add_source-succeeds api w s ok passed free =
    refuse_all-passed (checks w) _ s passed
    ∙ fetch-passed api ok _ _
    ∙ refuse-passed _ _ _ _ free
    ∙ update-passed api ok _ _ _
    ∙ ap (λ r. proceed r.0 (λ _. give (api.new_id s.calls)) r.1)
        (get_pipeline_or_panic-passed api ok _ _
          ∙ attempt-passed api ok _ _ _
          ∙ attempt-passed api ok _ _ _)
    ∙ ap
        (λ n. (
          returned (api.new_id s.calls),
          record s {
            pipeline = record s.pipeline {
              extractsources =
                  s.pipeline.extractsources ++ (source_definition (api.new_id s.calls) w ∷ []);
            };
            notified = suc s.notified;
            calls = n;
          },
        ))
        (omega arith)
