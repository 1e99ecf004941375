-- ===== src/Ctl/Functions/Specs.antt =====
-- What the requests that change the transform functions do to the stored document, whatever outside
-- calls fail.
use churro.Common.{String, [], ◌∷◌, ◌++◌, map, none, ◌≡◌, refl, ◌∙◌, Distinct}
use churro.Common.Action.{first_refusal}
use churro.Common.Ensures.{
  Ends, Ensures-bind, Ensures-give, Ensures-refuse-then, Ensures-refuse_all-then,
}
use churro.Domain.{TransformFunction}
use churro.Cluster.{Api, Cluster}
use churro.Cluster.Document.{
  Ensures-fetch-then, Ensures-attempt-then, Ensures-fresh-then, update-Stored,
}
use churro.Ctl.Removal.{without}
use churro.Ctl.Removal.Laws.{delete_entry-without}
use churro.Ctl.Rewriting.{edited}
use churro.Ctl.Rewriting.Laws.{Ensures-rewrite_all, edited-absent}
use churro.Ctl.Functions.{
  checks, function_definition, edit_function, add_function, change_function,
  delete_transform_function,
}

-- Deleting a function, where no function's ID occurs twice: on success the stored document has lost
-- the function of that ID and nothing else; on an error it is the old one.
pub delete_transform_function_lem :
    (api : Api) (id : String) (s : Cluster)
    → Distinct (map (λ x. x.id) s.pipeline.functions)
    → Ends
        (λ _ t.
          t.pipeline
          ≡ record s.pipeline { functions = without (λ x. x.id) id s.pipeline.functions })
        (λ t. t.pipeline ≡ s.pipeline)
        (delete_transform_function api id s)
unfolding delete_transform_function
delete_transform_function_lem api id s d =
    (Ensures-fetch-then api s.pipeline _ (λ t h. h)
        (Ensures-refuse-then _ _ (λ t h. h)
          λ _.
            rw (delete_entry-without (λ x. x.id) id s.pipeline.functions d)
              (update-Stored api s.pipeline _ (λ t h. h)))).at
      s refl

-- Creating a function: on success the request has passed the checks, and the stored document has
-- gained the function, under the answered ID, as the last; on an error it is the old one.
pub add_function_lem :
    (api : Api) (f : TransformFunction) (s : Cluster)
    → Ends
        (λ id t.
          (first_refusal (checks f) ≡ none)
          × (t.pipeline ≡ record s.pipeline {
            functions = s.pipeline.functions ++ (function_definition id f ∷ []);
          }))
        (λ t. t.pipeline ≡ s.pipeline)
        (add_function api f s)
unfolding add_function
add_function_lem api f s =
    (Ensures-refuse_all-then _ (λ t h. h)
        λ passed.
          Ensures-attempt-then api s.pipeline _ (λ t h. h)
            (Ensures-attempt-then api s.pipeline _ (λ t h. h)
              (Ensures-fresh-then api s.pipeline _ λ id.
                Ensures-fetch-then api s.pipeline _ (λ t h. h)
                  (Ensures-bind (update-Stored api s.pipeline _ (λ t h. h))
                    λ _. Ensures-give id (λ t h. (passed, h)))))).at
      s refl

-- Updating a function, where no function's ID occurs twice: on success the function of the request's
-- ID has the request's name and source in the stored document, which is otherwise the old one; on an
-- error it is the old one.
pub change_function_lem :
    (api : Api) (f : TransformFunction) (s : Cluster)
    → Distinct (map (λ x. x.id) s.pipeline.functions)
    → Ends
        (λ _ t. t.pipeline ≡ record s.pipeline {
          functions = edited (λ x. x.id) f.id (edit_function f) s.pipeline.functions;
        })
        (λ t. t.pipeline ≡ s.pipeline)
        (change_function api f s)
unfolding change_function
change_function_lem api f s d =
    let p = s.pipeline in
    (Ensures-fetch-then api p _ (λ t h. h)
        (Ensures-refuse-then _ _ (λ t h. h)
          λ _.
            Ensures-rewrite_all (λ x. x.id) f.id (edit_function f) _ p.functions (λ t h. d)
              (λ gone t h.
                h ∙ rw (edited-absent (λ x. x.id) f.id (edit_function f) p.functions gone))
              (update-Stored api p _ (λ t h. h)))).at
      s refl
