-- ===== src/Ctl/Requests/Invariant/Functions.antt =====
-- The requests that change the transform functions keep the form.
use churro.Common.{ℕ, String, List, refl}
use churro.Common.Ensures.{Ensures, Ensures-bind, Ensures-give, Ensures-refuse, Ensures-refuse_all}
use churro.Domain.{TransformFunction}
use churro.Cluster.{Api, Pipeline, FunctionDefinition, new_database, connect_database}
use churro.Cluster.Specs.{attempt-Ensures}
use churro.Ctl.Rewriting.Laws.{Ensures-rewrite_all}
use churro.Ctl.Functions.{edit_function, add_function, change_function, delete_transform_function}
use churro.Ctl.Requests.Invariant.{
  IsWellFormed, Kept, Kept-Stable, Held, Held-Stable, Drawn-Stable, DrawsDistinct, Fits, Fits-snoc,
  Fits-delete, Fits-edited, fresh-New, fetch-Drawn, update-Kept, fetch-Held, function_ids,
  function_ids,
}

module _ (api : Api) where
  -- The document with another list of functions.
  with_functions :
      (calls : ℕ) (p : Pipeline) (l : List FunctionDefinition)
      → IsWellFormed api calls p
      → Fits api (λ x. x.id) calls l
      → IsWellFormed api calls (record p { functions = l })
  with_functions calls p l w (d, u) = record {
    sources_distinct = w.sources_distinct;
    paths_distinct = w.paths_distinct;
    functions_distinct = d;
    rules_distinct = w.rules_distinct;
    sources_undrawn = w.sources_undrawn;
    functions_undrawn = u;
    rules_undrawn = w.rules_undrawn;
  }

  functions_fit :
      (calls : ℕ) (p : Pipeline) → IsWellFormed api calls p → Fits api (λ x. x.id) calls p.functions
  functions_fit calls p w = (w.functions_distinct, w.functions_undrawn)

  pub change_function-Kept :
      (f : TransformFunction)
      → Ensures (Kept api) (change_function api f) (λ _. Kept api) (Kept api)
  unfolding change_function
  change_function-Kept f = Ensures-bind (fetch-Held api) λ p.
      Ensures-bind {Q = λ _. Held api p} (Ensures-refuse _ _ (λ s h. h.1) (λ _ s h. h)) λ _.
        Ensures-rewrite_all (λ x. x.id) f.id (edit_function f) _ p.functions
          (λ s h. h.0.functions_distinct) (λ _ s h. h.1)
          (update-Kept api _ (Held-Stable api p) (λ s h. h.1)
            λ s h. with_functions s.calls p _ h.0 (
              Fits-edited api (λ x. x.id) s.calls p.functions f.id (edit_function f) (λ x. refl)
                (functions_fit s.calls p h.0)))

  pub delete_transform_function-Kept :
      (id : String)
      → Ensures (Kept api) (delete_transform_function api id) (λ _. Kept api) (Kept api)
  unfolding delete_transform_function
  delete_transform_function-Kept id = Ensures-bind (fetch-Held api) λ p.
      Ensures-bind {Q = λ _. Held api p} (Ensures-refuse _ _ (λ s h. h.1) (λ _ s h. h)) λ _.
        update-Kept api _ (Held-Stable api p) (λ s h. h.1)
          λ s h.
            with_functions s.calls p _ h.0
              (Fits-delete api (λ x. x.id) s.calls p.functions id (functions_fit s.calls p h.0))

  module _ (distinct : DrawsDistinct api) where
    pub add_function-Kept :
        (f : TransformFunction) → Ensures (Kept api) (add_function api f) (λ _. Kept api) (Kept api)
    unfolding add_function
    add_function-Kept f =
        Ensures-bind {Q = λ _. Kept api} (Ensures-refuse_all _ (λ s w. w) (λ _ s w. w)) λ _.
          Ensures-bind (attempt-Ensures api new_database (Kept-Stable api) (λ s w. w)) λ _.
            Ensures-bind (attempt-Ensures api connect_database (Kept-Stable api) (λ s w. w)) λ _.
              Ensures-bind (fresh-New api distinct function_ids (λ n p w. w.functions_undrawn))
                λ id. Ensures-bind (fetch-Drawn api function_ids id) λ p.
                  Ensures-bind
                    (update-Kept api _ (Drawn-Stable api function_ids p id) (λ s h. h.0.1)
                      (λ s h. with_functions s.calls p _ h.0.0 (
                        Fits-snoc api (λ x. x.id) s.calls p.functions _
                          (h.0.0.functions_distinct, h.0.0.functions_undrawn) h.1)))
                    λ _. Ensures-give id (λ s w. w)
