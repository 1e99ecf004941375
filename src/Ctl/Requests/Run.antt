-- ===== src/Ctl/Requests/Run.antt =====
-- The form of the stored document over any run of the control service.
use churro.Common.{List, [], ◌∷◌}
use churro.Common.Action.{Action}
use churro.Common.Ensures.{Ensures, Ensures-bind, Ensures-give, Ensures-of_result, Ensures-always}
use churro.Cluster.{Cluster}
use churro.Ctl.Sources.{create_extract_source, update_extract_source}
use churro.Ctl.Rules.{create_extract_rule, update_extract_rule}
use churro.Ctl.Functions.{create_transform_function, update_transform_function}
use churro.Ctl.Extensions.{create_extension as make_extension, update_extension as edit_extension}
use churro.Ctl.Requests.{
  Outside, Request, create_source, update_source, get_source, delete_source, create_rule,
  update_rule, delete_rule, get_rule, create_function, update_function, delete_function,
  get_function, create_extension, update_extension, delete_extension, get_extension, get_sources,
  get_rules, get_functions, get_extensions, done, handle, serve,
}
use churro.Ctl.Requests.Invariant.{IsWellFormed, DrawsDistinct, Kept, Kept-Stable}
use churro.Ctl.Requests.Invariant.Sources.{
  add_source-Kept, change_source-Kept, delete_extract_source-Kept,
}
use churro.Ctl.Requests.Invariant.Rules.{add_rule-Kept, change_rule-Kept, delete_extract_rule-Kept}
use churro.Ctl.Requests.Invariant.Functions.{
  add_function-Kept, change_function-Kept, delete_transform_function-Kept,
}
use churro.Ctl.Requests.Invariant.Extensions.{
  add_extension-Kept, change_extension-Kept, delete_extension-Kept,
}
use churro.Ctl.Requests.Invariant.Reads.{
  get_extract_rules-Reading, get_extract_rule-Reading, get_transform_functions-Reading,
  get_transform_function-Reading, get_extensions-Reading, get_extension-Reading,
  get_extract_source-Reading, get_extract_sources-Reading,
}

module _ (o : Outside) (distinct : DrawsDistinct o.api) where
  abbrev Keeping : {A : Type 0} → Action Cluster A → Type 0
  Keeping m = Ensures (Kept o.api) m (λ _. Kept o.api) (Kept o.api)

  quietly : {A : Type 0} (m : Action Cluster A) → Keeping m → Keeping (done m)
  quietly m h = Ensures-bind h λ _. Ensures-give tt (λ s w. w)

  handle-Keeping : (r : Request) → Keeping (handle o r)
  unfolding handle create_extract_source update_extract_source create_extract_rule
      update_extract_rule create_transform_function update_transform_function make_extension
      edit_extension
  handle-Keeping (create_source text) = quietly _ (
      Ensures-bind {Q = λ _. Kept o.api} (Ensures-of_result _ (λ s w. w) (λ _ _ s w. w))
        (add_source-Kept o.api distinct))
  handle-Keeping (update_source text) =
      Ensures-bind {Q = λ _. Kept o.api} (Ensures-of_result _ (λ s w. w) (λ _ _ s w. w))
        (change_source-Kept o.api)
  handle-Keeping (get_source id) =
      quietly _ (get_extract_source-Reading o.api (Kept-Stable o.api) o.source id)
  handle-Keeping (delete_source namespace id) = delete_extract_source-Kept o.api namespace id
  handle-Keeping (create_rule text) = quietly _ (
      Ensures-bind {Q = λ _. Kept o.api} (Ensures-of_result _ (λ s w. w) (λ _ _ s w. w))
        (add_rule-Kept o.api distinct o.parsers))
  handle-Keeping (update_rule text) =
      Ensures-bind {Q = λ _. Kept o.api} (Ensures-of_result _ (λ s w. w) (λ _ _ s w. w))
        (change_rule-Kept o.api o.parsers)
  handle-Keeping (delete_rule id) = delete_extract_rule-Kept o.api id
  handle-Keeping (get_rule id) =
      quietly _ (get_extract_rule-Reading o.api (Kept-Stable o.api) o.rule id)
  handle-Keeping (create_function text) = quietly _ (
      Ensures-bind {Q = λ _. Kept o.api} (Ensures-of_result _ (λ s w. w) (λ _ _ s w. w))
        (add_function-Kept o.api distinct))
  handle-Keeping (update_function text) =
      Ensures-bind {Q = λ _. Kept o.api} (Ensures-of_result _ (λ s w. w) (λ _ _ s w. w))
        (change_function-Kept o.api)
  handle-Keeping (delete_function id) = delete_transform_function-Kept o.api id
  handle-Keeping (get_function id) =
      quietly _ (get_transform_function-Reading o.api (Kept-Stable o.api) o.function id)
  handle-Keeping (create_extension text) = quietly _ (
      Ensures-bind {Q = λ _. Kept o.api} (Ensures-of_result _ (λ s w. w) (λ _ _ s w. w))
        (add_extension-Kept o.api))
  handle-Keeping (update_extension text) =
      Ensures-bind {Q = λ _. Kept o.api} (Ensures-of_result _ (λ s w. w) (λ _ _ s w. w))
        (change_extension-Kept o.api)
  handle-Keeping (delete_extension id) = delete_extension-Kept o.api id
  handle-Keeping (get_extension id) =
      quietly _ (get_extension-Reading o.api (Kept-Stable o.api) o.extension id)
  handle-Keeping get_sources =
      quietly _ (get_extract_sources-Reading o.api (Kept-Stable o.api) o.sources)
  handle-Keeping get_rules = quietly _ (get_extract_rules-Reading o.api (Kept-Stable o.api) o.rules)
  handle-Keeping get_functions =
      quietly _ (get_transform_functions-Reading o.api (Kept-Stable o.api) o.functions)
  handle-Keeping get_extensions =
      quietly _ (get_extensions-Reading o.api (Kept-Stable o.api) o.extensions)

-- If no ID is drawn twice, any requests, whatever outside calls fail, leave a document of the form:
-- no ID of an extract source, a rule or a function occurs twice, no two extract sources have one
-- path, and no ID that is still to be drawn is in use.
pub serve-IsWellFormed :
    (o : Outside) (requests : List Request) (s : Cluster)
    → DrawsDistinct o.api
    → IsWellFormed o.api s.calls s.pipeline
    → IsWellFormed o.api (serve o requests s).calls (serve o requests s).pipeline
unfolding serve
serve-IsWellFormed o [] s distinct w = w
serve-IsWellFormed o (r ∷ requests) s distinct w =
    serve-IsWellFormed o requests (handle o r s).1 distinct
      (Ensures-always (handle o r) (handle-Keeping o distinct r) s w)
