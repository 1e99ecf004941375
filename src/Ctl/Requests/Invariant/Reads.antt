-- ===== src/Ctl/Requests/Invariant/Reads.antt =====
-- The requests that only read keep any property of the stored document.
use churro.Common.{String, List, Option, none, some}
use churro.Common.Action.{Action, fail}
use churro.Common.Ensures.{
  Ensures, Ensures-bind, Ensures-if, Ensures-give, Ensures-panic, Ensures-read, Ensures-refuse,
  Ensures-of_result, Ensures-rescue,
}
use churro.Domain.{ExtractSource, ExtractRule, TransformFunction, Extension}
use churro.Cluster.{
  Api, Cluster, Codec, ExtractRuleDefinition, ExtensionDefinition, kube_client, new_database,
  connect_database, query_database, query_metrics, fetch,
}
use churro.Cluster.Specs.{Stable, attempt-Ensures, fetch-Ensures, list_selected-Ensures}
use churro.Ctl.Sources.Reads.{
  is_running, get_extract_source_metrics, with_running, get_extract_source, get_extract_sources,
}
use churro.Ctl.Rules.{answer_rule, get_extract_rule, get_extract_rules}
use churro.Ctl.Functions.{get_transform_function, get_transform_functions}
use churro.Ctl.Extensions.{answer_extension, get_extension, get_extensions}

module _ (api : Api) {P : Cluster → Type 0} (keep : Stable P) where
  abbrev pub Reading : {A : Type 0} → Action Cluster A → Type 0
  Reading m = Ensures P m (λ _. P) P

  Reading-fetch : Reading (fetch api)
  Reading-fetch = fetch-Ensures api keep (λ s h. h) (λ s h. h)

  pub get_extract_rules-Reading :
      (codec : Codec (List ExtractRule)) → Reading (get_extract_rules api codec)
  unfolding get_extract_rules
  get_extract_rules-Reading codec =
      Ensures-bind Reading-fetch λ p. Ensures-of_result _ (λ s h. h) (λ _ _ s h. h)

  answer_rule-Reading :
      (codec : Codec ExtractRule) (x : Option ExtractRuleDefinition)
      → Reading (answer_rule api codec x)
  unfolding answer_rule
  answer_rule-Reading codec none = Ensures-panic (λ s h. h)
  answer_rule-Reading codec (some x) = Ensures-of_result _ (λ s h. h) (λ _ _ s h. h)

  pub get_extract_rule-Reading :
      (codec : Codec ExtractRule) (id : String) → Reading (get_extract_rule api codec id)
  unfolding get_extract_rule
  get_extract_rule-Reading codec id = Ensures-bind Reading-fetch λ p. answer_rule-Reading codec _

  pub get_transform_functions-Reading :
      (codec : Codec (List TransformFunction)) → Reading (get_transform_functions api codec)
  unfolding get_transform_functions
  get_transform_functions-Reading codec = Ensures-bind Reading-fetch λ p. Ensures-give _ (λ s h. h)

  pub get_transform_function-Reading :
      (codec : Codec TransformFunction) (id : String)
      → Reading (get_transform_function api codec id)
  unfolding get_transform_function
  get_transform_function-Reading codec id = Ensures-bind Reading-fetch λ p.
      Ensures-bind {Q = λ _. P} (Ensures-refuse _ _ (λ s h. h) (λ _ s h. h))
        λ _. Ensures-give _ (λ s h. h)

  pub get_extensions-Reading : (codec : Codec (List Extension)) → Reading (get_extensions api codec)
  unfolding get_extensions
  get_extensions-Reading codec =
      Ensures-bind Reading-fetch λ p. Ensures-of_result _ (λ s h. h) (λ _ _ s h. h)

  answer_extension-Reading :
      (codec : Codec Extension) (x : Option ExtensionDefinition)
      → Reading (answer_extension api codec x)
  unfolding answer_extension fail
  answer_extension-Reading codec none = record { at = λ s h. h }
  answer_extension-Reading codec (some x) = Ensures-of_result _ (λ s h. h) (λ _ _ s h. h)

  pub get_extension-Reading :
      (codec : Codec Extension) (id : String) → Reading (get_extension api codec id)
  unfolding get_extension
  get_extension-Reading codec id = Ensures-bind Reading-fetch λ p.
      Ensures-bind {Q = λ _. P} (Ensures-refuse _ _ (λ s h. h) (λ _ s h. h))
        λ _. answer_extension-Reading codec _

  is_running-Reading : (namespace name : String) → Reading (is_running api namespace name)
  unfolding is_running
  is_running-Reading namespace name =
      Ensures-bind (attempt-Ensures api kube_client keep (λ s h. h)) λ _.
        Ensures-bind (list_selected-Ensures api _ keep (λ s h. h)) λ pods. Ensures-give _ (λ s h. h)

  metrics-Reading : (id : String) → Reading (get_extract_source_metrics api id)
  unfolding get_extract_source_metrics query_metrics
  metrics-Reading id = Ensures-bind (attempt-Ensures api new_database keep (λ s h. h)) λ _.
      Ensures-bind (attempt-Ensures api connect_database keep (λ s h. h)) λ _.
        Ensures-bind (attempt-Ensures api query_database keep (λ s h. h))
          λ _. Ensures-read _ (λ s h. h)

  with_running-Reading :
      (namespace : String) (w : ExtractSource) → Reading (with_running api namespace w)
  unfolding with_running
  with_running-Reading namespace w =
      Ensures-if _ _ _
        (Ensures-bind (is_running-Reading namespace w.name) λ r. Ensures-give _ (λ s h. h))
        (Ensures-give w (λ s h. h))

  pub get_extract_source-Reading :
      (codec : Codec ExtractSource) (id : String) → Reading (get_extract_source api codec id)
  unfolding get_extract_source
  get_extract_source-Reading codec id = Ensures-bind Reading-fetch λ p.
      Ensures-bind (with_running-Reading p.name _) λ w.
        Ensures-bind {Q = λ _. P} (Ensures-of_result _ (λ s h. h) (λ _ _ s h. h)) λ text.
          Ensures-bind
            (Ensures-rescue (metrics-Reading id) (λ s h. h) (λ e. Ensures-give _ (λ s h. h))
              (λ a. Ensures-give _ (λ s h. h)))
            λ metrics. Ensures-give _ (λ s h. h)

  pub get_extract_sources-Reading :
      (codec : Codec (List ExtractSource)) → Reading (get_extract_sources api codec)
  unfolding get_extract_sources
  get_extract_sources-Reading codec =
      Ensures-bind Reading-fetch λ p. Ensures-of_result _ (λ s h. h) (λ _ _ s h. h)
