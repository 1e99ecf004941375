-- ===== src/Ctl/Requests.antt =====
-- The requests of the control service that are modelled, and a run of the service over them.
pub mod Invariant
pub mod Run
use churro.Common.{String, List, [], ◌∷◌}
use churro.Common.Action.{Action, give, ◌>>=◌, ◌>>◌}
use churro.Domain.{ExtractSource, ExtractRule, TransformFunction, Extension}
use churro.Cluster.{Api, Cluster, Codec}
use churro.Ctl.Sources.{create_extract_source, delete_extract_source, update_extract_source}
use churro.Ctl.Sources.Reads.{get_extract_source, get_extract_sources}
use churro.Ctl.Rules.{
  PathParsers, create_extract_rule, delete_extract_rule, update_extract_rule, get_extract_rule,
  get_extract_rules,
}
use churro.Ctl.Functions.{
  create_transform_function, update_transform_function, delete_transform_function,
  get_transform_function, get_transform_functions,
}
use churro.Ctl.Extensions.{
  create_extension as make_extension, delete_extension as drop_extension,
  update_extension as edit_extension, get_extension as find_extension,
  get_extensions as list_extensions,
}

-- The code outside the repository that the service calls.
pub record Outside : Type 0 where
  pub api : Api
  pub parsers : PathParsers
  pub source : Codec ExtractSource
  pub sources : Codec (List ExtractSource)
  pub rule : Codec ExtractRule
  pub rules : Codec (List ExtractRule)
  pub function : Codec TransformFunction
  pub functions : Codec (List TransformFunction)
  pub extension : Codec Extension
  pub extensions : Codec (List Extension)

pub data Request : Type 0 where
  create_source update_source get_source : String → Request
  delete_source : String → String → Request
  create_rule update_rule delete_rule get_rule : String → Request
  create_function update_function delete_function get_function : String → Request
  create_extension update_extension delete_extension get_extension : String → Request
  get_sources get_rules get_functions get_extensions : Request

-- The answer's content does not matter here.
abbrev pub done : {A : Type 0} → Action Cluster A → Action Cluster (Unit {0})
done m = m >>= λ _. give tt

module _ (o : Outside) where
  unfoldable pub handle : Request → Action Cluster (Unit {0})
  handle (create_source text) = done (create_extract_source o.api o.source text)
  handle (update_source text) = update_extract_source o.api o.source text
  handle (get_source id) = done (get_extract_source o.api o.source id)
  handle (delete_source namespace id) = delete_extract_source o.api namespace id
  handle (create_rule text) = done (create_extract_rule o.api o.parsers o.rule text)
  handle (update_rule text) = update_extract_rule o.api o.parsers o.rule text
  handle (delete_rule id) = delete_extract_rule o.api id
  handle (get_rule id) = done (get_extract_rule o.api o.rule id)
  handle (create_function text) = done (create_transform_function o.api o.function text)
  handle (update_function text) = update_transform_function o.api o.function text
  handle (delete_function id) = delete_transform_function o.api id
  handle (get_function id) = done (get_transform_function o.api o.function id)
  handle (create_extension text) = done (make_extension o.api o.extension text)
  handle (update_extension text) = edit_extension o.api o.extension text
  handle (delete_extension id) = drop_extension o.api id
  handle (get_extension id) = done (find_extension o.api o.extension id)
  handle get_sources = done (get_extract_sources o.api o.sources)
  handle get_rules = done (get_extract_rules o.api o.rules)
  handle get_functions = done (get_transform_functions o.api o.functions)
  handle get_extensions = done (list_extensions o.api o.extensions)

  -- An error ends the request; a panic ends the process, and the next one finds the same cluster.
  unfoldable pub serve : List Request → Cluster → Cluster
  serve [] s = s
  serve (r ∷ l) s = serve l (handle r s).1
