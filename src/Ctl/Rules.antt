-- ===== src/Ctl/Rules.antt =====
-- internal/ctl/extractrule.go: the requests for extract rules.
pub mod Specs
pub mod Roundtrip
use churro.Common.{
  Bool, String, List, [], ◌∷◌, ◌++◌, map, is_nil, Option, none, some, ◌==◌, if◌then◌else◌,
}
use churro.Common.Int.{is_negative}
use churro.Common.Text.{atoi}
use churro.Common.Action.{
  Action, give, panic, of_result, refuse, refuse_with, refuse_all, ◌>>=◌, ◌>>◌,
}
use churro.Domain.{ExtractRule}
use churro.Domain.Scheme
use churro.Cluster.{
  Api, Cluster, Codec, ExtractRuleDefinition, ExtractSourceDefinition, fresh, fetch, update,
}
use churro.Ctl.Removal.{delete_entry, find}
use churro.Ctl.Rewriting.{rewrite_all}

-- The error, if any, of the parsers of paths (`xmlpath.Compile`, `jp.ParseString`), and the text of
-- an error of `strconv.Atoi`.
pub record PathParsers : Type 0 where
  pub xmlpath_compile : String → Option String
  pub jsonpath_parse : String → Option String
  pub atoi_error : String → String

unfoldable pub checks : ExtractRule → List (Bool × String)
checks rule =
    (rule.extract_source_id == "", "extract rule extract source ID is required")
    ∷ (rule.column_name == "", "extract rule column name is required")
    ∷ (rule.column_path == "", "extract rule source is required")
    ∷ (rule.column_type == "", "extract rule type is required")
    ∷ []

-- The scheme after the search loop: that of the last source of the ID, or the empty text.
abbrev pub scheme_of : String → List ExtractSourceDefinition → String → String
scheme_of id [] scheme = scheme
scheme_of id (x ∷ xs) scheme = scheme_of id xs (if id == x.id then x.scheme else scheme)

-- The error of `validateRulePath`, if any.
unfoldable pub validate_rule_path : PathParsers → String → String → Option String
validate_rule_path parsers path scheme =
    if scheme == Scheme.xml
    then parsers.xmlpath_compile path
    else if scheme == Scheme.csv
    then elim (atoi path) [
      | none ↦ some (parsers.atoi_error path)
      | some v ↦ if is_negative v then some "CSV path can not be a negative number" else none
    ]
    else if scheme == Scheme.jsonpath
    then parsers.jsonpath_parse path
    else none

abbrev pub rule_definition : String → ExtractRule → ExtractRuleDefinition
rule_definition id r = record {
  id = id;
  extractsourceid = r.extract_source_id;
  column_name = r.column_name;
  column_path = r.column_path;
  column_type = r.column_type;
  match_values = r.match_values;
  transform_function_name = r.transform_function;
}

-- What `UpdateExtractRule` writes over an entry: the column's type stays as it was.
abbrev pub edit_rule : ExtractRule → ExtractRuleDefinition → ExtractRuleDefinition
edit_rule r x = record x {
  column_name = r.column_name;
  column_path = r.column_path;
  match_values = r.match_values;
  transform_function_name = r.transform_function;
}

abbrev pub rule_of : ExtractRuleDefinition → ExtractRule
rule_of x = record {
  id = x.id;
  extract_source_id = x.extractsourceid;
  column_name = x.column_name;
  column_path = x.column_path;
  column_type = x.column_type;
  match_values = x.match_values;
  transform_function = x.transform_function_name;
}

module _ (api : Api) where
  module _ (parsers : PathParsers) where
    -- `CreateExtractRule` behind the decoding of the request
    unfoldable pub add_rule : ExtractRule → Action Cluster String
    add_rule rule = do
      refuse_all (checks rule)
      p ← fetch api
      refuse_with (
          validate_rule_path parsers rule.column_path
            (scheme_of rule.extract_source_id p.extractsources ""))
      id ← fresh api
      update api (record p { extractrules = p.extractrules ++ (rule_definition id rule ∷ []) })
      give id

    unfoldable pub create_extract_rule : Codec ExtractRule → String → Action Cluster String
    create_extract_rule codec request = do rule ← of_result (codec.decode request); add_rule rule

    -- `UpdateExtractRule` behind the decoding of the request
    unfoldable pub change_rule : ExtractRule → Action Cluster (Unit {0})
    change_rule rule = do
      p ← fetch api
      refuse_with (
          validate_rule_path parsers rule.column_path
            (scheme_of rule.extract_source_id p.extractsources ""))
      refuse (is_nil p.extractrules) "no extract rules exist"
      rewrite_all (λ x. x.id) rule.id (edit_rule rule)
          (λ l. update api (record p { extractrules = l })) p.extractrules

    unfoldable pub update_extract_rule : Codec ExtractRule → String → Action Cluster (Unit {0})
    update_extract_rule codec request = do rule ← of_result (codec.decode request); change_rule rule

  unfoldable pub delete_extract_rule : String → Action Cluster (Unit {0})
  delete_extract_rule id = do
    p ← fetch api
    refuse (is_nil p.extractrules) "no extract rules exist"
    update api (record p { extractrules = (delete_entry (λ x. x.id) id p.extractrules).0 })

  -- The answer to a rule that is found, and the nil dereference behind the loop.
  unfoldable pub answer_rule :
      Codec ExtractRule → Option ExtractRuleDefinition → Action Cluster String
  answer_rule codec none = panic
  answer_rule codec (some x) = of_result (codec.encode (rule_of x))

  unfoldable pub get_extract_rule : Codec ExtractRule → String → Action Cluster String
  unfolding answer_rule
  get_extract_rule codec id = do
    p ← fetch api
    answer_rule codec (find (λ x. x.id) id p.extractrules)

  unfoldable pub get_extract_rules : Codec (List ExtractRule) → Action Cluster String
  get_extract_rules codec = do p ← fetch api; of_result (codec.encode (map rule_of p.extractrules))
