-- ===== src/Tests/Pages.antt =====
-- The pages of rules and functions over the control service of the sample.
use mathlib.Core.Path.{subst}
use churro.Common.{String, [], ◌∷◌, ◌≡◌, refl, false, Option, none, some}
use churro.Common.Action.{Result, ok, err, give, panic, of_result}
use churro.Domain.{ExtractRule}
use churro.Cluster.{Cluster, Codec, ExtractRuleDefinition}
use churro.Ctl.Rules
use churro.Ctl.Rules.{answer_rule}
use churro.Ctl.Sources.Reads.{zero_source}
use churro.Handlers.{Request, var_or_empty}
use churro.Handlers.Pages.{Wrapper, body}
use churro.Handlers.Rules.{Client, RuleWeb, update_extract_rule}
use churro.Handlers.Rules.Keeping.{Reading as RuleReading}
use churro.Handlers.Rules.Update.{Resets, rule_of_form, update_extract_rule-Resets}
use churro.Authorization.{Database, get_auth_map, has_flag, authorized}
use churro.Cluster.Document.{Ensures-fetch-then}
use churro.Common.Ensures.{Ensures-give, Ensures-refuse-then}
use churro.Common.Keeps.{Keeps, Keeps-give}
use churro.Ctl.Functions
use churro.Handlers.Functions.{
  FunctionClient, FunctionWeb, may_write, create_transform_function, update_transform_function,
  delete_transform_function,
}
use churro.Handlers.Functions.Guard.{Reading, change_functions-Denied}
use churro.Tests.Users.{mary}
use churro.Tests.Sample.{quiet, parsers, before, lower, sales}

-- The rule `r1` of the sample, with another column and path.
abbrev request : Request
request = record {
  uri = "/pipelines/p1/extractsources/s1/extractrules/r1";
  form =
      ("columnname", "town")
      ∷ ("columnpath", "1")
      ∷ ("columntype", "INT")
      ∷ ("matchvalues", "")
      ∷ ("transformfunctionname", "transforms.Upper")
      ∷ [];
  vars = ("id", "p1") ∷ ("extractsourceid", "s1") ∷ ("rid", "r1") ∷ [];
  cookie = err "http: named cookie not present";
}

abbrev form_rule : ExtractRule
form_rule = rule_of_form request "town" "1" "INT" ""

abbrev codec : {A : Type 0} → A → Codec A
codec a = record { decode = λ _. ok a; encode = λ _. ok "{}" }

abbrev client : Client Cluster
client = record {
  create_extract_rule = Rules.create_extract_rule quiet parsers (codec form_rule);
  update_extract_rule = Rules.update_extract_rule quiet parsers (codec form_rule);
  delete_extract_rule = Rules.delete_extract_rule quiet;
  get_extract_rule = Rules.get_extract_rule quiet (codec form_rule);
  get_extract_source = λ _. give "{}";
  get_transform_functions = give "[]";
}

abbrev service : RuleWeb Cluster
service = record {
  pipeline_name = λ _. ok "sales";
  connect = λ _. ok client;
  template = λ _. ok tt;
  rule_codec = codec form_rule;
  source_codec = codec zero_source;
  functions_codec = codec [];
  new_id = "r2";
}

abbrev wrapper : Wrapper
wrapper = record { user_email = "ann@churro"; error_text = ""; database_type = "mockdb" }

answered :
    (o : Option ExtractRuleDefinition)
    → Keeps (λ t. t.pipeline ≡ sales) (answer_rule quiet (codec form_rule) o)
unfolding answer_rule panic of_result
answered none = record { ensures = record { at = λ s h. h } }
answered (some x) = record { ensures = record { at = λ s h. h } }

get_rule-Keeps :
    (id : String)
    → Keeps (λ t. t.pipeline ≡ before.pipeline) (Rules.get_extract_rule quiet (codec form_rule) id)
unfolding Rules.get_extract_rule
get_rule-Keeps id = record {
  ensures = Ensures-fetch-then quiet sales _ (λ t h. h) (answered _).ensures;
}

abbrev rule_client_of : Result (Client Cluster) → Client Cluster
rule_client_of (ok c) = c
rule_client_of (err e) = client

rule_reading : RuleReading service (λ t. t.pipeline ≡ before.pipeline)
rule_reading = record {
  rule = λ name c e id.
      subst
        (λ x. Keeps (λ t. t.pipeline ≡ before.pipeline) ((rule_client_of x).get_extract_rule id)) e
        (get_rule-Keeps id);
  source = λ name c e id.
      subst
        (λ x. Keeps (λ t. t.pipeline ≡ before.pipeline) ((rule_client_of x).get_extract_source id))
        e (Keeps-give _);
  functions = λ name c e.
      subst
        (λ x. Keeps (λ t. t.pipeline ≡ before.pipeline) (rule_client_of x).get_transform_functions)
        e (Keeps-give _);
}

update_extract_rule-Resets_example :
    Resets service client "sales" quiet parsers wrapper request form_rule before
      (update_extract_rule service wrapper request before)
update_extract_rule-Resets_example =
    update_extract_rule-Resets service client "sales" quiet parsers wrapper request "town" "1" "INT"
      "" before (refl, refl, refl) (refl, refl, refl, refl, refl, refl, refl) refl (refl, tt)
      rule_reading

-- Mary reads the pipelines.
abbrev pub reader_db : Database
reader_db = record {
  new_database = λ _. ok tt;
  connection = ok tt;
  user_profile_by_email = λ _. ok mary;
  user_pipeline_access = λ _ _. ok "Read";
}

abbrev function_client : FunctionClient Cluster
function_client = record {
  create_transform_function = Functions.create_transform_function quiet (codec lower);
  update_transform_function = Functions.update_transform_function quiet (codec lower);
  delete_transform_function = Functions.delete_transform_function quiet;
  get_transform_function = Functions.get_transform_function quiet (codec lower);
}

abbrev function_web : FunctionWeb Cluster
function_web = record {
  database = reader_db;
  pipeline_name = λ _. ok "sales";
  connect = λ _. ok function_client;
  template = λ _. ok tt;
  function_codec = codec lower;
  eval = λ _. ok tt;
  new_id = "f2";
  detail = λ u r. give (body u.error_text);
}

abbrev function_request : Request
function_request = record {
  uri = "/pipelines/p1/transformfunctions/f1";
  form =
      ("transformname", "transforms.Lower")
      ∷ ("transformsource", "package transforms")
      ∷ ("pipelineid", "p1")
      ∷ ("pipelinename", "sales")
      ∷ ("functionid", "f1")
      ∷ [];
  vars = ("id", "p1") ∷ ("tfid", "f1") ∷ [];
  cookie = err "http: named cookie not present";
}

abbrev client_of : Result (FunctionClient Cluster) → FunctionClient Cluster
client_of (ok c) = c
client_of (err e) = function_client

get-Keeps :
    (id : String)
    → Keeps (λ t. t.pipeline ≡ sales) (Functions.get_transform_function quiet (codec lower) id)
unfolding Functions.get_transform_function
get-Keeps id = record {
  ensures =
      Ensures-fetch-then quiet sales _ (λ t h. h)
        (Ensures-refuse-then _ _ (λ t h. h) λ _. Ensures-give _ (λ t h. h));
}

reading : Reading function_web (λ t. t.pipeline ≡ sales)
reading = record {
  client = λ name c e id.
      subst (λ x. Keeps (λ t. t.pipeline ≡ sales) ((client_of x).get_transform_function id)) e
        (get-Keeps id);
  detail = λ u r. Keeps-give _;
}

abbrev pub mary_wrapper : Wrapper
mary_wrapper = record { user_email = "mary@churro"; error_text = ""; database_type = "mockdb" }

refused : may_write function_web mary_wrapper "p1" ≡ false
unfolding authorized get_auth_map has_flag
refused = refl

change_functions-Denied_example :
    ((create_transform_function function_web mary_wrapper function_request before).1.pipeline
      ≡ sales)
    × ((update_transform_function function_web mary_wrapper function_request before).1.pipeline
        ≡ sales)
    × ((delete_transform_function function_web mary_wrapper function_request before).1.pipeline
        ≡ sales)
change_functions-Denied_example =
    change_functions-Denied function_web (λ t. t.pipeline ≡ sales) reading mary_wrapper
      function_request
      (λ p h. subst (λ o. may_write function_web mary_wrapper (var_or_empty o) ≡ false) h refused)
      refused before refl
