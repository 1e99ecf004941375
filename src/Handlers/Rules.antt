-- ===== src/Handlers/Rules.antt =====
-- internal/handlers/extractrule.go: the pages of extract rules. They read the form, and send the rule to
-- the control service of the pipeline. The client of that service, the connection to it, the name of
-- the pipeline of an ID and the templates are parameters; logs and times are left out.
pub mod Keeping
pub mod Update
use churro.Common.{
  Bool, false, String, List, [], ◌∷◌, ◌++◌, map, Option, none, some, ◌==◌, if◌then◌else◌, ◌<>◌,
}
use churro.Common.Action.{Result, ok, err, Action, give, panic, of_result, rescue, ◌>>=◌, ◌>>◌}
use churro.Domain.{ExtractRule, ExtractSource, TransformFunction}
use churro.Cluster.{Codec}
use churro.Ctl.Functions.{encode_or_empty}
use churro.Handlers.{Request, var}
use churro.Handlers.Pages.{
  Reply, page, body, json_error, redirect, Wrapper, copy, or_else, say, field,
}

-- `ExtractRuleForm`, with the functions and whether each is selected
pub record RuleForm : Type 0 where
  pub user_email : String
  pub error_text : String
  pub pipeline_id : String
  pub pipeline_name : String
  pub extract_source_id : String
  pub extract_source_name : String
  pub extract_rule_id : String
  pub column_name : String
  pub column_path : String
  pub column_type : String
  pub match_values : String
  pub initialized : Bool
  pub functions : List (String × String)

-- The calls of the control service that these pages make, over its states
pub record Client (C : Type 0) : Type 0 where
  pub create_extract_rule : String → Action C String
  pub update_extract_rule : String → Action C (Unit {0})
  pub delete_extract_rule : String → Action C (Unit {0})
  pub get_extract_rule : String → Action C String
  pub get_extract_source : String → Action C String
  pub get_transform_functions : Action C String

-- `getPipelineCR`, `GetServiceConnection`, the templates, and the codecs of JSON
pub record RuleWeb (C : Type 0) : Type 0 where
  pub pipeline_name : String → Result String
  pub connect : String → Result (Client C)
  pub template : String → Result (Unit {0})
  pub rule_codec : Codec ExtractRule
  pub source_codec : Codec ExtractSource
  pub functions_codec : Codec (List TransformFunction)
  pub new_id : String

-- Each function with whether it is the one of the rule
abbrev pub marked : String → List TransformFunction → List (String × String)
marked name functions = map (λ f. (f.name, (if name == f.name then "selected" else ""))) functions

abbrev pub unmarked : List TransformFunction → List (String × String)
unmarked functions = map (λ f. (f.name, "")) functions

module _ {C : Type 0} (service : RuleWeb C) where
  abbrev pub RulePage : Type 0
  RulePage = Action C (Reply RuleForm)

  -- `getTransformFunctions`
  unfoldable pub list_functions : String → Action C (List TransformFunction)
  list_functions name = do
    client ← of_result (service.connect name)
    text ← client.get_transform_functions
    of_result (service.functions_codec.decode text)

  unfoldable pub show_create_extract_rule : Wrapper → Request → RulePage
  show_create_extract_rule u r =
      or_else (of_result (service.pipeline_name (var "id" r))) say (λ name.
        or_else (list_functions name) say (λ functions.
          or_else (of_result (service.connect name)) say (λ client.
            or_else (client.get_extract_source (var "extractsourceid" r)) say (λ text.
              or_else (of_result (service.source_codec.decode text)) say (λ source.
                or_else (of_result (service.template "pages/extract-rules-create.html")) say (λ _.
                  give (
                    page "pages/extract-rules-create.html" (record {
                      user_email = u.user_email;
                      error_text = u.error_text;
                      pipeline_id = var "id" r;
                      pipeline_name = name;
                      extract_source_id = var "extractsourceid" r;
                      extract_source_name = source.name;
                      extract_rule_id = "";
                      column_name = "";
                      column_path = "";
                      column_type = "";
                      match_values = "";
                      initialized = false;
                      functions = ("None", "") ∷ unmarked functions;
                    }))))))))

  -- The page for making a rule, with an error
  unfoldable pub show_error : Wrapper → Request → String → RulePage
  show_error u r e = show_create_extract_rule (copy u e) r

  unfoldable pub extract_rule : Wrapper → Request → RulePage
  extract_rule u r = or_else (of_result (service.pipeline_name (var "id" r))) say (λ name.
      or_else (of_result (service.connect name)) (show_error u r) (λ client.
        or_else (client.get_extract_source (var "extractsourceid" r)) (show_error u r) (λ text.
          or_else (of_result (service.source_codec.decode text)) (show_error u r) (λ source.
            or_else (client.get_extract_rule (var "rid" r)) (show_error u r) (λ answer.
              or_else (of_result (service.rule_codec.decode answer)) (show_error u r) (λ rule.
                or_else (list_functions name) (show_error u r) (λ functions.
                  or_else (of_result (service.template "pages/extract-rule.html")) (show_error u r)
                    (λ _. give (
                      page "pages/extract-rule.html" (record {
                        user_email = u.user_email;
                        error_text = u.error_text;
                        pipeline_id = var "id" r;
                        pipeline_name = name;
                        extract_source_id = var "extractsourceid" r;
                        extract_source_name = source.name;
                        extract_rule_id = var "rid" r;
                        column_name = rule.column_name;
                        column_path = rule.column_path;
                        column_type = rule.column_type;
                        match_values = rule.match_values;
                        initialized = source.initialized;
                        functions =
                            marked rule.transform_function
                              (functions ++ (record { id = ""; name = ""; source = "" } ∷ []));
                      }))))))))))

  -- The rule of the form behind the connection: the text of the function is not set.
  unfoldable pub send_update : Wrapper → Request → Client C → RulePage
  send_update u r client = do
    column_name ← field "columnname" r
    column_path ← field "columnpath" r
    column_type ← field "columntype" r
    match_values ← field "matchvalues" r
    or_else
        (client.update_extract_rule (
          encode_or_empty service.rule_codec (record {
            id = var "rid" r;
            extract_source_id = var "extractsourceid" r;
            column_name = column_name;
            column_path = column_path;
            column_type = column_type;
            match_values = match_values;
            transform_function = "";
          })))
        (λ e. extract_rule (copy u e) r) (λ _. give (redirect ("/pipelines/" <> var "id" r)))

  unfoldable pub update_extract_rule : Wrapper → Request → RulePage
  update_extract_rule u r =
      if var "id" r == ""
      then show_error u r "invalid pipeline id"
      else if var "extractsourceid" r == ""
      then show_error u r "invalid extract source id"
      else if var "rid" r == ""
      then show_error u r "invalid rule id"
      else or_else (of_result (service.pipeline_name (var "id" r))) say
          (λ name. or_else (of_result (service.connect name)) (show_error u r) (send_update u r))

  -- The answer in JSON to an error of the deletion
  abbrev pub refuse_delete : String → RulePage
  refuse_delete e = give (json_error ("error DeleteExtractRule " <> e))

  unfoldable pub delete_extract_rule : Request → RulePage
  delete_extract_rule r = or_else (of_result (service.pipeline_name (var "id" r))) say (λ name.
      or_else (of_result (service.connect name)) refuse_delete (λ client.
        or_else (client.delete_extract_rule (var "rid" r)) refuse_delete (λ _. give (
          redirect
            (("/pipelines/" <> var "id" r) <> ("/extractsources/" <> var "extractsourceid" r))))))

  -- The service is that of the name in the form.
  unfoldable pub create_extract_rule : Wrapper → Request → RulePage
  create_extract_rule u r = do
    column_name ← field "columnname" r
    column_path ← field "columnpath" r
    column_type ← field "columntype" r
    match_values ← field "matchvalues" r
    transform_function ← field "transformfunctionname" r
    name ← field "pipelinename" r
    if column_name == ""
        then show_error u r "column name is blank"
        else if column_path == ""
        then show_error u r "rule source is blank"
        else or_else (of_result (service.pipeline_name (var "id" r))) say (λ _.
          or_else (of_result (service.connect name)) (show_error u r) (λ client.
            or_else
              (client.create_extract_rule (
                encode_or_empty service.rule_codec (record {
                  id = service.new_id;
                  extract_source_id = var "extractsourceid" r;
                  column_name = column_name;
                  column_path = column_path;
                  column_type = column_type;
                  match_values = match_values;
                  transform_function = transform_function;
                })))
              (show_error u r)
              (λ _. give (
                redirect (
                  ("/pipelines/" <> var "id" r)
                  <> (("/extractsources/" <> var "extractsourceid" r)
                      <> ("?pipelinename=" <> name)))))))
