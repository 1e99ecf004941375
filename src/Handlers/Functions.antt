-- ===== src/Handlers/Functions.antt =====
-- internal/handlers/transformfunction.go: the pages of transform functions. The client of the control
-- service, the connection to it, the name of the pipeline of an ID, the templates and the interpreter
-- of Go are parameters, as is the admin database of the authorization; `detail` stands for the page of
-- the pipeline (pipelinedetail.go, Handlers/Pipelines). Logs and times are left out.
pub mod Guard
use churro.Common.{Bool, String, ◌==◌, not, if◌then◌else◌, ◌<>◌}
use churro.Common.Action.{Result, Action, give, of_result, ◌>>=◌}
use churro.Domain.{TransformFunction}
use churro.Cluster.{Codec}
use churro.Authorization.{Database, authorized, action_write}
use churro.Ctl.Functions.{encode_or_empty}
use churro.Handlers.{Request, var}
use churro.Handlers.Pages.{Reply, page, body, redirect, Wrapper, copy, or_else, say, field}

-- `FunctionForm`, and `TransformFunctionForm` with a function of empty texts
pub record FunctionForm : Type 0 where
  pub error_text : String
  pub user_email : String
  pub pipeline_id : String
  pub pipeline_name : String
  pub function : TransformFunction

-- The calls of the control service that these pages make, over its states
pub record FunctionClient (C : Type 0) : Type 0 where
  pub create_transform_function : String → Action C String
  pub update_transform_function : String → Action C (Unit {0})
  pub delete_transform_function : String → Action C (Unit {0})
  pub get_transform_function : String → Action C String

pub record FunctionWeb (C : Type 0) : Type 0 where
  pub database : Database
  pub pipeline_name : String → Result String
  pub connect : String → Result (FunctionClient C)
  pub template : String → Result (Unit {0})
  pub function_codec : Codec TransformFunction
  pub eval : String → Result (Unit {0})
  pub new_id : String
  pub detail : Wrapper → Request → Action C (Reply FunctionForm)

abbrev no_function : TransformFunction
no_function = record { id = ""; name = ""; source = "" }

module _ {C : Type 0} (web : FunctionWeb C) where
  abbrev pub FunctionPage : Type 0
  FunctionPage = Action C (Reply FunctionForm)

  -- `Authorized` for writing a pipeline
  abbrev pub may_write : Wrapper → String → Bool
  may_write u pipeline_id =
      authorized web.database
        (record {
          subject = u.user_email;
          pipeline_id = pipeline_id;
          object = "pipeline";
          action = action_write;
        })
        u.database_type

  unfoldable pub show_create_transform_function : Wrapper → Request → FunctionPage
  show_create_transform_function u r =
      or_else (of_result (web.pipeline_name (var "id" r))) say (λ name.
        or_else (of_result (web.template "pages/transform-function-create.html")) say (λ _. give (
          page "pages/transform-function-create.html" (record {
            error_text = u.error_text;
            user_email = u.user_email;
            pipeline_id = var "id" r;
            pipeline_name = name;
            function = no_function;
          }))))

  abbrev pub show_error : Wrapper → Request → String → FunctionPage
  show_error u r e = show_create_transform_function (copy u e) r

  unfoldable pub transform_function : Wrapper → Request → FunctionPage
  transform_function u r = or_else (of_result (web.pipeline_name (var "id" r))) say (λ name.
      or_else (of_result (web.connect name)) (λ e. web.detail (copy u e) r)
        (λ client.
          or_else (client.get_transform_function (var "tfid" r)) (λ e. web.detail (copy u e) r)
            (λ text.
              or_else (of_result (web.function_codec.decode text)) (λ e. web.detail (copy u e) r)
                (λ f.
                  or_else (of_result (web.template "pages/transform-function.html"))
                    (λ e. web.detail (copy u e) r)
                    (λ _. give (
                      page "pages/transform-function.html" (record {
                        error_text = u.error_text;
                        user_email = u.user_email;
                        pipeline_id = var "id" r;
                        pipeline_name = name;
                        function = f;
                      })))))))

  abbrev pub function_error : Wrapper → Request → String → FunctionPage
  function_error u r e = transform_function (copy u e) r

  -- The redirection behind a change
  abbrev to_functions : String → FunctionPage
  to_functions id = give (redirect (("/pipelines/" <> id) <> "#nav-transform-functions"))

  -- The service is that of the name in the form, the authorization is for the ID in the form.
  unfoldable pub create_transform_function : Wrapper → Request → FunctionPage
  create_transform_function u r = do
    id ← field "pipelineid" r
    pipeline ← field "pipelinename" r
    name ← field "transformname" r
    source ← field "transformsource" r
    if not (may_write u id)
        then show_error u r "user not authorized to create transform function"
        else if name == ""
        then show_error u r "transform name is blank"
        else if source == ""
        then show_error u r "transform source is blank"
        else or_else (of_result (web.eval source)) (show_error u r) (λ _.
          or_else (of_result (web.connect pipeline)) (show_error u r) (λ client.
            or_else
              (client.create_transform_function (
                encode_or_empty web.function_codec
                  (record { id = web.new_id; name = name; source = source })))
              (show_error u r) (λ _. to_functions id)))

  -- `UpdateTransformFunction` behind the interpreter
  unfoldable pub change_checked :
      Wrapper → Request → String → String → String → String → FunctionPage
  change_checked u r id pipeline name source = do
    function_id ← field "functionid" r
    if not (may_write u id)
        then function_error u r "user not authorized to update this transform function"
        else or_else (of_result (web.connect pipeline)) (function_error u r) (λ client.
          or_else
            (client.update_transform_function (
              encode_or_empty web.function_codec
                (record { id = function_id; name = name; source = source })))
            (function_error u r) (λ _. to_functions id))

  -- `UpdateTransformFunction` behind the reading of the source
  unfoldable pub change_named : Wrapper → Request → String → String → String → FunctionPage
  change_named u r id pipeline name = do
    source ← field "transformsource" r
    if source == ""
        then function_error u r "transform Source can not be blank"
        else or_else (of_result (web.eval source)) (function_error u r)
            (λ _. change_checked u r id pipeline name source)

  unfoldable pub update_transform_function : Wrapper → Request → FunctionPage
  update_transform_function u r = do
    name ← field "transformname" r
    id ← field "pipelineid" r
    pipeline ← field "pipelinename" r
    if name == ""
        then function_error u r "transform name can not be blank"
        else change_named u r id pipeline name

  unfoldable pub delete_transform_function : Wrapper → Request → FunctionPage
  delete_transform_function u r =
      if not (may_write u (var "id" r))
      then function_error u r "user not authorized to delete this transform function"
      else or_else (of_result (web.pipeline_name (var "id" r))) say (λ name.
        or_else (of_result (web.connect name)) (function_error u r) (λ client.
          or_else (client.delete_transform_function (var "tfid" r)) (function_error u r)
            (λ _. to_functions (var "id" r))))
