-- ===== src/Ctl/Functions.antt =====
-- internal/ctl/transform.go: the requests for transform functions.
pub mod Specs
use churro.Common.{Bool, String, List, [], ◌∷◌, ◌++◌, map, is_nil, ◌==◌}
use churro.Common.Action.{ok, err, Action, give, of_result, refuse, refuse_all, ◌>>=◌, ◌>>◌}
use churro.Common.{if◌then◌else◌}
use churro.Domain.{TransformFunction}
use churro.Cluster.{
  Api, Cluster, Codec, FunctionDefinition, attempt, fresh, fetch, update, new_database,
  connect_database,
}
use churro.Ctl.Removal.{delete_entry}
use churro.Ctl.Rewriting.{rewrite_all}

unfoldable pub checks : TransformFunction → List (Bool × String)
checks f =
    (f.name == "", "transform name is required")
    ∷ (f.source == "", "transform source is required")
    ∷ []

abbrev pub function_definition : String → TransformFunction → FunctionDefinition
function_definition id f = record { id = id; name = f.name; source = f.source }

abbrev pub edit_function : TransformFunction → FunctionDefinition → FunctionDefinition
edit_function f x = record x { name = f.name; source = f.source }

abbrev pub function_of : FunctionDefinition → TransformFunction
function_of x = record { id = x.id; name = x.name; source = x.source }

-- `tf` after the search loop: the last function of the ID, or the zero value.
abbrev pub function_found : String → List FunctionDefinition → TransformFunction → TransformFunction
function_found id [] tf = tf
function_found id (x ∷ xs) tf = function_found id xs (if x.id == id then function_of x else tf)

-- `b, _ := json.Marshal(v)`: no text on an error.
abbrev pub encode_or_empty : {A : Type 0} → Codec A → A → String
encode_or_empty codec a = elim (codec.encode a) [ ok t ↦ t | err e ↦ "" ]

module _ (api : Api) where
  -- `CreateTransformFunction` behind the decoding of the request
  unfoldable pub add_function : TransformFunction → Action Cluster String
  add_function f = do
    refuse_all (checks f)
    attempt api new_database
    attempt api connect_database
    id ← fresh api
    p ← fetch api
    update api (record p { functions = p.functions ++ (function_definition id f ∷ []) })
    give id

  unfoldable pub create_transform_function :
      Codec TransformFunction → String → Action Cluster String
  create_transform_function codec request = do f ← of_result (codec.decode request); add_function f

  -- `UpdateTransformFunction` behind the decoding of the request
  unfoldable pub change_function : TransformFunction → Action Cluster (Unit {0})
  change_function f = do
    p ← fetch api
    refuse (is_nil p.functions) "no transform functions exist"
    rewrite_all (λ x. x.id) f.id (edit_function f) (λ l. update api (record p { functions = l }))
        p.functions

  unfoldable pub update_transform_function :
      Codec TransformFunction → String → Action Cluster (Unit {0})
  update_transform_function codec request = do
    f ← of_result (codec.decode request)
    change_function f

  unfoldable pub delete_transform_function : String → Action Cluster (Unit {0})
  delete_transform_function id = do
    p ← fetch api
    refuse (is_nil p.functions) "no transform functions exist"
    update api (record p { functions = (delete_entry (λ x. x.id) id p.functions).0 })

  unfoldable pub get_transform_functions : Codec (List TransformFunction) → Action Cluster String
  get_transform_functions codec = do
    p ← fetch api
    give (encode_or_empty codec (map function_of p.functions))

  unfoldable pub get_transform_function : Codec TransformFunction → String → Action Cluster String
  get_transform_function codec id = do
    p ← fetch api
    refuse (is_nil p.functions) "no transform functions exist"
    give (
        encode_or_empty codec
          (function_found id p.functions (record { id = ""; name = ""; source = "" })))
