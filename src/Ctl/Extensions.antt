-- ===== src/Ctl/Extensions.antt =====
-- internal/ctl/extension.go: the requests for extensions. The ID of a new extension comes with the
-- request.
pub mod Specs
use churro.Common.{Bool, String, List, [], ◌∷◌, ◌++◌, map, is_nil, Option, none, some, ◌==◌}
use churro.Common.Action.{Action, give, fail, of_result, refuse, refuse_all, ◌>>=◌, ◌>>◌}
use churro.Domain.{Extension}
use churro.Cluster.{Api, Cluster, Codec, ExtensionDefinition, fetch, update}
use churro.Ctl.Removal.{delete_entry, find}
use churro.Ctl.Rewriting.{rewrite_all}

unfoldable pub checks : Extension → List (Bool × String)
checks x =
    (x.extract_source_id == "", "extension extract sourced ID is required")
    ∷ (x.extension_name == "", "extension name is required")
    ∷ (x.extension_path == "", "extension path is required")
    ∷ []

abbrev pub extension_definition : Extension → ExtensionDefinition
extension_definition x = record {
  id = x.id;
  extractsourceid = x.extract_source_id;
  extensionname = x.extension_name;
  extensionpath = x.extension_path;
}

abbrev pub edit_extension : Extension → ExtensionDefinition → ExtensionDefinition
edit_extension f x = record x { extensionname = f.extension_name; extensionpath = f.extension_path }

abbrev pub extension_of : ExtensionDefinition → Extension
extension_of x = record {
  id = x.id;
  extract_source_id = x.extractsourceid;
  extension_name = x.extensionname;
  extension_path = x.extensionpath;
}

module _ (api : Api) where
  -- `CreateExtension` behind the decoding of the request
  unfoldable pub add_extension : Extension → Action Cluster String
  add_extension x = do
    refuse_all (checks x)
    p ← fetch api
    update api (record p { extensions = p.extensions ++ (extension_definition x ∷ []) })
    give x.id

  unfoldable pub create_extension : Codec Extension → String → Action Cluster String
  create_extension codec request = do x ← of_result (codec.decode request); add_extension x

  unfoldable pub delete_extension : String → Action Cluster (Unit {0})
  delete_extension id = do
    p ← fetch api
    refuse (is_nil p.extensions) "no extensions exist"
    update api (record p { extensions = (delete_entry (λ x. x.id) id p.extensions).0 })

  -- `UpdateExtension` behind the decoding of the request
  unfoldable pub change_extension : Extension → Action Cluster (Unit {0})
  change_extension f = do
    p ← fetch api
    refuse (is_nil p.extensions) "no extensions exist"
    rewrite_all (λ x. x.id) f.id (edit_extension f) (λ l. update api (record p { extensions = l }))
        p.extensions

  unfoldable pub update_extension : Codec Extension → String → Action Cluster (Unit {0})
  update_extension codec request = do f ← of_result (codec.decode request); change_extension f

  unfoldable pub answer_extension :
      Codec Extension → Option ExtensionDefinition → Action Cluster String
  answer_extension codec none = fail "extension not found"
  answer_extension codec (some x) = of_result (codec.encode (extension_of x))

  unfoldable pub get_extension : Codec Extension → String → Action Cluster String
  unfolding answer_extension
  get_extension codec id = do
    p ← fetch api
    refuse (is_nil p.extensions) "no extensions exist"
    answer_extension codec (find (λ x. x.id) id p.extensions)

  unfoldable pub get_extensions : Codec (List Extension) → Action Cluster String
  get_extensions codec = do p ← fetch api; of_result (codec.encode (map extension_of p.extensions))
