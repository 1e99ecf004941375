-- ===== src/Operator/Claims.antt =====
-- internal/operator/pvc.go: the volume claim of a pipeline.
use churro.Common.{
  String, List, [], ◌∷◌, map, Option, none, some, Bool, ◌==◌, ◌||◌, if◌then◌else◌, contains, insert,
}
use churro.Common.Action.{Action, give, of_result, panic, rescue, ◌>>=◌}
use churro.Operator.{
  Api, World, Resource, Object, Pairs, Template, ClaimSpec, claim, list, attempt, connect,
  list_classes,
}
use churro.Operator.Ensure.{create_owned}

-- The first storage class that is annotated as the default.
abbrev pub first_default : List (String × Bool) → String
first_default [] = ""
first_default ((name, default) ∷ l) = let rest = first_default l in if default then name else rest

-- The modes for the text of the custom resource, if it is one that the code knows.
abbrev pub access_modes : String → Option (List String)
access_modes mode =
    if mode == "" || mode == "ReadWriteMany"
    then some ("ReadWriteMany" ∷ [])
    else if mode == "ReadWriteOnce"
    then some ("ReadWriteOnce" ∷ [])
    else none

-- A write into a nil map panics.
abbrev pub map_of : Option Pairs → Action World Pairs
map_of none = panic
map_of (some m) = give m

abbrev pub claim_object : Resource → Template ClaimSpec → String → Pairs → List String → Object
claim_object p t class requests modes = record {
  kind = "PersistentVolumeClaim";
  namespace = p.namespace;
  name = "churrodata";
  owner = t.owner;
  labels = ("app", "churro") ∷ ("pipeline", p.name) ∷ [];
  spec =
      claim (record { storage_class_name = class; requests = some requests; access_modes = modes });
}

module _ (api : Api) where
  abbrev pub default_of_list : Bool → Action World String
  default_of_list connected =
      if connected
      then rescue (attempt api list_classes) (λ e. give "")
          (λ _. give (first_default api.storage_classes))
      else give ""

  -- `getDefaultSC`
  unfoldable pub get_default_class : Action World String
  unfolding attempt connect
  get_default_class = do connected ← connect api; default_of_list connected

  unfoldable pub storage_class : Resource → Action World String
  unfolding get_default_class
  storage_class p =
      if p.storage_class_name == "" then get_default_class else give p.storage_class_name

  -- An access mode that the code does not know ends it without a claim and without an error.
  unfoldable pub create_in_modes :
      String → (List String → Object) → Option (List String) → Action World (Unit {0})
  unfolding create_owned
  create_in_modes owner make none = give tt
  create_in_modes owner make (some modes) = create_owned api owner (make modes)

  unfoldable pub create_claim : Resource → Action World (Unit {0})
  unfolding storage_class create_in_modes
  create_claim p = do
    t ← of_result api.templates.claim_template
    class ← storage_class p
    quantity ←
        of_result (api.parse_quantity (if p.storage_size == "" then "1G" else p.storage_size))
    requests ← map_of t.body.requests
    create_in_modes p.name (claim_object p t class (insert "storage" quantity requests))
        (access_modes p.access_mode)

  -- `processPVCs`
  unfoldable pub process_claims : Resource → Action World (Unit {0})
  unfolding list create_claim
  process_claims p = do
    children ← list api "PersistentVolumeClaim" p.namespace p.name
    if contains (map (λ c. c.name) children) "churrodata" then give tt else create_claim p
