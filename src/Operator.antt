-- ===== src/Operator.antt =====
-- internal/operator: what the operator keeps of the cluster, and its calls of the Kubernetes API.
--
-- The `n`-th call of a run succeeds or fails as `Api.fails` says. A create call of an object whose
-- kind, namespace and name are taken is refused by the API server.
pub mod Objects
pub mod Ensure
pub mod Rbac
pub mod Services
pub mod Claims
pub mod Secrets
pub mod Pods
pub mod Init
pub mod Databases
pub mod Reconcile
pub mod Ui
use churro.Common.{
  ℕ, suc, String, List, [], ◌∷◌, ◌++◌, map, Option, none, some, Bool, true, false, ◌==◌, ◌&&◌, ◌||◌,
  if◌then◌else◌,
}
use churro.Common.Action.{
  Action, Result, returned, failed, give, fail, read, write, of_result, refuse, rescue, ◌>>=◌, ◌>>◌,
}

abbrev pub Pairs : Type 0
Pairs = List (String × String)

-- rbacv1.PolicyRule
pub record PolicyRule : Type 0 where
  pub verbs : List String
  pub api_groups : List String
  pub resources : List String

pub record Subject : Type 0 where
  pub kind : String
  pub name : String
  pub namespace : String

pub record RoleRef : Type 0 where
  pub api_group : String
  pub kind : String
  pub name : String

pub record ServiceSpec : Type 0 where
  pub annotations : Pairs
  pub ports : List (String × ℕ)
  pub selector : Pairs
  pub publish_not_ready_addresses : Bool
  pub cluster_ip : String
  pub service_type : String

pub record ClaimSpec : Type 0 where
  pub storage_class_name : String
  pub requests : Option Pairs
  pub access_modes : List String

-- The environment of each container, and the names of the pull secrets.
pub record PodSpec : Type 0 where
  pub containers : List Pairs
  pub image_pull_secrets : List String

-- What an object holds behind its metadata. `opaque` stands for what a template gives.
pub data Spec : Type 0 where
  role : List PolicyRule → Spec
  role_binding : List Subject → RoleRef → Spec
  service_account : Spec
  service : ServiceSpec → Spec
  claim : ClaimSpec → Spec
  secret : Pairs → Spec
  budget : Pairs → ℕ → Spec
  pod : PodSpec → Spec
  opaque : String → Spec

-- An object of the cluster; `owner` is what controls it: a pipeline by its name, or a user interface
-- by its name behind `Churroui/`.
pub record Object : Type 0 where
  pub kind : String
  pub namespace : String
  pub name : String
  pub owner : Option String
  pub labels : Pairs
  pub spec : Spec

-- v1alpha1.DBCreds
pub record DbCreds : Type 0 where
  pub ca_key : String
  pub ca_crt : String
  pub node_key : String
  pub node_crt : String
  pub client_root_crt : String
  pub client_root_key : String
  pub pipeline_crt : String
  pub pipeline_key : String

-- v1alpha1.ServiceCreds
pub record ServiceCreds : Type 0 where
  pub service_crt : String
  pub service_key : String

-- v1alpha1.Pipeline with the fields that the operator reads or writes
pub record Resource : Type 0 where
  pub name : String
  pub namespace : String
  pub id : String
  pub database_type : String
  pub storage_class_name : String
  pub storage_size : String
  pub access_mode : String
  pub admin_password : String
  pub database_credentials : DbCreds
  pub service_credentials : ServiceCreds

-- uiv1alpha1.Churroui with the fields that the operator reads
pub record Churroui : Type 0 where
  pub name : String
  pub namespace : String
  pub service_type : String
  pub storage_class_name : String
  pub storage_size : String
  pub access_mode : String

-- The calls that can fail.
pub data Call : Type 0 where
  kube_client pipeline_client get_pipeline update_pipeline delete_namespace : Call
  list_classes list_pods poll_running poll_ready exec_init dynamic_client : Call
  get_object list_objects create_object : String → Call

-- What `yaml.Unmarshal` makes of a template; a map or a list that the text leaves out is nil.
pub record Template (B : Type 0) : Type 0 where
  pub name : String
  pub owner : Option String
  pub labels : Pairs
  pub body : B

pub record Templates : Type 0 where
  pub claim_template : Result (Template ClaimSpec)
  pub stateful_set : Result (Template String)
  pub mysql_secret : Result (Template (Option Pairs))
  pub mysql_cluster : Result (Template String)
  pub singlestore_cluster : Result (Template (Option String))
  pub cockroach_client : Result (Template PodSpec)
  pub singlestore_client : Result (Template PodSpec)
  pub singlestore_service : Result (Template ServiceSpec)
  pub extractsource_pod : Result (Template PodSpec)
  pub ctl_pod : Result (Template PodSpec)
  pub ui_deployment : Result (Template PodSpec)
  pub ui_claim : Result (Template ClaimSpec)

pub record Api : Type 0 where
  pub fails : Call → ℕ → Option String
  pub new_id : ℕ → String
  pub templates : Templates
  -- `resource.ParseQuantity`, printed in its canonical form
  pub parse_quantity : String → Result String
  -- the storage classes, and whether each is annotated as the default
  pub storage_classes : List (String × Bool)
  -- `GenerateChurroCreds` for a pipeline, at the time of the call
  pub generate_creds : String → ℕ → Result (DbCreds × ServiceCreds)
  -- the variables CHURRO_PULL_SECRET_NAME and CHURRO_NAMESPACE
  pub pull_secret_name : String
  pub churro_namespace : String

-- The objects, the stored custom resources of the pipeline and of the user interface, the namespaces that were deleted, and how often the
-- database's init command was sent.
pub record World : Type 0 where
  pub objects : List Object
  pub resource : Option Resource
  pub interface : Option Churroui
  pub deleted : List String
  pub init_commands : ℕ
  pub calls : ℕ

abbrev pub is_at : String → String → String → Object → Bool
is_at kind namespace name o = o.kind == kind && (o.namespace == namespace && o.name == name)

abbrev pub find_at : String → String → String → List Object → Option Object
find_at kind namespace name [] = none
find_at kind namespace name (o ∷ l) =
    if is_at kind namespace name o then some o else find_at kind namespace name l

abbrev pub taken : String → String → String → List Object → Bool
taken kind namespace name [] = false
taken kind namespace name (o ∷ l) = is_at kind namespace name o || taken kind namespace name l

abbrev pub owned_by : String → Option String → Bool
owned_by pipeline none = false
owned_by pipeline (some o) = o == pipeline

-- The objects of a kind in a namespace that a pipeline controls.
abbrev pub owned : String → String → String → List Object → List Object
owned kind namespace pipeline [] = []
owned kind namespace pipeline (o ∷ l) =
    let rest = owned kind namespace pipeline l in
    if o.kind == kind && (o.namespace == namespace && owned_by pipeline o.owner)
    then o ∷ rest
    else rest

abbrev pub found_or_fail : {A : Type 0} → Option A → Action World A
found_or_fail none = fail "not found"
found_or_fail (some o) = give o

-- The stored custom resource, if it has that namespace and name.
abbrev pub resource_at : String → String → Option Resource → Option Resource
resource_at namespace name none = none
resource_at namespace name (some p) =
    if p.namespace == namespace && p.name == name then some p else none

module _ (api : Api) where
  unfoldable pub attempt : Call → Action World (Unit {0})
  attempt c s = elim (api.fails c s.calls) [
    | none ↦ (returned tt, record s { calls = suc s.calls })
    | some e ↦ (failed e, record s { calls = suc s.calls })
  ]

  -- `r.Get`
  unfoldable pub get : String → String → String → Action World Object
  unfolding attempt
  get kind namespace name = do
    attempt (get_object kind)
    found ← read (λ s. find_at kind namespace name s.objects)
    found_or_fail found

  -- `r.List` in a namespace, by the owner
  unfoldable pub list : String → String → String → Action World (List Object)
  unfolding attempt
  list kind namespace owner = do
    attempt (list_objects kind)
    read (λ s. owned kind namespace owner s.objects)

  -- `r.Create`
  unfoldable pub create : Object → Action World (Unit {0})
  unfolding attempt
  create o = do
    attempt (create_object o.kind)
    clash ← read (λ s. taken o.kind o.namespace o.name s.objects)
    refuse clash "already exists"
    write (λ s. record s { objects = s.objects ++ (o ∷ []) })

  -- A clientset, or none: the code looks at the error later or not at all.
  unfoldable pub connect : Action World Bool
  unfolding attempt
  connect = rescue (attempt kube_client) (λ e. give false) (λ _. give true)

  -- `pipelineClient.Get`
  unfoldable pub get_resource : String → String → Action World Resource
  unfolding attempt
  get_resource namespace name = do
    attempt get_pipeline
    found ← read (λ s. resource_at namespace name s.resource)
    found_or_fail found

  -- `pipelineClient.Update` of a client for a namespace
  unfoldable pub update_resource : String → Resource → Action World (Unit {0})
  unfolding attempt
  update_resource namespace p = do
    attempt update_pipeline
    found ← read (λ s. resource_at namespace p.name s.resource)
    old ← found_or_fail found
    write (λ s. record s { resource = some p })
