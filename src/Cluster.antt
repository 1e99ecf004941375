-- ===== src/Cluster.antt =====
-- What the services share: the pipeline custom resource (api/v1alpha1/pipeline_types.go), the pods
-- of the Kubernetes API, and the calls of code outside the repository.
--
-- The `n`-th outside call of a run succeeds or fails as `Api.fails` says, so a theorem for all `Api`
-- covers every pattern of faults. A handler runs to its end before the next one begins: the API
-- server refuses an update that is made from an outdated read.
pub mod Specs
pub mod Faultless
pub mod Document
use churro.Common.{
  ℕ, suc, String, List, [], ◌∷◌, Option, none, some, Bool, ◌==◌, ◌&&◌, if◌then◌else◌,
}
use churro.Common.Int.{ℤ}
use churro.Domain.{Metric}
use churro.Common.Action.{Result, panic, rescue, give, Action, returned, failed, write, read, ◌>>◌}

pub record ExtractRuleDefinition : Type 0 where
  pub id : String
  pub extractsourceid : String
  pub column_name : String
  pub column_path : String
  pub column_type : String
  pub match_values : String
  pub transform_function_name : String

pub record FunctionDefinition : Type 0 where
  pub id : String
  pub name : String
  pub source : String

pub record ExtensionDefinition : Type 0 where
  pub id : String
  pub extractsourceid : String
  pub extensionname : String
  pub extensionpath : String

pub record ExtractSourceDefinition : Type 0 where
  pub id : String
  pub name : String
  pub path : String
  pub scheme : String
  pub regex : String
  pub tablename : String
  pub cronexpression : String
  pub skipheaders : ℤ
  pub multiline : String
  pub sheetname : String
  pub port : ℤ
  pub encoding : String
  pub transport : String
  pub servicetype : String

-- `Pipeline` with the fields of its `Spec` that the handlers read or change.
pub record Pipeline : Type 0 where
  pub name : String
  pub max_jobs : ℤ
  pub database_type : String
  pub harvest_pod_duration : String
  pub functions : List FunctionDefinition
  pub extractsources : List ExtractSourceDefinition
  pub extensions : List ExtensionDefinition
  pub extractrules : List ExtractRuleDefinition

-- v1.PodPhase
pub data Phase : Type 0 where
  pending running succeeded broken unknown : Phase

-- A pod of the extract job: its metadata, labels, the environment of its container and its status.
pub record Pod : Type 0 where
  pub name : String
  pub namespace : String
  pub service : String
  pub extractsourcename : String
  pub extractlogid : String
  pub image : String
  pub pipeline_name : String
  pub file_name : String
  pub scheme : String
  pub table_name : String
  pub pull_secret : Option String
  pub phase : Phase
  pub start_time : ℕ

-- The calls of outside code that can fail.
pub data Call : Type 0 where
  kube_client pipeline_client get_pipeline update_pipeline list_pods create_pod : Call
  delete_pod : String → Call
  dial_extractsource call_extractsource : Call
  new_database connect_database query_database : Call

pub record Api : Type 0 where
  pub fails : Call → ℕ → Option String
  -- `xid.New().String()` and the suffix `rand.String(4)`, at the time of the call
  pub new_id : ℕ → String
  -- the rows of `extractsourcemetric` for an extract source, at the time of the query
  pub source_metrics : String → ℕ → List Metric

-- encoding/json at one type: `Unmarshal` of a text and `Marshal` of a value.
pub record Codec (A : Type 0) : Type 0 where
  pub decode : String → Result A
  pub encode : A → Result String

-- The shared state. `calls` counts the outside calls, `notified` those that reached the
-- extractsource service.
pub record Cluster : Type 0 where
  pub pipeline : Pipeline
  pub pods : List Pod
  pub notified : ℕ
  pub calls : ℕ

abbrev pub select : (Pod → Bool) → List Pod → List Pod
select test [] = []
select test (p ∷ l) = let rest = select test l in if test p then p ∷ rest else rest

-- A pod is identified by its namespace and its name.
abbrev pub remove_pod : String → String → List Pod → List Pod
remove_pod namespace name [] = []
remove_pod namespace name (p ∷ l) =
    let rest = remove_pod namespace name l in
    if p.namespace == namespace && p.name == name then rest else p ∷ rest

module _ (api : Api) where
  -- One outside call without an effect on the state that the services read.
  unfoldable pub attempt : Call → Action Cluster (Unit {0})
  attempt c s = elim (api.fails c s.calls) [
    | none ↦ (returned tt, record s { calls = suc s.calls })
    | some e ↦ (failed e, record s { calls = suc s.calls })
  ]

  -- `xid.New().String()`
  unfoldable pub fresh : Action Cluster String
  fresh s = (returned (api.new_id s.calls), record s { calls = suc s.calls })

  -- The lines that begin most handlers: the two clients and `pipelineClient.Get`.
  unfoldable pub fetch : Action Cluster Pipeline
  unfolding attempt
  fetch = do
    attempt kube_client
    attempt pipeline_client
    attempt get_pipeline
    read (λ s. s.pipeline)

  -- `pipelineClient.Update`
  unfoldable pub update : Pipeline → Action Cluster (Unit {0})
  unfolding attempt
  update p = do attempt update_pipeline; write (λ s. record s { pipeline = p })

  -- `pipeline.GetPipeline` of internal/pipeline/pipeline.go. Its first two error returns
  -- dereference a nil pointer.
  unfoldable pub get_pipeline_or_panic : Action Cluster Pipeline
  unfolding attempt
  get_pipeline_or_panic = do
    rescue (attempt kube_client) (λ e. panic) give
    rescue (attempt pipeline_client) (λ e. panic) give
    attempt get_pipeline
    read (λ s. s.pipeline)

  -- `Pods(namespace).List` with a label selector
  unfoldable pub list_selected : (Pod → Bool) → Action Cluster (List Pod)
  unfolding attempt
  list_selected selector = do attempt list_pods; read (λ s. select selector s.pods)

  -- `Pods(namespace).Delete`
  unfoldable pub delete_pod_named : String → String → Action Cluster (Unit {0})
  unfolding attempt
  delete_pod_named namespace name = do
    attempt (delete_pod name)
    write (λ s. record s { pods = remove_pod namespace name s.pods })

  -- `GetExtractSourceMetrics` of the database layer
  unfoldable pub query_metrics : String → Action Cluster (List Metric)
  unfolding attempt
  query_metrics id = do attempt query_database; read (λ s. api.source_metrics id s.calls)
