-- ===== src/Operator/Reconcile.antt =====
-- internal/operator/id.go, creds.go, ns.go: the reconciliation of a custom resource.
pub mod Lasting
pub mod Invariants
pub mod Outcomes
pub mod Settled
pub mod Identity
use churro.Common.{String, List, [], ◌∷◌, ◌++◌, suc, ◌==◌, if◌then◌else◌}
use churro.Common.Action.{Action, Result, give, fail, read, write, of_result, rescue, ◌>>=◌, ◌>>◌}
use churro.Operator.{
  Api, World, Resource, DbCreds, ServiceCreds, attempt, get_resource, update_resource, kube_client,
  pipeline_client, get_object, delete_namespace, resource_at, found_or_fail,
}
use churro.Operator.Ensure.{logged}
use churro.Operator.Rbac.{
  process_roles, process_role_bindings, process_service_accounts, process_budgets,
}
use churro.Operator.Services.{process_services}
use churro.Operator.Claims.{process_claims}
use churro.Operator.Secrets.{process_secrets}
use churro.Operator.Pods.{
  process_ctl, process_extract_source, process_cockroach_client, process_singlestore_client,
}
use churro.Operator.Init.{NamespacedName, init_stateful_set}
use churro.Operator.Databases.{process_stateful_set, process_mysql, process_singlestore}

abbrev pub with_creds : Resource → DbCreds × ServiceCreds → Resource
with_creds p creds = record p { database_credentials = creds.0; service_credentials = creds.1 }

module _ (api : Api) where
  -- `xid.New`
  unfoldable pub draw : Action World String
  draw = do
    id ← read (λ s. api.new_id s.calls)
    write (λ s. record s { calls = suc s.calls })
    give id

  unfoldable pub assign_id : Resource → Action World (Unit {0})
  unfolding draw attempt update_resource
  assign_id p = do
    id ← draw
    attempt api kube_client
    attempt api pipeline_client
    update_resource api p.name (record p { id = id })

  unfoldable pub process_id : Resource → Action World (Unit {0})
  unfolding assign_id
  process_id p = if p.id == "" then assign_id p else give tt

  unfoldable pub assign_creds : Resource → Action World (Unit {0})
  unfolding attempt get_resource update_resource
  assign_creds p = do
    made ← read (λ s. api.generate_creds p.name s.calls)
    creds ← of_result made
    attempt api kube_client
    attempt api pipeline_client
    current ← get_resource api p.name p.name
    update_resource api p.name (with_creds current creds)

  unfoldable pub process_creds : Resource → Action World (Unit {0})
  unfolding assign_creds
  process_creds p = if p.database_credentials.ca_key == "" then assign_creds p else give tt

  unfoldable pub process_cockroach : NamespacedName → Resource → Action World (Unit {0})
  unfolding process_stateful_set init_stateful_set process_cockroach_client
  process_cockroach req p = do
    process_stateful_set api p
    init_stateful_set api req p
    process_cockroach_client api p

  unfoldable pub process_studio : Resource → Action World (Unit {0})
  unfolding process_singlestore process_singlestore_client logged
  process_studio p = do
    logged (process_singlestore api p)
    logged (process_singlestore_client api p)

  unfoldable pub process_database : NamespacedName → Resource → Action World (Unit {0})
  unfolding process_cockroach process_mysql process_studio logged
  process_database req p =
      if p.database_type == "cockroachdb"
      then process_cockroach req p
      else if p.database_type == "mysql"
      then logged (process_mysql api p)
      else if p.database_type == "singlestore"
      then process_studio p
      else fail "unsupported databasetype"

  unfoldable pub process_pipeline : NamespacedName → Resource → Action World (Unit {0})
  unfolding logged process_id process_creds process_roles process_role_bindings
      process_service_accounts process_services process_claims process_secrets process_budgets
      process_database process_extract_source process_ctl
  process_pipeline req p = do
    logged (process_id p)
    logged (process_creds p)
    logged (process_roles api p)
    logged (process_role_bindings api p)
    logged (process_service_accounts api p)
    logged (process_services api p)
    logged (process_claims api p)
    logged (process_secrets api p)
    logged (process_budgets api p)
    process_database req p
    logged (process_extract_source api p)
    process_ctl api p

  -- `r.Get` of the custom resource
  unfoldable pub get_pipeline_object : NamespacedName → Action World Resource
  unfolding attempt
  get_pipeline_object req = do
    attempt api (get_object "Pipeline")
    found ← read (λ s. resource_at req.namespace req.name s.resource)
    found_or_fail found

  -- Every error of the read, not only that the resource is gone, deletes the namespace.
  -- `deleted` records the requests that the API server took: what it then does to the objects of the
  -- namespace is the cluster's own, and left out.
  unfoldable pub clean_up : NamespacedName → String → Action World (Unit {0})
  unfolding attempt
  clean_up req e = do
    attempt api delete_namespace
    write (λ s. record s { deleted = s.deleted ++ (req.namespace ∷ []) })
    (if e == "not found" then give tt else fail e)

  -- `ProcessCR`
  unfoldable pub process_cr : NamespacedName → Action World (Unit {0})
  unfolding get_pipeline_object clean_up process_pipeline rescue
  process_cr req = rescue (get_pipeline_object req) (clean_up req) (process_pipeline req)

-- The reconciliations of one custom resource, each with what fails in it.
abbrev pub reconcile_all : NamespacedName → List Api → World → World
reconcile_all req [] s = s
reconcile_all req (api ∷ runs) s = reconcile_all req runs (process_cr api req s).1
