-- ===== src/Operator/Rbac.antt =====
-- internal/operator/rbac.go, policy.go: the roles, role bindings, service accounts and the
-- disruption budget of a pipeline.
use churro.Common.{String, [], ◌∷◌, none}
use churro.Common.Action.{Action}
use churro.Operator.{Api, World, Resource, Object, role, role_binding, service_account, budget}
use churro.Operator.Ensure.{ensure}

abbrev pub churro_role : Resource → Object
churro_role p = record {
  kind = "Role";
  namespace = p.namespace;
  name = "churro";
  owner = none;
  labels = [];
  spec = role (
      record {
        verbs = "create" ∷ "get" ∷ "list" ∷ "delete" ∷ [];
        api_groups = "" ∷ [];
        resources = "pods" ∷ "pods/log" ∷ "services" ∷ "secrets" ∷ [];
      }
      ∷ record {
        verbs = "get" ∷ "list" ∷ "update" ∷ [];
        api_groups = "churro.project.io" ∷ [];
        resources = "pipelines" ∷ [];
      }
      ∷ []);
}

abbrev pub cockroach_role : Resource → Object
cockroach_role p = record {
  kind = "Role";
  namespace = p.namespace;
  name = "cockroachdb";
  owner = none;
  labels = [];
  spec =
      role (record { verbs = "get" ∷ []; api_groups = "" ∷ []; resources = "secrets" ∷ [] } ∷ []);
}

-- The binding of the role of a name to the service account of that name.
abbrev pub binding : String → Resource → Object
binding name p = record {
  kind = "RoleBinding";
  namespace = p.namespace;
  name = name;
  owner = none;
  labels = ("app", name) ∷ [];
  spec =
      role_binding (record { kind = "ServiceAccount"; name = name; namespace = p.namespace } ∷ [])
        (record { api_group = "rbac.authorization.k8s.io"; kind = "Role"; name = name });
}

abbrev pub account : String → Resource → Object
account name p = record {
  kind = "ServiceAccount";
  namespace = p.namespace;
  name = name;
  owner = none;
  labels = [];
  spec = service_account;
}

abbrev pub disruption_budget : Resource → Object
disruption_budget p = record {
  kind = "PodDisruptionBudget";
  namespace = p.namespace;
  name = "cockroachdb-budget";
  owner = none;
  labels = ("app", "cockroachdb") ∷ [];
  spec = budget (("app", "cockroachdb") ∷ []) 1;
}

module _ (api : Api) (p : Resource) where
  unfoldable pub process_roles : Action World (Unit {0})
  unfolding ensure
  process_roles = ensure api "Role" p.namespace p.name (churro_role p ∷ cockroach_role p ∷ [])

  unfoldable pub process_role_bindings : Action World (Unit {0})
  unfolding ensure
  process_role_bindings =
      ensure api "RoleBinding" p.namespace p.name
        (binding "churro" p ∷ binding "cockroachdb" p ∷ [])

  unfoldable pub process_service_accounts : Action World (Unit {0})
  unfolding ensure
  process_service_accounts =
      ensure api "ServiceAccount" p.namespace p.name
        (account "churro" p ∷ account "cockroachdb" p ∷ [])

  unfoldable pub process_budgets : Action World (Unit {0})
  unfolding ensure
  process_budgets = ensure api "PodDisruptionBudget" p.namespace p.name (disruption_budget p ∷ [])
