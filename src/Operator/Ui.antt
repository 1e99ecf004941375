-- ===== src/Operator/Ui.antt =====
-- internal/operator/churrouicontroller.go: the reconciliation of the custom resource of a user
-- interface. The steps for CRDs and the database operators stand in the source without a caller.
pub mod Laws
use churro.Common.{
  String, List, [], ◌∷◌, ◌<>◌, map, Option, none, some, false, ◌==◌, if◌then◌else◌, contains,
  insert,
}
use churro.Common.Action.{Action, give, fail, of_result, read, rescue, ◌>>=◌, ◌>>◌}
use churro.Operator.{
  Api, World, Object, Pairs, Churroui, Template, ClaimSpec, PodSpec, role, role_binding,
  service_account, service, claim, pod, attempt, list, create, get_object, list_objects,
  found_or_fail,
}
use churro.Operator.Ensure.{ensure, create_owned, logged}
use churro.Operator.Claims.{get_default_class, access_modes, map_of, create_in_modes}
use churro.Operator.Pods.{add_env, pull_secrets}
use churro.Operator.Init.{NamespacedName}

-- The owner that `SetControllerReference` writes, and that the index of owners reads.
abbrev pub ui_owner : Churroui → String
ui_owner u = "Churroui/" <> u.name

abbrev pub ui_account : Churroui → Object
ui_account u = record {
  kind = "ServiceAccount";
  namespace = u.namespace;
  name = "churro-ui";
  owner = none;
  labels = [];
  spec = service_account;
}

-- An object without a namespace and without an owner.
abbrev pub ui_role : Object
ui_role = record {
  kind = "ClusterRole";
  namespace = "";
  name = "churro-ui";
  owner = none;
  labels = [];
  spec = role (
      record {
        verbs = "create" ∷ "get" ∷ "list" ∷ "delete" ∷ "patch" ∷ "update" ∷ "watch" ∷ [];
        api_groups = "churro.project.io" ∷ [];
        resources = "pipelines" ∷ [];
      }
      ∷ record {
        verbs = "get" ∷ "list" ∷ [];
        api_groups = "churro.project.io" ∷ [];
        resources = "churrouis" ∷ [];
      }
      ∷ record {
        verbs = "get" ∷ "list" ∷ "create" ∷ [];
        api_groups = "" ∷ [];
        resources = "pods" ∷ "pods/log" ∷ "namespaces" ∷ [];
      }
      ∷ record {
        verbs = "get" ∷ "list" ∷ [];
        api_groups = "storage.k8s.io" ∷ [];
        resources = "storageclasses" ∷ [];
      }
      ∷ []);
}

abbrev pub ui_binding : Churroui → Object
ui_binding u = record {
  kind = "ClusterRoleBinding";
  namespace = "";
  name = "churro-ui";
  owner = none;
  labels = ("app", "churro-ui") ∷ [];
  spec =
      role_binding
        (record { kind = "ServiceAccount"; name = "churro-ui"; namespace = u.namespace } ∷ [])
        (record {
          api_group = "rbac.authorization.k8s.io";
          kind = "ClusterRole";
          name = "churro-ui";
        });
}

abbrev pub ui_service : Churroui → Object
ui_service u = record {
  kind = "Service";
  namespace = u.namespace;
  name = "churro-ui";
  owner = none;
  labels = [];
  spec = service (record {
    annotations = [];
    ports = ("", 8080) ∷ [];
    selector = ("app", "churro-ui") ∷ [];
    publish_not_ready_addresses = false;
    cluster_ip = "";
    service_type = if u.service_type == "LoadBalancer" then "LoadBalancer" else "ClusterIP";
  });
}

abbrev pub ui_claim_object :
    Churroui → Template ClaimSpec → String → Option Pairs → List String → Object
ui_claim_object u t class requests modes = record {
  kind = "PersistentVolumeClaim";
  namespace = u.namespace;
  name = "churro-admindb";
  owner = t.owner;
  labels = t.labels;
  spec = claim (record { storage_class_name = class; requests = requests; access_modes = modes });
}

abbrev pub ui_deployment_object : String → Churroui → Template PodSpec → List Pairs → Object
ui_deployment_object pull u t containers = record {
  kind = "Deployment";
  namespace = u.namespace;
  name = "churro-ui";
  owner = t.owner;
  labels = ("app", "churro-ui") ∷ ("crname", u.name) ∷ [];
  spec = pod (record {
    containers = containers;
    image_pull_secrets = pull_secrets pull t.body.image_pull_secrets;
  });
}

-- The objects of a kind, whatever their namespace and owner.
abbrev pub of_kind : String → List Object → List Object
of_kind kind [] = []
of_kind kind (o ∷ l) = let rest = of_kind kind l in if o.kind == kind then o ∷ rest else rest

-- The stored custom resource, if it has that namespace and name.
abbrev pub interface_at : NamespacedName → Option Churroui → Option Churroui
interface_at req none = none
interface_at req (some u) =
    if u.namespace == req.namespace then (if u.name == req.name then some u else none) else none

module _ (api : Api) where
  -- The object of a kind without a namespace, unless one has its name.
  unfoldable pub ensure_cluster : Object → Action World (Unit {0})
  unfolding attempt create
  ensure_cluster o = do
    attempt api (list_objects o.kind)
    found ← read (λ s. of_kind o.kind s.objects)
    if contains (map (λ c. c.name) found) o.name then give tt else create api o

  module _ (u : Churroui) where
    unfoldable pub process_ui_accounts : Action World (Unit {0})
    unfolding ensure
    process_ui_accounts = ensure api "ServiceAccount" u.namespace (ui_owner u) (ui_account u ∷ [])

    unfoldable pub process_ui_roles : Action World (Unit {0})
    unfolding ensure_cluster
    process_ui_roles = ensure_cluster ui_role

    unfoldable pub process_ui_bindings : Action World (Unit {0})
    unfolding ensure_cluster
    process_ui_bindings = ensure_cluster (ui_binding u)

    unfoldable pub process_ui_service : Action World (Unit {0})
    unfolding ensure
    process_ui_service = ensure api "Service" u.namespace (ui_owner u) (ui_service u ∷ [])

    -- Without a size in the custom resource the template's stays.
    unfoldable pub ui_requests : Option Pairs → Action World (Option Pairs)
    ui_requests requests =
        if u.storage_size == ""
        then give requests
        else of_result (api.parse_quantity u.storage_size) >>= λ quantity.
            map_of requests >>= λ m. give (some (insert "storage" quantity m))

    -- The default storage class is looked up even if the custom resource names one.
    unfoldable pub create_ui_claim : Action World (Unit {0})
    unfolding get_default_class ui_requests create_in_modes
    create_ui_claim = do
      t ← of_result api.templates.ui_claim
      default ← get_default_class api
      requests ← ui_requests t.body.requests
      create_in_modes api (ui_owner u)
          (ui_claim_object u t
            (if u.storage_class_name == "" then default else u.storage_class_name) requests)
          (access_modes u.access_mode)

    unfoldable pub process_ui_claims : Action World (Unit {0})
    unfolding list create_ui_claim
    process_ui_claims = do
      children ← list api "PersistentVolumeClaim" u.namespace (ui_owner u)
      if contains (map (λ c. c.name) children) "churro-admindb" then give tt else create_ui_claim

    unfoldable pub create_ui_deployment : Action World (Unit {0})
    unfolding create_owned
    create_ui_deployment = do
      t ← of_result api.templates.ui_deployment
      containers ← add_env (("CHURRO_UI_RESOURCE", u.name) ∷ []) t.body.containers
      create_owned api (ui_owner u) (ui_deployment_object api.pull_secret_name u t containers)

    unfoldable pub process_ui_deployment : Action World (Unit {0})
    unfolding list create_ui_deployment
    process_ui_deployment = do
      children ← list api "Deployment" u.namespace (ui_owner u)
      if contains (map (λ c. c.name) children) "churro-ui" then give tt else create_ui_deployment

    -- `processChurroui`
    unfoldable pub process_churroui : Action World (Unit {0})
    unfolding logged process_ui_accounts process_ui_roles process_ui_bindings process_ui_service
        process_ui_claims process_ui_deployment
    process_churroui = do
      logged process_ui_accounts
      logged process_ui_roles
      logged process_ui_bindings
      logged process_ui_service
      logged process_ui_claims
      logged process_ui_deployment
      give tt

  unfoldable pub get_churroui : NamespacedName → Action World Churroui
  unfolding attempt
  get_churroui req = do
    attempt api (get_object "Churroui")
    found ← read (λ s. interface_at req s.interface)
    found_or_fail found

  -- `ChurrouiReconciler.ProcessCR`
  unfoldable pub process_ui_cr : NamespacedName → Action World (Unit {0})
  unfolding get_churroui process_churroui rescue
  process_ui_cr req =
      rescue (get_churroui req) (λ e. if e == "not found" then give tt else fail e) process_churroui
