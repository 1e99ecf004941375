-- ===== src/Tests/Operator.antt =====
-- The operator on one pipeline: witnesses of its theorems.
use churro.Common.{ℕ, zero, suc, String, [], ◌∷◌, Option, none, some, ◌≡◌, ◌≤◌, refl, true}
use churro.Common.Action.{ok, returned, ◌>>=◌}
use churro.Common.Ensures.{Ends}
use churro.Operator.{
  Api, World, Resource, Churroui, Object, DbCreds, Templates, Template, PodSpec, Call,
  service_account,
}
use churro.Operator.Rbac.{
  process_roles, process_role_bindings, process_service_accounts, process_budgets,
}
use churro.Operator.Services.{process_services}
use churro.Operator.Claims.{process_claims}
use churro.Operator.Init.{NamespacedName}
use churro.Operator.Reconcile.{process_cr, process_pipeline, reconcile_all}
use churro.Operator.Reconcile.Invariants.{reconcile_all-init_once}
use churro.Operator.Ui.{process_churroui}
use churro.Operator.Ui.Laws.{Unfailed, process_churroui-Unfailed}
use churro.Operator.Reconcile.Outcomes.{process_cr-deleted}
use churro.Operator.Reconcile.Settled.{
  Settles, There, Claimed, supported, ensure-Settles, process_claims-Claimed,
  process_pipeline-There,
}
use churro.Tests.Sample.{marks}

abbrev no_creds : DbCreds
no_creds = record {
  ca_key = "";
  ca_crt = "";
  node_key = "";
  node_crt = "";
  client_root_crt = "";
  client_root_key = "";
  pipeline_crt = "";
  pipeline_key = "";
}

abbrev made_creds : DbCreds
made_creds = record {
  ca_key = "ca key";
  ca_crt = "ca";
  node_key = "node key";
  node_crt = "node";
  client_root_crt = "root";
  client_root_key = "root key";
  pipeline_crt = "pipeline";
  pipeline_key = "pipeline key";
}

abbrev pod_template : String → Template PodSpec
pod_template name = record {
  name = name;
  owner = none;
  labels = [];
  body = record { containers = [] ∷ []; image_pull_secrets = [] };
}

abbrev plain : String → Template String
plain name = record { name = name; owner = none; labels = []; body = "" }

abbrev templates : Templates
templates = record {
  claim_template = ok (record {
    name = "";
    owner = none;
    labels = [];
    body = record { storage_class_name = ""; requests = some []; access_modes = [] };
  });
  stateful_set = ok (plain "cockroachdb");
  mysql_secret = ok (record { name = "mysql"; owner = none; labels = []; body = some [] });
  mysql_cluster = ok (plain "mysql");
  singlestore_cluster = ok (record { name = "memsql"; owner = none; labels = []; body = some "" });
  cockroach_client = ok (pod_template "cockroachdb-client-secure");
  singlestore_client = ok (pod_template "memsql-studio");
  singlestore_service = ok (record {
    name = "memsql-studio";
    owner = none;
    labels = [];
    body = record {
      annotations = [];
      ports = [];
      selector = [];
      publish_not_ready_addresses = true;
      cluster_ip = "";
      service_type = "";
    };
  });
  extractsource_pod = ok (pod_template "");
  ctl_pod = ok (pod_template "");
  ui_deployment = ok (pod_template "");
  ui_claim = ok (record {
    name = "";
    owner = none;
    labels = [];
    body = record { storage_class_name = ""; requests = some []; access_modes = [] };
  });
}

-- Calls that fail as given.
abbrev outside : (Call → ℕ → Option String) → Api
outside fails = record {
  fails = fails;
  new_id = marks;
  templates = templates;
  parse_quantity = ok;
  storage_classes = ("standard", true) ∷ [];
  generate_creds = λ name n. ok (made_creds, record { service_crt = "s"; service_key = "k" });
  pull_secret_name = "pull";
  churro_namespace = "churro";
}

abbrev calm : Api
calm = outside λ c n. none

-- The very first call of a run fails.
abbrev failing_read : Api
failing_read = outside λ c n. elim n [ zero ↦ some "timeout" | suc m ↦ none ]

abbrev orders : Resource
orders = record {
  name = "orders";
  namespace = "orders";
  id = "";
  database_type = "cockroachdb";
  storage_class_name = "";
  storage_size = "";
  access_mode = "ReadWriteOnce";
  admin_password = "";
  database_credentials = no_creds;
  service_credentials = record { service_crt = ""; service_key = "" };
}

abbrev pull : Object
pull = record {
  kind = "Secret";
  namespace = "churro";
  name = "pull";
  owner = none;
  labels = [];
  spec = service_account;
}

abbrev new_world : World
new_world = record {
  objects = pull ∷ [];
  resource = some orders;
  interface = none;
  deleted = [];
  init_commands = 0;
  calls = 0;
}

abbrev request : NamespacedName
request = record { namespace = "orders"; name = "orders" }

abbrev console : Churroui
console = record {
  name = "console";
  namespace = "churro";
  service_type = "LoadBalancer";
  storage_class_name = "";
  storage_size = "1Gi";
  access_mode = "";
}

abbrev both_stored : World
both_stored = record new_world { interface = some console }

process_churroui-Unfailed_example : Unfailed (process_churroui failing_read console both_stored).0
process_churroui-Unfailed_example = process_churroui-Unfailed failing_read console both_stored

reconcile_all-init_once_example :
    (reconcile_all request (calm ∷ calm ∷ []) new_world).init_commands ≤ 1
reconcile_all-init_once_example = reconcile_all-init_once request (calm ∷ calm ∷ []) new_world refl

-- The call fails, the custom resource is there, and the namespace goes.
process_cr-deleted_example : (process_cr failing_read request new_world).1.deleted ≡ "orders" ∷ []
process_cr-deleted_example = process_cr-deleted failing_read request new_world

ensure-Settles_example :
    Settles (process_roles calm orders) (process_roles failing_read orders) new_world
    × (Settles
          (process_role_bindings calm orders)
          (process_role_bindings failing_read orders)
          new_world
        × (Settles
              (process_service_accounts calm orders)
              (process_service_accounts failing_read orders)
              new_world
            × (Settles
                  (process_services calm orders)
                  (process_services failing_read orders)
                  new_world
                × Settles
                    (process_budgets calm orders)
                    (process_budgets failing_read orders)
                    new_world)))
ensure-Settles_example = ensure-Settles calm failing_read orders new_world

process_claims-Claimed_example :
    Ends (λ _. Claimed calm orders) (λ _. Unit) (process_claims calm orders new_world)
process_claims-Claimed_example = process_claims-Claimed calm orders new_world

process_pipeline-There_example :
    Ends
      (λ _ t. (supported "cockroachdb" ≡ true) × There "Pod" "orders" "churro-ctl" t)
      (λ _. Unit)
      (process_pipeline calm request orders new_world)
process_pipeline-There_example = process_pipeline-There calm request orders new_world

-- The step of the ID fails at its first call, and the credentials are assigned.
abbrev failing_id : Api
failing_id =
    outside λ c n. elim n [ zero ↦ none | suc m ↦ elim m [ zero ↦ some "timeout" | suc k ↦ none ] ]

-- A run without faults succeeds and sends the command; the next one sends none.
reconcile_calm : (process_cr calm request new_world).0 ≡ returned tt
unfolding process_cr ◌>>=◌
reconcile_calm = refl

init_sent : (process_cr calm request new_world).1.init_commands ≡ 1
unfolding process_cr ◌>>=◌
init_sent = refl

-- An access mode that the code does not know: no error, and no object.
abbrev odd_mode : Resource
odd_mode = record orders { access_mode = "ReadOnlyMany" }

no_claim : process_claims calm odd_mode new_world ≡ (returned tt, record new_world { calls = 3 })
unfolding process_claims ◌>>=◌
no_claim = refl
