-- ===== src/Operator/Pods.antt =====
-- internal/operator/churroctl.go, churroextractsource.go, cockroachdbclient.go, singlestoreclient.go:
-- the pods that are looked up by name, and made from a template when the look-up fails.
use churro.Common.{String, List, [], ◌∷◌, ◌++◌, ◌==◌, if◌then◌else◌}
use churro.Common.Action.{Action, give, of_result, panic, rescue, ◌>>=◌, ◌>>◌}
use churro.Operator.{
  Api, World, Resource, Object, Pairs, Template, PodSpec, ServiceSpec, pod, service, get,
}
use churro.Operator.Ensure.{create_owned}

-- `append(pod.Spec.Containers[0].Env, ...)` panics without a container.
abbrev pub add_env : Pairs → List Pairs → Action World (List Pairs)
add_env vars [] = panic
add_env vars (env ∷ l) = give ((env ++ vars) ∷ l)

abbrev pub pull_secrets : String → List String → List String
pull_secrets name l = if name == "" then l else name ∷ []

abbrev pub pod_object : Resource → Template PodSpec → Object
pod_object p t = record {
  kind = "Pod";
  namespace = p.namespace;
  name = t.name;
  owner = t.owner;
  labels = t.labels;
  spec = pod t.body;
}

abbrev pub service_object : Resource → Template ServiceSpec → Object
service_object p t = record {
  kind = "Service";
  namespace = p.namespace;
  name = t.name;
  owner = t.owner;
  labels = t.labels;
  spec = service t.body;
}

-- The template of a service's pod with the name, the labels and the secrets of the pipeline.
abbrev pub named_pod : String → String → Resource → Template PodSpec → List Pairs → Object
named_pod pull name p t containers = record {
  kind = "Pod";
  namespace = p.namespace;
  name = name;
  owner = t.owner;
  labels = ("app", "churro") ∷ ("pipeline", p.name) ∷ ("service", name) ∷ [];
  spec = pod (record {
    containers = containers;
    image_pull_secrets = pull_secrets pull t.body.image_pull_secrets;
  });
}

module _ (api : Api) (p : Resource) where
  -- Any error of the look-up counts as an object that is not there.
  unfoldable pub unless_found : String → String → Action World (Unit {0}) → Action World (Unit {0})
  unfolding get rescue
  unless_found kind name make = rescue (get api kind p.namespace name) (λ e. make) (λ o. give tt)

  unfoldable pub create_ctl : Action World (Unit {0})
  unfolding create_owned
  create_ctl = do
    t ← of_result api.templates.ctl_pod
    containers ← add_env (("CHURRO_PIPELINE", p.name) ∷ []) t.body.containers
    create_owned api p.name (named_pod api.pull_secret_name "churro-ctl" p t containers)

  unfoldable pub process_ctl : Action World (Unit {0})
  unfolding unless_found create_ctl
  process_ctl = unless_found "Pod" "churro-ctl" create_ctl

  -- The variables of the pod for extract sources.
  abbrev pub extractsource_vars : Pairs
  extractsource_vars =
      if api.pull_secret_name == ""
      then ("CHURRO_PIPELINE", p.name) ∷ []
      else ("CHURRO_PULL_SECRET_NAME", api.pull_secret_name) ∷ ("CHURRO_PIPELINE", p.name) ∷ []

  unfoldable pub create_extract_source : Action World (Unit {0})
  unfolding create_owned
  create_extract_source = do
    t ← of_result api.templates.extractsource_pod
    containers ← add_env extractsource_vars t.body.containers
    create_owned api p.name (named_pod api.pull_secret_name "churro-extractsource" p t containers)

  unfoldable pub process_extract_source : Action World (Unit {0})
  unfolding unless_found create_extract_source
  process_extract_source = unless_found "Pod" "churro-extractsource" create_extract_source

  unfoldable pub process_cockroach_client : Action World (Unit {0})
  unfolding unless_found create_owned
  process_cockroach_client =
      unless_found "Pod" "cockroachdb-client-secure"
        do t ← of_result api.templates.cockroach_client; create_owned api p.name (pod_object p t)

  unfoldable pub process_singlestore_client : Action World (Unit {0})
  unfolding unless_found create_owned
  process_singlestore_client = do
    unless_found "Pod" "memsql-studio" (
        of_result api.templates.singlestore_client >>= λ t.
        create_owned api p.name (pod_object p t))
    unless_found "Service" "memsql-studio" (
        of_result api.templates.singlestore_service >>= λ t.
        create_owned api p.name (service_object p t))
