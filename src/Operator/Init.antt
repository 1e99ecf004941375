-- ===== src/Operator/Init.antt =====
-- internal/operator/statefulset.go: the one-time `cockroach init` of the database of a pipeline.
use churro.Common.{String, suc, [], ◌∷◌, none, Bool, true, false, if◌then◌else◌}
use churro.Common.Action.{Action, give, write, panic, rescue, ◌>>=◌, ◌>>◌}
use churro.Operator.{
  Api, World, Resource, Object, secret, attempt, connect, get, kube_client, list_objects, list_pods,
  poll_running, poll_ready, exec_init,
}
use churro.Operator.Ensure.{create_owned, logged}

-- `req.NamespacedName`
pub record NamespacedName : Type 0 where
  pub namespace : String
  pub name : String

-- The secret that marks the database as initialised.
abbrev pub marker : Resource → Object
marker p = record {
  kind = "Secret";
  namespace = p.namespace;
  name = p.name;
  owner = none;
  labels = ("app", "churro") ∷ ("pipeline", p.name) ∷ [];
  spec = secret [];
}

-- The first call of a clientset that is nil panics.
abbrev pub connected_or_panic : Bool → Action World (Unit {0})
connected_or_panic true = give tt
connected_or_panic false = panic

module _ (api : Api) where
  -- `ExecToPodThroughAPI` with the command: it counts as sent, whatever comes back.
  unfoldable pub send_init : Action World (Unit {0})
  unfolding attempt
  send_init = do
    write (λ s. record s { init_commands = suc s.init_commands })
    attempt api exec_init

  -- The marker comes first, so a command that fails is not sent again.
  unfoldable pub init_database : Resource → Action World (Unit {0})
  unfolding create_owned connect logged send_init
  init_database p = do
    create_owned api p.name (marker p)
    connected ← connect api
    connected_or_panic connected
    logged (attempt api list_pods)
    send_init

  unfoldable pub init_once : NamespacedName → Resource → Bool → Action World (Unit {0})
  unfolding get init_database
  init_once req p running =
      if running
      then rescue (get api "Secret" req.namespace req.name) (λ e. init_database p) (λ o. give tt)
      else give tt

  unfoldable pub init_stateful_set : NamespacedName → Resource → Action World (Unit {0})
  unfolding attempt init_once
  init_stateful_set req p = do
    attempt api (list_objects "Pod")
    attempt api kube_client
    running ← rescue (attempt api poll_running) (λ e. give false) (λ _. give true)
    init_once req p running
    attempt api poll_ready
