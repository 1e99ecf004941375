-- ===== src/Operator/Databases.antt =====
-- internal/operator/statefulset.go, mysqlcr.go, singlestorecr.go: the database of a pipeline.
use churro.Common.{
  String, List, [], ◌∷◌, map, Option, none, some, Bool, true, false, ◌==◌, ◌&&◌, if◌then◌else◌,
  contains, insert, is_nil,
}
use churro.Common.Action.{Action, give, of_result, panic, read, ◌>>=◌, ◌>>◌}
use churro.Operator.{
  Api, World, Resource, Object, Pairs, Template, secret, opaque, attempt, connect, list, get,
  create, dynamic_client, list_objects, poll_running, poll_ready,
}
use churro.Operator.Ensure.{create_owned, logged}
use churro.Operator.Claims.{map_of}
use churro.Operator.Init.{connected_or_panic}

-- An object from a template, with the labels of the pipeline.
abbrev pub templated : Resource → String → Template String → Object
templated p kind t = record {
  kind = kind;
  namespace = p.namespace;
  name = t.name;
  owner = t.owner;
  labels = ("app", "churro") ∷ ("pipeline", p.name) ∷ [];
  spec = opaque t.body;
}

abbrev pub mysql_secret_object : Resource → Template (Option Pairs) → Pairs → Object
mysql_secret_object p t entries = record {
  kind = "Secret";
  namespace = p.namespace;
  name = t.name;
  owner = t.owner;
  labels = ("app", "churro") ∷ ("pipeline", p.name) ∷ [];
  spec = secret entries;
}

-- The cluster resource of singlestore is sent as the template has it: no labels, no owner.
abbrev pub singlestore_object : Resource → Template (Option String) → String → Object
singlestore_object p t text = record {
  kind = "MemsqlCluster";
  namespace = p.namespace;
  name = t.name;
  owner = t.owner;
  labels = t.labels;
  spec = opaque text;
}

-- A type assertion on a field that is not there panics.
abbrev pub asserted : Option String → Action World String
asserted none = panic
asserted (some text) = give text

-- There is an object of a kind in a namespace, whoever owns it.
abbrev pub any_of_kind : String → String → List Object → Bool
any_of_kind kind namespace [] = false
any_of_kind kind namespace (o ∷ l) =
    let rest = any_of_kind kind namespace l in
    if o.kind == kind && o.namespace == namespace then true else rest

module _ (api : Api) (p : Resource) where
  unfoldable pub create_stateful_set : Action World (Unit {0})
  unfolding create_owned
  create_stateful_set = do
    t ← of_result api.templates.stateful_set
    create_owned api p.name (templated p "StatefulSet" t)

  unfoldable pub process_stateful_set : Action World (Unit {0})
  unfolding list create_stateful_set
  process_stateful_set = do
    children ← list api "StatefulSet" p.namespace p.name
    if contains (map (λ c. c.name) children) "cockroachdb" then give tt else create_stateful_set

  unfoldable pub create_mysql : Action World (Unit {0})
  unfolding create_owned
  create_mysql = do
    t ← of_result api.templates.mysql_secret
    entries ← map_of t.body
    create_owned api p.name
        (mysql_secret_object p t (insert "ROOT_PASSWORD" p.admin_password entries))
    c ← of_result api.templates.mysql_cluster
    create_owned api p.name (templated p "MysqlCluster" c)

  -- `processMysql`: a child of any name is enough.
  unfoldable pub process_mysql : Action World (Unit {0})
  unfolding list create_mysql
  process_mysql = do
    children ← list api "MysqlCluster" p.namespace p.name
    if is_nil children then create_mysql else give tt

  -- `isSinglestoreReady`: a timeout of the first poll is only logged.
  unfoldable pub singlestore_ready : Bool → Action World (Unit {0})
  unfolding get attempt logged
  singlestore_ready connected = do
    connected_or_panic connected
    master ← get api "Pod" p.namespace "node-memsql-cluster-master-0"
    logged (attempt api poll_running)
    attempt api poll_ready

  unfoldable pub process_singlestore : Action World (Unit {0})
  unfolding connect attempt create singlestore_ready
  process_singlestore = do
    connected ← connect api
    t ← of_result api.templates.singlestore_cluster
    attempt api dynamic_client
    attempt api (list_objects "MemsqlCluster")
    exists ← read (λ s. any_of_kind "MemsqlCluster" p.namespace s.objects)
    text ← asserted t.body
    (if exists then give tt else create api (singlestore_object p t text))
    singlestore_ready connected
