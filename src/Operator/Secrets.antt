-- ===== src/Operator/Secrets.antt =====
-- internal/operator/secret.go: the secrets of a pipeline.
use churro.Common.{
  String, List, [], ◌∷◌, ◌++◌, ◌<>◌, map, Option, none, some, Bool, not, ◌==◌, ◌&&◌, ◌||◌,
  if◌then◌else◌, contains, insert,
}
use churro.Common.Action.{Action, give, refuse_with, ◌>>=◌, ◌>>◌}
use churro.Operator.{
  Api, World, Resource, Object, Pairs, DbCreds, ServiceCreds, secret, list, get, attempt,
  kube_client, pipeline_client, get_resource,
}
use churro.Operator.Ensure.{create_all}

-- A check that a text is there, or the entry of a key.
pub data Filling : Type 0 where
  need : String → String → Filling
  put : String → String → Filling

-- What the data holds when the first check fails, and its error, or all of it.
abbrev pub fill : List Filling → Pairs → Pairs × Option String
fill [] data_map = (data_map, none)
fill (need text message ∷ l) data_map =
    let rest = fill l data_map in if text == "" then (data_map, some message) else rest
fill (put key text ∷ l) data_map = fill l (insert key text data_map)

-- `doDBNodeCreds`
unfoldable pub node_creds : DbCreds → Pairs × Option String
node_creds c =
    fill
      (need c.node_key "node.key is empty"
        ∷ put "node.key" c.node_key
        ∷ need c.node_crt "node.crt is empty"
        ∷ put "node.crt" c.node_crt
        ∷ need c.ca_crt "ca.crt is empty"
        ∷ put "ca.crt" c.ca_crt
        ∷ need c.ca_key "ca.key is empty"
        ∷ put "ca.key" c.ca_key
        ∷ put "client.root.key" c.client_root_key
        ∷ need c.client_root_crt "client.root.crt is empty"
        ∷ put "client.root.crt" c.client_root_crt
        ∷ need c.client_root_crt "client.pipeline.crt is empty"
        ∷ [])
      []

-- `doDBCreds`: the entries of the pipeline are written after checks of those of the root.
unfoldable pub client_creds : String → DbCreds → Pairs × Option String
client_creds pipeline c =
    fill
      (need c.ca_crt "ca.crt is empty"
        ∷ put "ca.crt" c.ca_crt
        ∷ need c.ca_key "ca.key is empty"
        ∷ put "ca.key" c.ca_key
        ∷ need c.client_root_key "client.root.key is empty"
        ∷ put "client.root.key" c.client_root_key
        ∷ need c.client_root_crt "client.root.crt is empty"
        ∷ put "client.root.crt" c.client_root_crt
        ∷ need c.client_root_crt "client.pipeline.crt is empty"
        ∷ put ("client." <> pipeline <> ".crt") c.pipeline_crt
        ∷ need c.client_root_key "client.pipeline.key is empty"
        ∷ put ("client." <> pipeline <> ".key") c.pipeline_key
        ∷ [])
      []

-- `doServiceCreds`
unfoldable pub service_creds : ServiceCreds → Pairs × Option String
service_creds c =
    fill
      (need c.service_crt "service.crt is empty"
        ∷ need c.service_key "service.key is empty"
        ∷ put "service.crt" c.service_crt
        ∷ put "service.key" c.service_key
        ∷ [])
      []

abbrev pub secret_object : Resource → String → Pairs → Object
secret_object p name entries = record {
  kind = "Secret";
  namespace = p.namespace;
  name = name;
  owner = none;
  labels = ("app", "churro") ∷ ("pipeline", p.name) ∷ [];
  spec = secret entries;
}

-- The `switch` over the names: the pull secret counts only under a name of its own.
abbrev pub pull_secret_listed : String → List String → Bool
pull_secret_listed pull names =
    not (
      pull == "cockroachdb.client.root"
      || (pull == "cockroachdb.node" || pull == "churro.client.root"))
    && contains names pull

module _ (api : Api) (p : Resource) where
  -- The error of `doDBCreds` is dropped.
  abbrev pub client_secret : Bool → Resource → Action World (List Object)
  client_secret listed current =
      if listed
      then give []
      else give (
          secret_object p "cockroachdb.client.root"
            (client_creds p.name current.database_credentials).0
          ∷ [])

  abbrev pub checked_secret : Bool → String → Pairs × Option String → Action World (List Object)
  checked_secret listed name (entries, error) =
      if listed then give [] else refuse_with error >> give (secret_object p name entries ∷ [])

  -- The copy of the secret for pulling images, from the operator's own namespace.
  abbrev pub pull_secret : Bool → Action World (List Object)
  pull_secret listed =
      if listed
      then give []
      else get api "Secret" api.churro_namespace api.pull_secret_name >>= λ found.
          give (record found { namespace = p.namespace } ∷ [])

  unfoldable pub process_secrets : Action World (Unit {0})
  unfolding attempt list get get_resource create_all node_creds client_creds service_creds
  process_secrets = do
    attempt api kube_client
    attempt api pipeline_client
    current ← get_resource api p.namespace p.name
    children ← list api "Secret" p.namespace p.name
    let names = map (λ c. c.name) children
    client ← client_secret (contains names "cockroachdb.client.root") current
    node ←
        checked_secret (contains names "cockroachdb.node") "cockroachdb.node"
          (node_creds current.database_credentials)
    grpc ←
        checked_secret (contains names "churro.client.root") "churro.client.root"
          (service_creds current.service_credentials)
    pull ← pull_secret (pull_secret_listed api.pull_secret_name names)
    create_all api p.name (client ++ node ++ grpc ++ pull)
