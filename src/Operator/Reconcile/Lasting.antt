-- ===== src/Operator/Reconcile/Lasting.antt =====
-- The steps of the reconciliation keep what the calls keep; the one-time init of the database is
-- looked at by itself.
use churro.Common.{
  String, List, [], ◌∷◌, ◌++◌, suc, Option, none, some, Bool, true, false, ◌==◌, ◌&&◌, ◌≡◌, arith,
  eq_iff, Bool-cases, inl, inr,
}
use churro.Common.Action.{Action, give, fail, write, ◌>>=◌, ◌>>◌}
use churro.Common.Ensures.{Ensures, Ensures-bind, Ensures-rescue, Ensures-write}
use churro.Common.Keeps.{Keeps, Keeps-bind, Keeps-if, Keeps-give, Keeps-fail, keeps_rules}
use churro.Operator.{
  Api, World, Resource, Object, Pairs, delete_namespace, get_object, resource_at, found_or_fail,
}
use churro.Operator.Ensure.{logged}
use churro.Operator.Objects.Lasting.{Lasting, logged-Keeps, attempt-Keeps, lasting_rules}
use churro.Operator.Rbac.{
  process_roles, process_role_bindings, process_service_accounts, process_budgets,
}
use churro.Operator.Services.{process_services}
use churro.Operator.Claims.{
  map_of, get_default_class, storage_class, create_in_modes, create_claim, process_claims,
}
use churro.Operator.Secrets.{process_secrets, checked_secret}
use churro.Operator.Pods.{
  add_env, create_ctl, create_extract_source, process_ctl, process_extract_source,
  process_cockroach_client, process_singlestore_client,
}
use churro.Operator.Init.{
  NamespacedName, connected_or_panic, init_database, init_once, init_stateful_set,
}
use churro.Operator.Databases.{
  asserted, create_stateful_set, process_stateful_set, create_mysql, process_mysql,
  singlestore_ready, process_singlestore,
}
use churro.Operator.Reconcile.{
  draw, assign_id, process_id, assign_creds, process_creds, process_cockroach, process_studio,
  process_database, process_pipeline, get_pipeline_object, clean_up, process_cr,
}

pub map_of-Keeps : {P : World → Type 0} (o : Option Pairs) → Keeps P (map_of o)
map_of-Keeps none = search keeps_rules
map_of-Keeps (some m) = search keeps_rules

pub add_env-Keeps : {P : World → Type 0} (vars : Pairs) (l : List Pairs) → Keeps P (add_env vars l)
add_env-Keeps vars [] = search keeps_rules
add_env-Keeps vars (env ∷ l) = search keeps_rules

asserted-Keeps : {P : World → Type 0} (o : Option String) → Keeps P (asserted o)
asserted-Keeps none = search keeps_rules
asserted-Keeps (some text) = search keeps_rules

pub connected_or_panic-Keeps : {P : World → Type 0} (b : Bool) → Keeps P (connected_or_panic b)
connected_or_panic-Keeps true = search keeps_rules
connected_or_panic-Keeps false = search keeps_rules

module _ (api : Api) {P : World → Type 0} (lasting : Lasting P) where
  pub get_default_class-Keeps : Keeps P (get_default_class api)
  unfolding get_default_class
  get_default_class-Keeps = search lasting_rules

  pub create_in_modes-Keeps :
      (owner : String) (make : List String → Object) (o : Option (List String))
      → Keeps P (create_in_modes api owner make o)
  unfolding create_in_modes
  create_in_modes-Keeps owner make none = search lasting_rules
  create_in_modes-Keeps owner make (some m) = search lasting_rules

module _ (api : Api) {P : World → Type 0} (lasting : Lasting P) (p : Resource) where
  process_roles-Keeps : Keeps P (process_roles api p)
  unfolding process_roles
  process_roles-Keeps = search lasting_rules

  process_role_bindings-Keeps : Keeps P (process_role_bindings api p)
  unfolding process_role_bindings
  process_role_bindings-Keeps = search lasting_rules

  process_service_accounts-Keeps : Keeps P (process_service_accounts api p)
  unfolding process_service_accounts
  process_service_accounts-Keeps = search lasting_rules

  process_budgets-Keeps : Keeps P (process_budgets api p)
  unfolding process_budgets
  process_budgets-Keeps = search lasting_rules

  process_services-Keeps : Keeps P (process_services api p)
  unfolding process_services
  process_services-Keeps = search lasting_rules

  storage_class-Keeps : Keeps P (storage_class api p)
  unfolding storage_class
  storage_class-Keeps = search (lasting_rules, get_default_class-Keeps)

  create_claim-Keeps : Keeps P (create_claim api p)
  unfolding create_claim
  create_claim-Keeps =
      search (lasting_rules, map_of-Keeps, storage_class-Keeps, create_in_modes-Keeps)

  process_claims-Keeps : Keeps P (process_claims api p)
  unfolding process_claims
  process_claims-Keeps = search (lasting_rules, create_claim-Keeps)

  checked_secret-Keeps :
      (b : Bool) (name : String) (r : Pairs × Option String)
      → Keeps P (checked_secret api p b name r)
  checked_secret-Keeps b name (m, e) = search lasting_rules

  process_secrets-Keeps : Keeps P (process_secrets api p)
  unfolding process_secrets
  process_secrets-Keeps = search (lasting_rules, checked_secret-Keeps) depth 14

  process_ctl-Keeps : Keeps P (process_ctl api p)
  unfolding process_ctl create_ctl
  process_ctl-Keeps = search (lasting_rules, add_env-Keeps)

  process_extract_source-Keeps : Keeps P (process_extract_source api p)
  unfolding process_extract_source create_extract_source
  process_extract_source-Keeps = search (lasting_rules, add_env-Keeps)

  process_cockroach_client-Keeps : Keeps P (process_cockroach_client api p)
  unfolding process_cockroach_client
  process_cockroach_client-Keeps = search lasting_rules

  process_singlestore_client-Keeps : Keeps P (process_singlestore_client api p)
  unfolding process_singlestore_client
  process_singlestore_client-Keeps = search lasting_rules

  process_stateful_set-Keeps : Keeps P (process_stateful_set api p)
  unfolding process_stateful_set create_stateful_set
  process_stateful_set-Keeps = search lasting_rules

  create_mysql-Keeps : Keeps P (create_mysql api p)
  unfolding create_mysql
  create_mysql-Keeps = search (lasting_rules, map_of-Keeps) depth 10

  process_mysql-Keeps : Keeps P (process_mysql api p)
  unfolding process_mysql
  process_mysql-Keeps = search (lasting_rules, create_mysql-Keeps)

  singlestore_ready-Keeps : (connected : Bool) → Keeps P (singlestore_ready api p connected)
  unfolding singlestore_ready
  singlestore_ready-Keeps connected = search (lasting_rules, connected_or_panic-Keeps) depth 10

  process_singlestore-Keeps : Keeps P (process_singlestore api p)
  unfolding process_singlestore
  process_singlestore-Keeps =
      search (lasting_rules, asserted-Keeps, singlestore_ready-Keeps) depth 12

  process_studio-Keeps : Keeps P (process_studio api p)
  unfolding process_studio
  process_studio-Keeps =
      search (lasting_rules, process_singlestore-Keeps, process_singlestore_client-Keeps)

  count-Keeps : Keeps P (write (λ s. record s { calls = suc s.calls }))
  count-Keeps = record { ensures = Ensures-write _ lasting.called }

  draw-Keeps : Keeps P (draw api)
  unfolding draw
  draw-Keeps = search (keeps_rules, count-Keeps)

  process_id-Keeps : Keeps P (process_id api p)
  unfolding process_id assign_id
  process_id-Keeps = search (lasting_rules, draw-Keeps) depth 10

  process_creds-Keeps : Keeps P (process_creds api p)
  unfolding process_creds assign_creds
  process_creds-Keeps = search lasting_rules depth 10

  init_once-Keeps :
      Keeps P (init_database api p)
      → (req : NamespacedName) (running : Bool) → Keeps P (init_once api req p running)
  unfolding init_once
  init_once-Keeps init req running = search lasting_rules

  init_stateful_set-Keeps :
      Keeps P (init_database api p) → (req : NamespacedName) → Keeps P (init_stateful_set api req p)
  unfolding init_stateful_set
  init_stateful_set-Keeps init req = search (lasting_rules, init_once-Keeps init req) depth 10

  process_cockroach-Keeps :
      Keeps P (init_database api p) → (req : NamespacedName) → Keeps P (process_cockroach api req p)
  unfolding process_cockroach
  process_cockroach-Keeps init req =
      Keeps-bind _ _ process_stateful_set-Keeps
        λ _. Keeps-bind _ _ (init_stateful_set-Keeps init req) λ _. process_cockroach_client-Keeps

  process_database-Keeps :
      Keeps P (init_database api p) → (req : NamespacedName) → Keeps P (process_database api req p)
  unfolding process_database
  process_database-Keeps init req = Keeps-if _ _ _ (process_cockroach-Keeps init req) (
      Keeps-if _ _ _ (logged-Keeps _ process_mysql-Keeps)
        (Keeps-if _ _ _ process_studio-Keeps (Keeps-fail _)))

  logged-then-Keeps :
      {A : Type 0} {m : Action World A} {n : Action World (Unit {0})}
      → Keeps P m
      → Keeps P n
      → Keeps P (logged m >> n)
  logged-then-Keeps h k = Keeps-bind _ _ (logged-Keeps _ h) (λ _. k)

  pub process_pipeline-Keeps :
      Keeps P (init_database api p) → (req : NamespacedName) → Keeps P (process_pipeline api req p)
  unfolding process_pipeline
  process_pipeline-Keeps init req = logged-then-Keeps process_id-Keeps (
      logged-then-Keeps process_creds-Keeps (
        logged-then-Keeps process_roles-Keeps (
          logged-then-Keeps process_role_bindings-Keeps (
            logged-then-Keeps process_service_accounts-Keeps (
              logged-then-Keeps process_services-Keeps (
                logged-then-Keeps process_claims-Keeps (
                  logged-then-Keeps process_secrets-Keeps (
                    logged-then-Keeps process_budgets-Keeps (
                      Keeps-bind _ _ (process_database-Keeps init req) λ _.
                        logged-then-Keeps process_extract_source-Keeps process_ctl-Keeps)))))))))

clean_up-Keeps :
    (api : Api) {P : World → Type 0}
    → Lasting P
    → ((s : World) (l : List String) → P s → P (record s { deleted = l }))
    → (req : NamespacedName) (e : String) → Keeps P (clean_up api req e)
unfolding clean_up
clean_up-Keeps api {P} lasting removed req e =
    Keeps-bind _ _ (attempt-Keeps api lasting delete_namespace)
      λ _. Keeps-bind _ _ delete-Keeps λ _. Keeps-if _ _ _ (Keeps-give tt) (Keeps-fail e)
  where
    delete-Keeps : Keeps P (write (λ s. record s { deleted = s.deleted ++ (req.namespace ∷ []) }))
    delete-Keeps = record { ensures = Ensures-write _ (λ s h. removed s _ h) }

-- The custom resource of a request.
abbrev pub Requested : NamespacedName → Resource → Type 0
Requested req p = (p.namespace ≡ req.namespace) × (p.name ≡ req.name)

found-Requested :
    {P : World → Type 0} (req : NamespacedName) (o : Option Resource)
    → Ensures P
        (found_or_fail (resource_at req.namespace req.name o))
        (λ p s. P s × Requested req p)
        P
unfolding fail give
found-Requested req none = record { at = λ s h. h }
found-Requested req (some q) =
    elim (Bool-cases (q.namespace == req.namespace && q.name == req.name)) [
      | inl e ↦ record {
        at = λ s h. rw e (
          h,
          (
            (eq_iff q.namespace req.namespace).0 (ground arith),
            (eq_iff q.name req.name).0 (ground arith),
          ),
        );
      }
      | inr e ↦ record { at = λ s h. rw e h }
    ]

get_pipeline_object-Requested :
    (api : Api) {P : World → Type 0}
    → Lasting P
    → (req : NamespacedName)
    → Ensures P (get_pipeline_object api req) (λ p s. P s × Requested req p) P
unfolding get_pipeline_object ◌>>=◌
get_pipeline_object-Requested api lasting req =
    Ensures-bind (attempt-Keeps api lasting (get_object "Pipeline")).ensures
      λ _. record { at = λ s h. (found-Requested req s.resource).at s h }

-- Every reconciliation, whatever fails in it.
pub process_cr-Keeps :
    (api : Api) {P : World → Type 0}
    → Lasting P
    → ((s : World) (l : List String) → P s → P (record s { deleted = l }))
    → (req : NamespacedName) → ((p : Resource) → Requested req p → Keeps P (init_database api p))
    → Keeps P (process_cr api req)
unfolding process_cr
process_cr-Keeps api lasting removed req init = record {
  ensures =
      Ensures-rescue (get_pipeline_object-Requested api lasting req) (λ s h. h)
        (λ e. (clean_up-Keeps api lasting removed req e).ensures)
        λ p. record {
          at = λ s h. (process_pipeline-Keeps api lasting p (init p h.1) req).ensures.at s h.0;
        };
}
