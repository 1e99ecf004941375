-- ===== src/Operator/Reconcile/Settled.antt =====
-- What stands after a step that succeeded.
use mathlib.Core.Option.{none-ne-some}
use churro.Common.{
  String, List, [], ◌∷◌, ◌++◌, map, Option, none, some, Bool, true, false, ◌≡◌, refl, ◌⊎◌, inl, inr,
  ◌==◌, ◌&&◌, ◌||◌, if◌then◌else◌, contains, arith, eq_refl, Bool-cases,
}
use churro.Common.Action.{Action, Outcome, returned, failed, panicked, read, give, fail, ◌>>=◌}
use churro.Common.Ensures.{
  Ends, Ensures, Ensures-bind, Ensures-give, Ensures-rescue, Ensures-weaken,
}
use churro.Operator.{
  Api, World, Resource, Object, Pairs, Template, ClaimSpec, taken, find_at, is_at, owned, owned_by,
  get, found_or_fail,
}
use churro.Operator.Ensure.{create_owned}
use churro.Operator.Ensure.Children.{set_owner-Taken}
use churro.Operator.Ensure.Laws.{Held, list-Held, ensure_settled}
use churro.Operator.Objects.{taken-append}
use churro.Operator.Objects.Lasting.{Lasting, create-Ensures}
use churro.Operator.Rbac.{
  process_roles, process_role_bindings, process_service_accounts, process_budgets, churro_role,
  cockroach_role, binding, account, disruption_budget,
}
use churro.Operator.Services.{
  process_services, ctl_service, extractsource_service, cockroach_service, cockroach_public_service,
}
use churro.Operator.Claims.{
  claim_object, access_modes, create_in_modes, create_claim, process_claims,
}
use churro.Operator.Pods.{process_ctl, create_ctl, unless_found}
use churro.Operator.Init.{NamespacedName}
use churro.Operator.Reconcile.{process_database, process_pipeline}

-- After a success of the first action the second changes no object.
abbrev pub Settles : Action World (Unit {0}) → Action World (Unit {0}) → World → Type 0
Settles m n s = Ends (λ _ t. (n t).1.objects ≡ t.objects) (λ _. Unit) (m s)

-- Once the roles, the role bindings, the service accounts, the services or the disruption budget of
-- a pipeline were processed without an error, processing them again at once changes no object,
-- whatever calls fail then.
pub ensure-Settles :
    (api later : Api) (p : Resource) (s : World)
    → Settles (process_roles api p) (process_roles later p) s
      × (Settles (process_role_bindings api p) (process_role_bindings later p) s
          × (Settles (process_service_accounts api p) (process_service_accounts later p) s
              × (Settles (process_services api p) (process_services later p) s
                  × Settles (process_budgets api p) (process_budgets later p) s)))
unfolding process_roles process_role_bindings process_service_accounts process_services
    process_budgets
ensure-Settles api later p s = (
  ensure_settled "Role" p api later (churro_role p ∷ cockroach_role p ∷ []) s
      ((refl, refl), ((refl, refl), tt)),
  (
    ensure_settled "RoleBinding" p api later (binding "churro" p ∷ binding "cockroachdb" p ∷ []) s
        ((refl, refl), ((refl, refl), tt)),
    (
      ensure_settled "ServiceAccount" p api later
          (account "churro" p ∷ account "cockroachdb" p ∷ []) s ((refl, refl), ((refl, refl), tt)),
      (
        ensure_settled "Service" p api later
            (ctl_service p
              ∷ extractsource_service p
              ∷ cockroach_service p
              ∷ cockroach_public_service p
              ∷ [])
            s ((refl, refl), ((refl, refl), ((refl, refl), ((refl, refl), tt)))),
        ensure_settled "PodDisruptionBudget" p api later (disruption_budget p ∷ []) s
            ((refl, refl), tt),
      ),
    ),
  ),
)

module _ {S A : Type 0} where
  -- Nothing is promised of it.
  Ensures-any : (m : Action S A) → Ensures (λ _. Unit {0}) m (λ _ _. Unit {0}) (λ _. Unit {0})
  Ensures-any m = record { at = λ s _. go (m s) }
    where
      go : (r : Outcome A × S) → Ends (λ _ _. Unit {0}) (λ _. Unit {0}) r
      go (returned a, t) = tt
      go (failed e, t) = tt
      go (panicked, t) = tt

module _ {S A B : Type 0} {Q : B → S → Type 0} where
  after_any :
      (m : Action S A) {f : A → Action S B}
      → ((a : A) → Ensures (λ _. Unit {0}) (f a) Q (λ _. Unit {0}))
      → Ensures (λ _. Unit {0}) (m >>= f) Q (λ _. Unit {0})
  after_any m k = Ensures-bind (Ensures-any m) k

-- An object of that kind, namespace and name is there.
abbrev pub There : String → String → String → World → Type 0
There kind namespace name s = taken kind namespace name s.objects ≡ true

Unit-Lasting : Lasting (λ _. Unit)
Unit-Lasting = record { called = λ s h. h; created = λ s o h free. h; stored = λ s q h. h }

taken_new :
    (objects : List Object) (o : Object)
    → taken o.kind o.namespace o.name (objects ++ (o ∷ [])) ≡ true
taken_new objects o =
    rw
      (
        taken-append o.kind o.namespace o.name objects (o ∷ []),
        eq_refl o.kind,
        eq_refl o.namespace,
        eq_refl o.name,
      )
      (ground arith)

listed_taken :
    (kind namespace pipeline name : String) (objects : List Object)
    → contains (map (λ c. c.name) (owned kind namespace pipeline objects)) name ≡ true
    → taken kind namespace name objects ≡ true
listed_taken kind namespace pipeline name [] h = h
listed_taken kind namespace pipeline name (o ∷ l) h =
    elim (Bool-cases (o.kind == kind && (o.namespace == namespace && owned_by pipeline o.owner))) [
      | inl e ↦ ground (arith, listed_taken kind namespace pipeline name l)
      | inr e ↦ ground (arith, listed_taken kind namespace pipeline name l)
    ]

find_at-taken :
    (kind namespace name : String) (objects : List Object) (o : Object)
    → find_at kind namespace name objects ≡ some o
    → taken kind namespace name objects ≡ true
find_at-taken kind namespace name [] o h = absurd (none-ne-some o h)
find_at-taken kind namespace name (x ∷ l) o h = elim (Bool-cases (is_at kind namespace name x)) [
  | inl e ↦ rw e refl
  | inr e ↦ ground (arith, find_at-taken kind namespace name l o)
]

module _ (api : Api) (p : Resource) where
  create_owned-There :
      (o : Object)
      → Ensures
          (λ _. Unit)
          (create_owned api p.name o)
          (λ _. There o.kind o.namespace o.name)
          (λ _. Unit)
  unfolding create_owned
  create_owned-There o = Ensures-bind (set_owner-Taken p.name o) λ m. record {
    at = λ s h.
        (create-Ensures api Unit-Lasting m
            (λ t x free. rw (← h.1.0.0, ← h.1.0.1, ← h.1.1.0) (taken_new t.objects m))).at
          s tt;
  }

  create_in_modes-There :
      (t : Template ClaimSpec) (class : String) (requests : Pairs) (o : Option (List String))
      → Ensures
          (λ _. Unit)
          (create_in_modes api p.name (claim_object p t class requests) o)
          (λ _ s. There "PersistentVolumeClaim" p.namespace "churrodata" s ⊎ (o ≡ none))
          (λ _. Unit)
  unfolding create_in_modes
  create_in_modes-There t class requests none = Ensures-give tt (λ s h. inr refl)
  create_in_modes-There t class requests (some modes) =
      Ensures-weaken (create_owned-There (claim_object p t class requests modes)) (λ s h. h)
        (λ a s h. inl h) (λ s h. h)

  abbrev pub Claimed : World → Type 0
  Claimed s =
      There "PersistentVolumeClaim" p.namespace "churrodata" s ⊎ (access_modes p.access_mode ≡ none)

  create_claim-There : Ensures (λ _. Unit) (create_claim api p) (λ _. Claimed) (λ _. Unit)
  unfolding create_claim
  create_claim-There = after_any _ λ t. after_any _ λ class. after_any _ λ quantity.
      after_any _ λ requests. create_in_modes-There t class _ (access_modes p.access_mode)

  -- A volume claim that was processed without an error is there, or the custom resource asks for an
  -- access mode that the code does not know.
  pub process_claims-Claimed :
      (s : World) → Ends (λ _. Claimed) (λ _. Unit) (process_claims api p s)
  unfolding process_claims
  process_claims-Claimed s =
      (Ensures-bind (list-Held api "PersistentVolumeClaim" p)
          λ children. either children (contains (map (λ c. c.name) children) "churrodata") refl).at
        s tt
    where
      either :
          (children : List Object) (b : Bool)
          → contains (map (λ c. c.name) children) "churrodata" ≡ b
          → Ensures
              (Held api "PersistentVolumeClaim" p children)
              (if b then give tt else create_claim api p)
              (λ _. Claimed)
              (λ _. Unit)
      either children true e = Ensures-give tt λ t h. inl (
          listed_taken "PersistentVolumeClaim" p.namespace p.name "churrodata" t.objects
            (h "churrodata" e))
      either children false e =
          Ensures-weaken create_claim-There (λ t h. tt) (λ a t h. h) (λ t h. h)

  find-There :
      (kind name : String)
      → Ensures
          (λ _. Unit)
          (read (λ t. find_at kind p.namespace name t.objects) >>= λ found. found_or_fail found)
          (λ _. There kind p.namespace name)
          (λ _. Unit)
  unfolding read give fail ◌>>=◌
  find-There kind name = record { at = λ s h. go s (find_at kind p.namespace name s.objects) refl }
    where
      go :
          (s : World) (o : Option Object)
          → find_at kind p.namespace name s.objects ≡ o
          → Ends
              (λ _. There kind p.namespace name)
              (λ _. Unit)
              (found_or_fail (find_at kind p.namespace name s.objects) s)
      go s none e = rw e tt
      go s (some o) e = rw e (find_at-taken kind p.namespace name s.objects o e)

  found-There :
      (kind name : String)
      → Ensures
          (λ _. Unit)
          (get api kind p.namespace name)
          (λ _. There kind p.namespace name)
          (λ _. Unit)
  unfolding get
  found-There kind name = after_any _ λ _. find-There kind name

  unless_found-There :
      (kind name : String) (m : Action World (Unit {0}))
      → Ensures (λ _. Unit) m (λ _. There kind p.namespace name) (λ _. Unit)
      → Ensures
          (λ _. Unit)
          (unless_found api p kind name m)
          (λ _. There kind p.namespace name)
          (λ _. Unit)
  unfolding unless_found
  unless_found-There kind name m h =
      Ensures-rescue (found-There kind name) (λ s x. x) (λ e. h) (λ o. Ensures-give tt (λ s x. x))

  process_ctl-There :
      Ensures
        (λ _. Unit)
        (process_ctl api p)
        (λ _. There "Pod" p.namespace "churro-ctl")
        (λ _. Unit)
  unfolding process_ctl create_ctl
  process_ctl-There =
      unless_found-There "Pod" "churro-ctl" _
        (after_any _ λ t. after_any _ λ containers. create_owned-There _)

-- The databases that the operator knows.
abbrev pub supported : String → Bool
supported database = database == "cockroachdb" || (database == "mysql" || database == "singlestore")

module _ (api : Api) (req : NamespacedName) (p : Resource) where
  process_database-supported :
      Ensures
        (λ _. Unit)
        (process_database api req p)
        (λ _ _. supported p.database_type ≡ true)
        (λ _. Unit)
  unfolding process_database fail
  process_database-supported = elim (Bool-cases (p.database_type == "cockroachdb")) [
    | inl e ↦ Ensures-weaken (Ensures-any _) (λ s h. h) (λ a s h. ground arith) (λ s h. h)
    | inr e ↦ elim (Bool-cases (p.database_type == "mysql")) [
      | inl f ↦ Ensures-weaken (Ensures-any _) (λ s h. h) (λ a s h. ground arith) (λ s h. h)
      | inr f ↦ elim (Bool-cases (p.database_type == "singlestore")) [
        | inl g ↦ Ensures-weaken (Ensures-any _) (λ s h. h) (λ a s h. ground arith) (λ s h. h)
        | inr g ↦ record { at = λ s h. rw (e, f, g) tt }
      ]
    ]
  ]

  -- A custom resource that was processed without an error asks for a database that the operator
  -- knows, and the pod of its control service is there.
  pub process_pipeline-There :
      (s : World)
      → Ends
          (λ _ t. (supported p.database_type ≡ true) × There "Pod" p.namespace "churro-ctl" t)
          (λ _. Unit)
          (process_pipeline api req p s)
  unfolding process_pipeline
  process_pipeline-There s =
      (after_any _ λ _. after_any _ λ _. after_any _ λ _. after_any _ λ _. after_any _ λ _.
          after_any _ λ _. after_any _ λ _. after_any _ λ _. after_any _ λ _.
            Ensures-bind process_database-supported λ _. record {
              at = λ t ok.
                  (after_any _ λ _.
                      Ensures-weaken (process_ctl-There api p) (λ u h. h) (λ a u h. (ok, h))
                        (λ u h. h)).at
                    t tt;
            }).at
        s tt
