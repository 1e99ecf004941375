-- ===== src/Operator/Ui/Laws.antt =====
-- The steps of the reconciliation of a user interface: what they keep, and that none of their errors
-- comes out.
use churro.Common.{Option}
use churro.Common.Action.{
  Action, Outcome, returned, failed, panicked, give, rescue, resume, proceed, ◌>>=◌, ◌>>◌,
}
use churro.Common.Keeps.{
  Keeps, Keeps-bind, Keeps-if, Keeps-give, Keeps-fail, Keeps-rescue, keeps_rules,
}
use churro.Operator.{Api, World, Object, Pairs, Churroui}
use churro.Operator.Ensure.{logged}
use churro.Operator.Objects.Lasting.{Lasting, lasting_rules, logged-Keeps, found_or_fail-Keeps}
use churro.Operator.Init.{NamespacedName}
use churro.Operator.Reconcile.Lasting.{
  get_default_class-Keeps, create_in_modes-Keeps, map_of-Keeps, add_env-Keeps,
}
use churro.Operator.Ui.{
  ensure_cluster, process_ui_accounts, process_ui_roles, process_ui_bindings, process_ui_service,
  ui_requests, create_ui_claim, process_ui_claims, create_ui_deployment, process_ui_deployment,
  process_churroui, get_churroui, process_ui_cr,
}

module _ (api : Api) {P : World → Type 0} (lasting : Lasting P) where
  ensure_cluster-Keeps : (o : Object) → Keeps P (ensure_cluster api o)
  unfolding ensure_cluster
  ensure_cluster-Keeps o = search lasting_rules

  module _ (u : Churroui) where
    process_ui_accounts-Keeps : Keeps P (process_ui_accounts api u)
    unfolding process_ui_accounts
    process_ui_accounts-Keeps = search lasting_rules

    process_ui_roles-Keeps : Keeps P (process_ui_roles api u)
    unfolding process_ui_roles
    process_ui_roles-Keeps = ensure_cluster-Keeps _

    process_ui_bindings-Keeps : Keeps P (process_ui_bindings api u)
    unfolding process_ui_bindings
    process_ui_bindings-Keeps = ensure_cluster-Keeps _

    process_ui_service-Keeps : Keeps P (process_ui_service api u)
    unfolding process_ui_service
    process_ui_service-Keeps = search lasting_rules

    ui_requests-Keeps : (o : Option Pairs) → Keeps P (ui_requests api u o)
    unfolding ui_requests
    ui_requests-Keeps o = search (keeps_rules, map_of-Keeps)

    create_ui_claim-Keeps : Keeps P (create_ui_claim api u)
    unfolding create_ui_claim
    create_ui_claim-Keeps =
        search (keeps_rules, get_default_class-Keeps, ui_requests-Keeps, create_in_modes-Keeps)

    process_ui_claims-Keeps : Keeps P (process_ui_claims api u)
    unfolding process_ui_claims
    process_ui_claims-Keeps = search (lasting_rules, create_ui_claim-Keeps)

    create_ui_deployment-Keeps : Keeps P (create_ui_deployment api u)
    unfolding create_ui_deployment
    create_ui_deployment-Keeps = search (lasting_rules, add_env-Keeps)

    process_ui_deployment-Keeps : Keeps P (process_ui_deployment api u)
    unfolding process_ui_deployment
    process_ui_deployment-Keeps = search (lasting_rules, create_ui_deployment-Keeps)

    process_churroui-Keeps : Keeps P (process_churroui api u)
    unfolding process_churroui
    process_churroui-Keeps = Keeps-bind _ _ (logged-Keeps _ process_ui_accounts-Keeps) λ _.
        Keeps-bind _ _ (logged-Keeps _ process_ui_roles-Keeps) λ _.
          Keeps-bind _ _ (logged-Keeps _ process_ui_bindings-Keeps) λ _.
            Keeps-bind _ _ (logged-Keeps _ process_ui_service-Keeps) λ _.
              Keeps-bind _ _ (logged-Keeps _ process_ui_claims-Keeps)
                λ _. Keeps-bind _ _ (logged-Keeps _ process_ui_deployment-Keeps) λ _. Keeps-give tt

  get_churroui-Keeps : (req : NamespacedName) → Keeps P (get_churroui api req)
  unfolding get_churroui
  get_churroui-Keeps req = search (lasting_rules, found_or_fail-Keeps)

  pub process_ui_cr-Keeps : (req : NamespacedName) → Keeps P (process_ui_cr api req)
  unfolding process_ui_cr
  process_ui_cr-Keeps req =
      Keeps-rescue _ _ _ (get_churroui-Keeps req)
        (λ e. Keeps-if _ _ _ (Keeps-give tt) (Keeps-fail e)) process_churroui-Keeps

-- It returned a value or panicked.
abbrev pub Unfailed : {A : Type 0} → Outcome A → Type 0
Unfailed (returned a) = Unit
Unfailed (failed e) = ⊥
Unfailed panicked = Unit

logged-Unfailed : {A : Type 0} (m : Action World A) (s : World) → Unfailed (logged m s).0
unfolding logged rescue give
logged-Unfailed {A} m s = go (m s)
  where
    go : (r : Outcome A × World) → Unfailed (resume r.0 (λ _. give tt) (λ _. give tt) r.1).0
    go (returned a, t) = tt
    go (failed e, t) = tt
    go (panicked, t) = tt

bind-Unfailed :
    {A B : Type 0} (m : Action World A) (f : A → Action World B) (s : World)
    → Unfailed (m s).0
    → ((a : A) (t : World) → Unfailed (f a t).0)
    → Unfailed ((m >>= f) s).0
unfolding ◌>>=◌
bind-Unfailed {A} m f s h k = go (m s) h
  where
    go : (r : Outcome A × World) → Unfailed r.0 → Unfailed (proceed r.0 f r.1).0
    go (returned a, t) x = k a t
    go (failed e, t) x = x
    go (panicked, t) x = tt

logged-then-Unfailed :
    {A : Type 0} (m : Action World A) (n : Action World (Unit {0}))
    → ((s : World) → Unfailed (n s).0)
    → (s : World) → Unfailed ((logged m >> n) s).0
logged-then-Unfailed m n k s = bind-Unfailed (logged m) _ s (logged-Unfailed m s) (λ _ t. k t)

-- The processing of the custom resource of a user interface returns or panics, never with an error,
-- whatever fails in its steps.
pub process_churroui-Unfailed :
    (api : Api) (u : Churroui) (s : World) → Unfailed (process_churroui api u s).0
unfolding process_churroui give
process_churroui-Unfailed api u s =
    logged-then-Unfailed _ _
      (logged-then-Unfailed _ _ (
        logged-then-Unfailed _ _ (
          logged-then-Unfailed _ _
            (logged-then-Unfailed _ _ (logged-then-Unfailed _ _ (λ t. tt))))))
      s
