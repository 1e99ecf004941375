-- ===== src/Cluster/Specs.antt =====
-- What the shared calls ensure, for a property of the state that another outside call keeps.
use churro.Common.{suc, Bool, String, Option, none, some}
use churro.Common.Action.{returned, failed, give, panic, rescue}
use churro.Common.Ensures.{
  Ends, Ensures, Ensures-give, Ensures-panic, Ensures-read, Ensures-write, Ensures-bind,
  Ensures-rescue,
}
use churro.Cluster.{
  Api, Cluster, Pipeline, Pod, Call, kube_client, pipeline_client, get_pipeline, update_pipeline,
  list_pods, delete_pod, remove_pod, attempt, fresh, fetch, update, get_pipeline_or_panic,
  list_selected, delete_pod_named,
}

-- One more outside call keeps the property.
abbrev pub Stable : (Cluster → Type 0) → Type 0
Stable P = (s : Cluster) → P s → P (record s { calls = suc s.calls })

abbrev pub Sub : (Cluster → Type 0) → (Cluster → Type 0) → Type 0
Sub P E = (s : Cluster) → P s → E s

module _ (api : Api) {P : Cluster → Type 0} {E : Cluster → Type 0} where
  pub attempt-Ensures : (c : Call) → Stable P → Sub P E → Ensures P (attempt api c) (λ _. P) E
  unfolding attempt
  attempt-Ensures c keep sub = record { at = λ s h. go s (api.fails c s.calls) (keep s h) }
    where
      go :
          (s : Cluster) (o : Option String)
          → P (record s { calls = suc s.calls })
          → Ends
              (λ (_ : Unit {0}). P)
              E
              (elim o [
                | none ↦ (returned tt, record s { calls = suc s.calls })
                | some e ↦ (failed e, record s { calls = suc s.calls })
              ])
      go s none h = h
      go s (some e) h = sub _ h

  pub fetch-Ensures :
      {Q : Pipeline → Cluster → Type 0}
      → Stable P
      → Sub P E
      → ((s : Cluster) → P s → Q s.pipeline s)
      → Ensures P (fetch api) Q E
  unfolding fetch
  fetch-Ensures keep sub got = Ensures-bind (attempt-Ensures kube_client keep sub) λ _.
      Ensures-bind (attempt-Ensures pipeline_client keep sub)
        λ _. Ensures-bind (attempt-Ensures get_pipeline keep sub) λ _. Ensures-read _ got

  pub get_pipeline_or_panic-Ensures :
      Stable P → Sub P E → Ensures P (get_pipeline_or_panic api) (λ _. P) E
  unfolding get_pipeline_or_panic
  get_pipeline_or_panic-Ensures keep sub = Ensures-bind (required kube_client) λ _.
      Ensures-bind (required pipeline_client)
        λ _. Ensures-bind (attempt-Ensures get_pipeline keep sub) λ _. Ensures-read _ (λ s h. h)
    where
      required : (c : Call) → Ensures P (rescue (attempt api c) (λ e. panic) give) (λ _. P) E
      required c =
          Ensures-rescue (attempt-Ensures c keep sub) (λ s h. h) (λ e. Ensures-panic (λ s h. h))
            (λ a. Ensures-give a (λ s h. h))

  pub list_selected-Ensures :
      (selector : Pod → Bool)
      → Stable P
      → Sub P E
      → Ensures P (list_selected api selector) (λ _. P) E
  unfolding list_selected
  list_selected-Ensures selector keep sub =
      Ensures-bind (attempt-Ensures list_pods keep sub) λ _. Ensures-read _ (λ s h. h)

  pub delete_pod_named-Ensures :
      (namespace name : String)
      → Stable P
      → Sub P E
      → ((s : Cluster) → P s → P (record s { pods = remove_pod namespace name s.pods }))
      → Ensures P (delete_pod_named api namespace name) (λ _. P) E
  unfolding delete_pod_named
  delete_pod_named-Ensures namespace name keep sub gone =
      Ensures-bind (attempt-Ensures (delete_pod name) keep sub) λ _. Ensures-write _ gone

module _ (api : Api) {P : Cluster → Type 0} {E : Cluster → Type 0} where
  pub fresh-Ensures :
      {Q : String → Cluster → Type 0}
      → ((s : Cluster) → P s → Q (api.new_id s.calls) (record s { calls = suc s.calls }))
      → Ensures P (fresh api) Q E
  unfolding fresh
  fresh-Ensures h = record { at = h }

  pub update-Ensures :
      {Q : Unit {0} → Cluster → Type 0} (p : Pipeline)
      → Stable P
      → Sub P E
      → ((s : Cluster) → P s → Q tt (record s { pipeline = p }))
      → Ensures P (update api p) Q E
  unfolding update
  update-Ensures p keep sub h =
      Ensures-bind (attempt-Ensures api update_pipeline keep sub) λ _. Ensures-write _ h
