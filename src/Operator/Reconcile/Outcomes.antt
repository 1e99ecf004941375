-- ===== src/Operator/Reconcile/Outcomes.antt =====
-- What one reconciliation ends in: which namespaces it deletes, which pod stands after a success, and
-- which ID and credentials the custom resource has.
use churro.Common.{
  suc, String, List, [], ◌∷◌, ◌++◌, Option, none, some, Bool, true, false, ◌≡◌, refl, ◌==◌,
  Bool-cases, inl, inr, if◌then◌else◌,
}
use churro.Common.Action.{give, fail, read, write, rescue, ◌>>=◌}
use churro.Common.Keeps.{Keeps-after}
use churro.Operator.{Api, World, Resource, get_object, delete_namespace, resource_at, attempt}
use churro.Operator.Objects.Lasting.{Lasting}
use churro.Operator.Init.{NamespacedName}
use churro.Operator.Reconcile.{process_cr, get_pipeline_object, clean_up}
use churro.Operator.Reconcile.Invariants.{init_database-Keeps}
use churro.Operator.Reconcile.Lasting.{process_pipeline-Keeps}

-- The read of the custom resource gives one.
abbrev pub readable : Api → NamespacedName → World → Bool
readable api req s = elim (api.fails (get_object "Pipeline") s.calls) [
  | some e ↦ false
  | none ↦ elim (resource_at req.namespace req.name s.resource) [ none ↦ false | some p ↦ true ]
]

-- The next call deletes the namespace of the request, if it does not fail.
abbrev pub cleaned : Api → NamespacedName → World → List String
cleaned api req s = elim (api.fails delete_namespace (suc s.calls)) [
  | none ↦ s.deleted ++ (req.namespace ∷ [])
  | some e ↦ s.deleted
]

abbrev Deleted : List String → World → Type 0
Deleted l s = s.deleted ≡ l

Deleted-Lasting : (l : List String) → Lasting (Deleted l)
Deleted-Lasting l = record { called = λ s h. h; created = λ s o h free. h; stored = λ s p h. h }

module _ (api : Api) (req : NamespacedName) (s : World) where
  clean_up-deleted :
      (e : String)
      → (clean_up api req e (record s { calls = suc s.calls })).1.deleted ≡ cleaned api req s
  unfolding clean_up attempt write give fail ◌>>=◌
  clean_up-deleted e = go (api.fails delete_namespace (suc s.calls)) refl
    where
      go :
          (o : Option String)
          → api.fails delete_namespace (suc s.calls) ≡ o
          → (clean_up api req e (record s { calls = suc s.calls })).1.deleted ≡ cleaned api req s
      go (some x) q = rw (q, attempt, cleaned) refl
      go none q = elim (Bool-cases (e == "not found")) [
        | inl b ↦ rw (q, b, attempt, cleaned) refl
        | inr b ↦ rw (q, b, attempt, cleaned) refl
      ]

  -- A reconciliation deletes the namespace of its request exactly when the read of the custom
  -- resource gives none, because there is none or because the call failed, and the delete call does
  -- not fail.
  pub process_cr-deleted :
      (process_cr api req s).1.deleted
      ≡ (if readable api req s then s.deleted else cleaned api req s)
  unfolding process_cr get_pipeline_object attempt read rescue fail give ◌>>=◌
  process_cr-deleted = go (api.fails (get_object "Pipeline") s.calls) refl
    where
      here :
          (found : Option Resource)
          → api.fails (get_object "Pipeline") s.calls ≡ none
          → resource_at req.namespace req.name s.resource ≡ found
          → (process_cr api req s).1.deleted
            ≡ (if readable api req s then s.deleted else cleaned api req s)
      here none q f = rw (q, f, attempt, readable) (clean_up-deleted "not found")
      here (some p) q f =
          rw (q, f, attempt, readable)
            (Keeps-after _
              (process_pipeline-Keeps api (Deleted-Lasting s.deleted) p
                (init_database-Keeps api (Deleted-Lasting s.deleted) (λ t h. h) p) req)
              (record s { calls = suc s.calls }) refl)

      go :
          (o : Option String)
          → api.fails (get_object "Pipeline") s.calls ≡ o
          → (process_cr api req s).1.deleted
            ≡ (if readable api req s then s.deleted else cleaned api req s)
      go (some e) q = rw (q, attempt, readable) (clean_up-deleted e)
      go none q = here (resource_at req.namespace req.name s.resource) q refl
