-- ===== src/Ctl/Requests/Invariant/Extensions.antt =====
-- The requests for extensions keep the form: they leave the other lists of the document alone.
use churro.Common.{ℕ, String, List, [], ◌∷◌, ◌++◌, ◌==◌, Bool-cases, inl, inr}
use churro.Common.Ensures.{
  Ensures, Ensures-bind, Ensures-weaken, Ensures-give, Ensures-refuse, Ensures-refuse_all,
}
use churro.Domain.{Extension}
use churro.Cluster.{Api, Pipeline, ExtensionDefinition, update}
use churro.Ctl.Rewriting.{rewrite_loop, rewrite_all}
use churro.Cluster.Specs.{update-Ensures}
use churro.Ctl.Extensions.{edit_extension, add_extension, change_extension, delete_extension}
use churro.Ctl.Requests.Invariant.{IsWellFormed, Kept, Held, Held-Stable, update-Kept, fetch-Held}

module _ (api : Api) where
  with_extensions :
      (calls : ℕ) (p : Pipeline) (l : List ExtensionDefinition)
      → IsWellFormed api calls p
      → IsWellFormed api calls (record p { extensions = l })
  with_extensions calls p l w = record {
    sources_distinct = w.sources_distinct;
    paths_distinct = w.paths_distinct;
    functions_distinct = w.functions_distinct;
    rules_distinct = w.rules_distinct;
    sources_undrawn = w.sources_undrawn;
    functions_undrawn = w.functions_undrawn;
    rules_undrawn = w.rules_undrawn;
  }

  send-Kept :
      (p : Pipeline) (l : List ExtensionDefinition)
      → Ensures (Held api p) (update api (record p { extensions = l })) (λ _. Kept api) (Kept api)
  send-Kept p l =
      update-Kept api _ (Held-Stable api p) (λ s h. h.1) (λ s h. with_extensions s.calls p l h.0)

  send-Held :
      (p : Pipeline) (l : List ExtensionDefinition)
      → Ensures (Held api p) (update api (record p { extensions = l })) (λ _. Held api p) (Kept api)
  send-Held p l =
      update-Ensures api _ (Held-Stable api p) (λ s h. h.1)
        (λ s h. (h.0, with_extensions s.calls p l h.0))

  pub add_extension-Kept :
      (x : Extension) → Ensures (Kept api) (add_extension api x) (λ _. Kept api) (Kept api)
  unfolding add_extension
  add_extension-Kept x =
      Ensures-bind {Q = λ _. Kept api} (Ensures-refuse_all _ (λ s w. w) (λ _ s w. w)) λ _.
        Ensures-bind (fetch-Held api)
          λ p. Ensures-bind (send-Kept p _) λ _. Ensures-give x.id (λ s w. w)

  pub delete_extension-Kept :
      (id : String) → Ensures (Kept api) (delete_extension api id) (λ _. Kept api) (Kept api)
  unfolding delete_extension
  delete_extension-Kept id = Ensures-bind (fetch-Held api) λ p.
      Ensures-bind {Q = λ _. Held api p} (Ensures-refuse _ _ (λ s h. h.1) (λ _ s h. h))
        λ _. send-Kept p _

  -- IDs may occur twice here, so the loop may send several documents.
  rewrite-Kept :
      (p : Pipeline) (f : Extension) (passed xs : List ExtensionDefinition)
      → Ensures
          (Held api p)
          (rewrite_loop
            (λ x. x.id)
            f.id
            (edit_extension f)
            (λ l. update api (record p { extensions = l }))
            passed
            xs)
          (λ _. Held api p)
          (Kept api)
  unfolding rewrite_loop
  rewrite-Kept p f passed [] = Ensures-give tt (λ s h. h)
  rewrite-Kept p f passed (x ∷ xs) = elim (Bool-cases (x.id == f.id)) [
    | inl e ↦
        rw (e, rewrite_loop)
          (Ensures-bind (send-Held p _)
            λ _. rewrite-Kept p f (passed ++ (edit_extension f x ∷ [])) xs)
    | inr e ↦ rw (e, rewrite_loop) (rewrite-Kept p f (passed ++ (x ∷ [])) xs)
  ]

  pub change_extension-Kept :
      (f : Extension) → Ensures (Kept api) (change_extension api f) (λ _. Kept api) (Kept api)
  unfolding change_extension rewrite_all
  change_extension-Kept f = Ensures-bind (fetch-Held api) λ p.
      Ensures-bind {Q = λ _. Held api p} (Ensures-refuse _ _ (λ s h. h.1) (λ _ s h. h))
        λ _. Ensures-weaken (rewrite-Kept p f [] p.extensions) (λ s h. h) (λ _ s h. h.1) (λ s h. h)
