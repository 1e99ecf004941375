-- ===== src/Ctl/Extensions/Specs.antt =====
-- What the requests that change the extensions do to the stored document, whatever outside calls
-- fail. The IDs are the clients', so nothing keeps two extensions from having one.
use churro.Common.{String, List, [], ◌∷◌, ◌++◌, map, none, ◌≡◌, refl, ◌∙◌, Distinct, true, false}
use churro.Common.Action.{first_refusal}
use churro.Common.Ensures.{
  Ends, Ends-always, Ensures-bind, Ensures-give, Ensures-weaken, Ensures-refuse-then,
  Ensures-refuse_all-then,
}
use churro.Domain.{Extension}
use churro.Cluster.{Api, Cluster, ExtensionDefinition}
use churro.Cluster.Document.{Ensures-fetch-then, update-Stored}
use churro.Ctl.Removal.{has}
use churro.Ctl.Removal.Laws.{delete_entry_twin, has_inside}
use churro.Ctl.Rewriting.{edited}
use churro.Ctl.Rewriting.Laws.{Ensures-rewrite_all, edited-absent}
use churro.Ctl.Extensions.{
  checks, extension_definition, edit_extension, add_extension, change_extension, delete_extension,
}

-- Creating an extension: on success the request has passed the checks, its own ID is the answer, and
-- the stored document has gained the extension as the last, also where the ID was in use; on an error
-- it is the old one.
pub add_extension_lem :
    (api : Api) (x : Extension) (s : Cluster)
    → Ends
        (λ id t.
          (first_refusal (checks x) ≡ none)
          × (id ≡ x.id)
          × (t.pipeline ≡ record s.pipeline {
            extensions = s.pipeline.extensions ++ (extension_definition x ∷ []);
          }))
        (λ t. t.pipeline ≡ s.pipeline)
        (add_extension api x s)
unfolding add_extension
add_extension_lem api x s =
    (Ensures-refuse_all-then _ (λ t h. h)
        λ passed.
          Ensures-fetch-then api s.pipeline _ (λ t h. h)
            (Ensures-bind (update-Stored api s.pipeline _ (λ t h. h))
              λ _. Ensures-give x.id (λ t h. (passed, refl, h)))).at
      s refl

-- Deleting an extension, where the first two extensions of that ID stand side by side in the stored
-- document: the request may succeed, but an extension of that ID is there afterwards on every path.
pub delete_extension_twin :
    (api : Api) (id : String) (s : Cluster) (before behind : List ExtensionDefinition)
    (x y : ExtensionDefinition)
    → s.pipeline.extensions ≡ before ++ (x ∷ y ∷ behind)
    → has (λ x. x.id) id before ≡ false
    → x.id ≡ id
    → y.id ≡ id
    → has (λ x. x.id) id (delete_extension api id s).1.pipeline.extensions ≡ true
unfolding delete_extension
delete_extension_twin api id s before behind x y e single p q =
    let d = s.pipeline in
    Ends-always (λ t. has (λ x. x.id) id t.pipeline.extensions ≡ true) (delete_extension api id s)
      ((Ensures-fetch-then api d _ there (
          Ensures-refuse-then _ _ there λ _.
            Ensures-weaken (update-Stored api d _ (λ t h. h)) (λ t h. h)
              (λ _ t h. rw (h, e) (delete_entry_twin (λ x. x.id) id before x y behind single p q))
              there)).at
        s refl)
  where
    there :
        (t : Cluster) → t.pipeline ≡ s.pipeline → has (λ x. x.id) id t.pipeline.extensions ≡ true
    there t h = rw (h, e) (has_inside (λ x. x.id) id before x (y ∷ behind) p)

-- Updating an extension, where no extension's ID occurs twice: on success the extension of the
-- request's ID has the request's name and path in the stored document, which is otherwise the old
-- one; on an error it is the old one.
pub change_extension_lem :
    (api : Api) (f : Extension) (s : Cluster)
    → Distinct (map (λ x. x.id) s.pipeline.extensions)
    → Ends
        (λ _ t. t.pipeline ≡ record s.pipeline {
          extensions = edited (λ x. x.id) f.id (edit_extension f) s.pipeline.extensions;
        })
        (λ t. t.pipeline ≡ s.pipeline)
        (change_extension api f s)
unfolding change_extension
change_extension_lem api f s d =
    let p = s.pipeline in
    (Ensures-fetch-then api p _ (λ t h. h)
        (Ensures-refuse-then _ _ (λ t h. h)
          λ _.
            Ensures-rewrite_all (λ x. x.id) f.id (edit_extension f) _ p.extensions (λ t h. d)
              (λ gone t h.
                h ∙ rw (edited-absent (λ x. x.id) f.id (edit_extension f) p.extensions gone))
              (update-Stored api p _ (λ t h. h)))).at
      s refl
