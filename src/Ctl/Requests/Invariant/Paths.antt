-- ===== src/Ctl/Requests/Invariant/Paths.antt =====
-- The paths of the extract sources where one is added or edited.
use mathlib.Core.List.{map-append}
use churro.Common.{
  String, List, [], ◌∷◌, ◌++◌, map, ◌==◌, ◌≡◌, refl, ap, not, ◌&&◌, true, false, contains, ==_comm,
  Distinct, Distinct-snoc, Bool-cases, inl, inr, arith, eq_iff,
}
use churro.Domain.{ExtractSource}
use churro.Cluster.{ExtractSourceDefinition}
use churro.Ctl.Removal.Laws.{absent_behind}
use churro.Ctl.Rewriting.{edited}
use churro.Ctl.Rewriting.Laws.{edited-absent}
use churro.Ctl.Sources.{path_taken, edit_source, current_source, no_source}

abbrev pub paths : List ExtractSourceDefinition → List String
paths l = map (λ x. x.path) l

abbrev pub ids : List ExtractSourceDefinition → List String
ids l = map (λ x. x.id) l

pub added_paths :
    (l : List ExtractSourceDefinition) (x : ExtractSourceDefinition)
    → Distinct (paths l)
    → path_taken x.path l ≡ false
    → Distinct (paths (l ++ (x ∷ [])))
added_paths l x d h = rw map-append (Distinct-snoc (paths l) x.path d h)

-- Edits of a source's path, where no ID and no path occurs twice.
module _ (f : ExtractSource) where
  abbrev pub after : List ExtractSourceDefinition → List ExtractSourceDefinition
  after l = edited (λ x. x.id) f.id (edit_source f) l

  -- A path that is not in use and not the new one is not in use afterwards.
  after-fresh :
      (l : List ExtractSourceDefinition) (k : String)
      → contains (paths l) k ≡ false
      → (f.path == k) ≡ false
      → contains (paths (after l)) k ≡ false
  after-fresh [] k h ne = refl
  after-fresh (x ∷ l) k h ne = ground (arith, after-fresh l k)

  after-Distinct :
      (l : List ExtractSourceDefinition)
      → Distinct (ids l)
      → Distinct (paths l)
      → contains (paths l) f.path ≡ false
      → Distinct (paths (after l))
  after-Distinct [] d e h = tt
  after-Distinct (x ∷ l) d e h = elim (Bool-cases (x.id == f.id)) [
    | inl p ↦
        rw
          (
            p,
            edited-absent (λ x. x.id) f.id (edit_source f) l
                (absent_behind (λ x. x.id) f.id x l d.0 p),
          )
          (ground arith, e.1)
    | inr p ↦ rw p (
      after-fresh l x.path e.0 (ground (arith, eq_iff f.path x.path, eq_iff x.path f.path)),
      after-Distinct l d.1 e.1 (ground arith),
    )
  ]

  current_source-absent :
      (l : List ExtractSourceDefinition) (c : ExtractSourceDefinition)
      → contains (ids l) f.id ≡ false
      → current_source f.id l c ≡ c
  current_source-absent [] c h = refl
  current_source-absent (x ∷ l) c h =
      ground (arith, current_source-absent l c, eq_iff f.id x.id, eq_iff x.id f.id)

  -- The path that the handler compares with is that of the entry that it edits.
  after_same :
      (l : List ExtractSourceDefinition) (c : ExtractSourceDefinition)
      → Distinct (ids l)
      → contains (ids l) f.id ≡ true
      → (current_source f.id l c).path ≡ f.path
      → paths (after l) ≡ paths l
  after_same [] c d p h = refl
  after_same (x ∷ l) c d p h = elim (Bool-cases (x.id == f.id)) [
    | inl e ↦
        let absent = absent_behind (λ x. x.id) f.id x l d.0 e in
        rw (e, edited-absent (λ x. x.id) f.id (edit_source f) l absent)
          (ground (arith, current_source-absent l x absent, ==_comm f.id x.id))
    | inr e ↦ rw e (
        ap (λ r. x.path ∷ r)
          (after_same l c d.1 (ground arith) (ground (arith, ==_comm f.id x.id))))
  ]

  -- Behind the handler's test of the path, the edits leave no path twice.
  pub changed_paths :
      (l : List ExtractSourceDefinition)
      → Distinct (ids l)
      → Distinct (paths l)
      → (not ((current_source f.id l no_source).path == f.path) && path_taken f.path l) ≡ false
      → Distinct (paths (after l))
  changed_paths l d e h = elim (Bool-cases (contains (ids l) f.id)) [
    | inr absent ↦ rw (edited-absent (λ x. x.id) f.id (edit_source f) l absent) e
    | inl there ↦ elim (Bool-cases ((current_source f.id l no_source).path == f.path)) [
      | inl same ↦ rw (after_same l no_source d there ((eq_iff _ _).0 same)) e
      | inr other ↦ after-Distinct l d e (ground arith)
    ]
  ]
