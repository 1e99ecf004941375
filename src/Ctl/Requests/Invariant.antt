-- ===== src/Ctl/Requests/Invariant.antt =====
-- The form that the stored document keeps: no ID occurs twice among the extract sources, the rules
-- and the functions, no path occurs twice, and no ID that is still to be drawn is in use. The IDs
-- of extensions come from the clients and are not part of it.
pub mod Paths
pub mod Sources
pub mod Rules
pub mod Functions
pub mod Extensions
pub mod Reads
use mathlib.Core.List.{map-append}
use churro.Common.{
  ℕ, suc, ◌≤◌, String, List, [], ◌∷◌, ◌++◌, map, ◌==◌, ◌≡◌, refl, ◌∙◌, ap, true, false, contains,
  contains-append, Distinct, Distinct-snoc, Bool-cases, inl, inr, arith, eq_iff,
}
use churro.Common.Action.{Action}
use churro.Common.Ensures.{Ensures, Ensures-weaken}
use churro.Ctl.Removal.{delete_entry}
use churro.Ctl.Removal.Laws.{delete_entry-without, without-Distinct, without-fresh}
use churro.Ctl.Rewriting.{edited}
use churro.Ctl.Rewriting.Laws.{map-edited}
use churro.Cluster.{
  Api, Cluster, Pipeline, ExtractSourceDefinition, ExtractRuleDefinition, FunctionDefinition, fresh,
  fetch, update,
}
use churro.Cluster.Specs.{Stable, Sub, fresh-Ensures, fetch-Ensures, update-Ensures}

abbrev pub source_ids : Pipeline → List String
source_ids p = map (λ x. x.id) p.extractsources

abbrev pub source_paths : Pipeline → List String
source_paths p = map (λ x. x.path) p.extractsources

abbrev pub rule_ids : Pipeline → List String
rule_ids p = map (λ x. x.id) p.extractrules

abbrev pub function_ids : Pipeline → List String
function_ids p = map (λ x. x.id) p.functions

-- No ID that is drawn from the `calls`-th call on is in the list.
abbrev pub Undrawn : Api → ℕ → List String → Type 0
Undrawn api calls l = (n : ℕ) → calls ≤ n → contains l (api.new_id n) ≡ false

-- `xid` draws no ID twice.
abbrev pub DrawsDistinct : Api → Type 0
DrawsDistinct api = (i j : ℕ) → api.new_id i ≡ api.new_id j → i ≡ j

pub record IsWellFormed (api : Api) (calls : ℕ) (p : Pipeline) : Type 0 where
  pub sources_distinct : Distinct (source_ids p)
  pub paths_distinct : Distinct (source_paths p)
  pub rules_distinct : Distinct (rule_ids p)
  pub functions_distinct : Distinct (function_ids p)
  pub sources_undrawn : Undrawn api calls (source_ids p)
  pub rules_undrawn : Undrawn api calls (rule_ids p)
  pub functions_undrawn : Undrawn api calls (function_ids p)

-- An ID that was drawn: it is not in the list, and it is not drawn again.
pub record IsNew (api : Api) (id : String) (l : List String) (calls : ℕ) : Type 0 where
  pub absent : contains l id ≡ false
  pub later : (n : ℕ) → calls ≤ n → (id == api.new_id n) ≡ false

module _ (api : Api) where
  -- The stored document has the form.
  abbrev pub Kept : Cluster → Type 0
  Kept s = IsWellFormed api s.calls s.pipeline

  -- So has the document at hand.
  abbrev pub Held : Pipeline → Cluster → Type 0
  Held p s = IsWellFormed api s.calls p × Kept s

  -- An ID that is not in that list of the document at hand was drawn.
  abbrev pub Drawn : (Pipeline → List String) → Pipeline → String → Cluster → Type 0
  Drawn ids p id s = Held p s × IsNew api id (ids p) s.calls

  IsWellFormed-suc :
      (calls : ℕ) (p : Pipeline) → IsWellFormed api calls p → IsWellFormed api (suc calls) p
  IsWellFormed-suc calls p w = record {
    sources_distinct = w.sources_distinct;
    paths_distinct = w.paths_distinct;
    rules_distinct = w.rules_distinct;
    functions_distinct = w.functions_distinct;
    sources_undrawn = λ n h. w.sources_undrawn n (omega arith);
    rules_undrawn = λ n h. w.rules_undrawn n (omega arith);
    functions_undrawn = λ n h. w.functions_undrawn n (omega arith);
  }

  pub Kept-Stable : Stable Kept
  Kept-Stable s w = IsWellFormed-suc s.calls s.pipeline w

  pub Held-Stable : (p : Pipeline) → Stable (Held p)
  Held-Stable p s (w, k) = (IsWellFormed-suc s.calls p w, Kept-Stable s k)

  pub IsNew-suc :
      (id : String) (l : List String) (calls : ℕ)
      → IsNew api id l calls
      → IsNew api id l (suc calls)
  IsNew-suc id l calls f = record { absent = f.absent; later = λ n h. f.later n (omega arith) }

  pub Drawn-Stable :
      (ids : Pipeline → List String) (p : Pipeline) (id : String) → Stable (Drawn ids p id)
  Drawn-Stable ids p id s (h, f) = (Held-Stable p s h, IsNew-suc id (ids p) s.calls f)

  -- The IDs of one list of the document.
  abbrev pub Fits : {A : Type 0} → (A → String) → ℕ → List A → Type 0
  Fits key calls l = Distinct (map key l) × Undrawn api calls (map key l)

  module _ {A : Type 0} (key : A → String) (calls : ℕ) (l : List A) where
    pub Fits-snoc :
        (x : A)
        → Fits key calls l
        → IsNew api (key x) (map key l) calls
        → Fits key calls (l ++ (x ∷ []))
    Fits-snoc x (d, u) f = rw map-append (
      Distinct-snoc (map key l) (key x) d f.absent,
      λ n h.
          rw (contains-append (map key l) (key x ∷ []) (api.new_id n))
            (ground (arith, u n h, f.later n h)),
    )

    pub Fits-delete : (id : String) → Fits key calls l → Fits key calls (delete_entry key id l).0
    Fits-delete id (d, u) =
        rw (delete_entry-without key id l d) (
          without-Distinct key id key l d,
          λ n h. without-fresh key id key l (api.new_id n) (u n h),
        )

    pub Fits-edited :
        (id : String) (edit : A → A)
        → ((x : A) → key (edit x) ≡ key x)
        → Fits key calls l
        → Fits key calls (edited key id edit l)
    Fits-edited id edit same f = rw (map-edited key id edit same l) f

  module _ (distinct : DrawsDistinct api) where
    pub fresh-IsNew :
        (calls : ℕ) (l : List String)
        → Undrawn api calls l
        → IsNew api (api.new_id calls) l (suc calls)
    fresh-IsNew calls l u = record {
      absent = u calls (omega arith);
      later = λ n h. elim (Bool-cases (api.new_id calls == api.new_id n)) [
        | inr e ↦ e
        | inl e ↦ absurd (omega (arith, distinct calls n ((eq_iff _ _).0 e)))
      ];
    }

    pub fresh-Drawn :
        (ids : Pipeline → List String) (p : Pipeline) {E : Cluster → Type 0}
        → ((calls : ℕ) → IsWellFormed api calls p → Undrawn api calls (ids p))
        → Ensures (Held p) (fresh api) (Drawn ids p) E
    fresh-Drawn ids p undrawn =
        fresh-Ensures api
          λ s h. (Held-Stable p s h, fresh-IsNew s.calls (ids p) (undrawn s.calls h.0))

  -- An update with a document of the form, and the reading of one.
  pub update-Kept :
      {P : Cluster → Type 0} (p : Pipeline)
      → Stable P
      → Sub P Kept
      → ((s : Cluster) → P s → IsWellFormed api s.calls p)
      → Ensures P (update api p) (λ _. Kept) Kept
  update-Kept p keep sub h = update-Ensures api p keep sub h

  pub fetch-Held : Ensures Kept (fetch api) Held Kept
  fetch-Held = fetch-Ensures api Kept-Stable (λ s w. w) (λ s w. (w, w))

  -- An ID that is not in that list of the stored document was drawn.
  abbrev pub New : (Pipeline → List String) → String → Cluster → Type 0
  New ids id s = Kept s × IsNew api id (ids s.pipeline) s.calls

  pub New-Stable : (ids : Pipeline → List String) (id : String) → Stable (New ids id)
  New-Stable ids id s (k, f) = (Kept-Stable s k, IsNew-suc id (ids s.pipeline) s.calls f)

  pub fetch-Drawn :
      (ids : Pipeline → List String) (id : String)
      → Ensures (New ids id) (fetch api) (λ p. Drawn ids p id) Kept
  fetch-Drawn ids id = fetch-Ensures api (New-Stable ids id) (λ s h. h.0) (λ s h. ((h.0, h.0), h.1))

  pub fresh-New :
      DrawsDistinct api
      → (ids : Pipeline → List String)
      → ((calls : ℕ) (p : Pipeline) → IsWellFormed api calls p → Undrawn api calls (ids p))
      → Ensures Kept (fresh api) (New ids) Kept
  fresh-New distinct ids undrawn = fresh-Ensures api λ s w. (
    Kept-Stable s w,
    fresh-IsNew distinct s.calls (ids s.pipeline) (undrawn s.calls s.pipeline w),
  )
