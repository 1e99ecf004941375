-- ===== src/Db/Directory/Refines.antt =====
-- A back end whose calls run the statement of their command refines the directory.
use mathlib.Core.Path.{subst}
use mathlib.Core.List.{Permᴰ}
use churro.Common.{String, List, [], ◌∷◌, ◌≡◌, ◌⊎◌, refl, sym, inl, inr}
use churro.Common.Action.{Outcome, returned, failed, panicked, err}
use churro.Db.{Engine, Users, Rows, no_rows}
use churro.Db.Semantics.{after, delivered, Understands}
use churro.Db.Directory.{
  Directory, Command, Answer, perform, perform_all, carried_out, Refused, Empty, Allows, Leads,
  stay, go,
}
use churro.Db.Directory.Rows.{Holds}
use churro.Db.Directory.Steps.{Ended}
use churro.Db.Directory.Effects.{statement_of, answer_of, after-Holds}
use churro.Db.Directory.Answering.{answer_of-Answers}

module _ (engine : Engine) (u : Understands engine) where
  open engine use {State}
  open u use {tables, same}

  -- The command ends as its statement does.
  abbrev pub EndsAs : String → Command → State → Outcome Answer × State → Type 0
  EndsAs new_id c s r =
      Ended engine u (after same (statement_of new_id c)) (delivered same (statement_of new_id c))
        (answer_of c) s r

  -- The call of each command that is safe ends so.
  abbrev pub Lawful : (String → Users State) → (Command → Type 0) → Type 0
  Lawful b Safe =
      (new_id : String) (c : Command)
      → Safe c
      → (s : State) → EndsAs new_id c s (perform (b new_id) c s)

  -- What the directory may become with the outcome.
  abbrev pub Becomes : String → Command → Directory → Outcome Answer × State → Type 0
  Becomes new_id c d r =
      (d' : Directory) × (Holds (tables r.1) d' × Allows engine same new_id c d r.0 d')

  -- Why a command failed
  reason :
      (new_id : String) (c : Command) (s : State) (d : Directory) (e : String)
      → Holds (tables s) d
      → Refused engine e
        ⊎ ((rows : Rows) × (Permᴰ rows (delivered same (statement_of new_id c) (tables s))
              × (answer_of c rows ≡ err e)))
      → Refused engine e ⊎ ((e ≡ no_rows) × Empty same c d)
  reason new_id c s d e holds (inl refused) = inl refused
  reason new_id c s d e holds (inr (rows, (q, h))) =
      inr ((answer_of-Answers same (tables s) d holds new_id c).1 rows e q h)

  pub EndsAs-Becomes :
      (new_id : String) (c : Command) (s : State) (d : Directory) (r : Outcome Answer × State)
      → Holds (tables s) d
      → EndsAs new_id c s r
      → Becomes new_id c d r
  EndsAs-Becomes new_id c s d (returned answer, s') holds (p, (rows, (rest, (q, h)))) = (
    carried_out same new_id c d,
    (
      subst (λ t. Holds t (carried_out same new_id c d)) (sym p)
          (after-Holds same new_id c (tables s) d holds),
      (refl, (answer_of-Answers same (tables s) d holds new_id c).0 rows rest answer q h),
    ),
  )
  EndsAs-Becomes new_id c s d (failed e, s') holds (inl p, why) =
      (d, (subst (λ t. Holds t d) (sym p) holds, (inl refl, reason new_id c s d e holds why)))
  EndsAs-Becomes new_id c s d (failed e, s') holds (inr p, why) = (
    carried_out same new_id c d,
    (
      subst (λ t. Holds t (carried_out same new_id c d)) (sym p)
          (after-Holds same new_id c (tables s) d holds),
      (inr refl, reason new_id c s d e holds why),
    ),
  )
  EndsAs-Becomes new_id c s d (panicked, s') holds h = absurd h

  abbrev pub AllSafe : (Command → Type 0) → List (String × Command) → Type 0
  AllSafe Safe [] = Unit
  AllSafe Safe ((_, c) ∷ l) = Safe c × AllSafe Safe l

  pub perform_all-Leads :
      (b : String → Users State) (Safe : Command → Type 0)
      → Lawful b Safe
      → (l : List (String × Command)) (s : State) (d : Directory) → AllSafe Safe l
      → Holds (tables s) d
      → (d' : Directory) × (Holds (tables (perform_all b l s)) d' × Leads engine same l d d')
  unfolding perform_all
  perform_all-Leads b Safe lawful [] s d safe holds = (d, (holds, stay))
  perform_all-Leads b Safe lawful ((id, c) ∷ l) s d (safe, rest) holds =
      let (d', (h, a)) = EndsAs-Becomes id c s d (perform (b id) c s) holds (lawful id c safe s) in
      let (d'', (k, leads)) = perform_all-Leads b Safe lawful l (perform (b id) c s).1 d' rest h in
      (d'', (k, go (perform (b id) c s).0 a leads))
