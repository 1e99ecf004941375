-- ===== src/Ctl/Rewriting.antt =====
-- The loop of the update handlers of internal/ctl: every entry of the request's ID is edited in
-- the document at hand, and the whole document is sent after each edit.
pub mod Laws
use churro.Common.{String, true, false, List, [], ◌∷◌, ◌++◌, ◌==◌, if◌then◌else◌}
use churro.Common.Action.{Action, give, ◌>>=◌, ◌>>◌}

module _ {A : Type 0} (key : A → String) (id : String) (edit : A → A) where
  module _ {S : Type 0} (send : List A → Action S (Unit {0})) where
    -- The entries that were passed, and those to come.
    unfoldable pub rewrite_loop : List A → List A → Action S (Unit {0})
    rewrite_loop passed [] = give tt
    rewrite_loop passed (x ∷ rest) = elim (key x == id) [
      | true ↦ do send (passed ++ (edit x ∷ rest)); rewrite_loop (passed ++ (edit x ∷ [])) rest
      | false ↦ rewrite_loop (passed ++ (x ∷ [])) rest
    ]

    unfoldable pub rewrite_all : List A → Action S (Unit {0})
    unfolding rewrite_loop
    rewrite_all = rewrite_loop []

  -- The entries after the edits.
  abbrev pub edited : List A → List A
  edited [] = []
  edited (x ∷ xs) = (if key x == id then edit x else x) ∷ edited xs
