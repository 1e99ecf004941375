-- ===== src/Handlers/UserAdmin/Creates.antt =====
-- A new user of the page is a new profile of the directory.
use churro.Common.{Bool, List, ◌≢◌, false, String, [], ◌∷◌, ◌++◌, Option, ◌≡◌, ◌⊎◌}
use churro.Common.Action.{Outcome, returned}
use churro.Domain.{UserProfile}
use churro.Db.{Engine}
use churro.Db.Semantics.{Understands}
use churro.Db.Backends.{Backend, users_of}
use churro.Db.Directory.{Directory}
use churro.Db.Directory.Rows.{Holds}
use churro.Handlers.{Response, redirect, World, Web}

abbrev pub with_profile : UserProfile → Directory → Directory
with_profile u d = record d { profiles = d.profiles ++ (u ∷ []) }

-- The answer with which a step that fails ends the handler
abbrev pub IsRefusal : Outcome Response → Type 0
IsRefusal (returned (redirect _)) = ⊥
IsRefusal (returned _) = Unit
IsRefusal _ = ⊥

-- No field of the form is empty.
abbrev pub AllFilled : String → String → String → String → String → Type 0
AllFilled firstname lastname password email access =
    (firstname ≢ "") × (lastname ≢ "") × (password ≢ "") × (email ≢ "") × (access ≢ "")

-- None of the checks holds.
abbrev NoneHolds : List (Bool × String) → Type 0
NoneHolds [] = Unit
NoneHolds ((b, _) ∷ checks) = (b ≡ false) × NoneHolds checks

module _ (engine : Engine) (u : Understands engine) (b : Backend) (web : Web engine.State)
    (uses : (id : String) → web.users id ≡ users_of b engine id) where
  -- The profile is there and the page of the users follows, or a page with the error is shown, and
  -- nothing has changed, or the database made the profile and then gave the error.
  abbrev pub Creates : UserProfile → Directory → Outcome Response × World engine.State → Type 0
  Creates p d r =
      ((r.0 ≡ returned (redirect "/users")) × Holds (u.tables r.1.db) (with_profile p d))
      ⊎ (IsRefusal r.0 × (Holds (u.tables r.1.db) d ⊎ Holds (u.tables r.1.db) (with_profile p d)))

  -- As above, where the profile is only created under a condition
  abbrev pub CreatesIf :
      Type 0 → UserProfile → Directory → Outcome Response × World engine.State → Type 0
  CreatesIf Condition p d r =
      (((r.0 ≡ returned (redirect "/users")) × Holds (u.tables r.1.db) (with_profile p d))
        × Condition)
      ⊎ (IsRefusal r.0 × Holds (u.tables r.1.db) d)
      ⊎ ((IsRefusal r.0 × Holds (u.tables r.1.db) (with_profile p d)) × Condition)
