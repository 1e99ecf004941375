-- ===== src/Operator/Ensure.antt =====
-- internal/operator/rbac.go, service.go, policy.go: the steps that every group of owned objects goes
-- through. List the children, find out which are missing, and create those one by one.
pub mod Children
pub mod Laws
use churro.Common.{String, List, [], ◌∷◌, map, Option, none, some, ◌==◌, if◌then◌else◌, contains}
use churro.Common.Action.{Action, Result, ok, err, give, of_result, rescue, ◌>>=◌, ◌>>◌}
use churro.Operator.{Api, World, Object, list, create}

-- `ctrl.SetControllerReference`: an object has one controller.
abbrev pub set_owner : String → Object → Result Object
set_owner owner o = elim o.owner [
  | none ↦ ok (record o { owner = some owner })
  | some q ↦ if q == owner then ok o else err "already owned by another controller"
]

-- The wanted objects whose name no child has.
abbrev pub missing : List Object → List Object → List Object
missing children [] = []
missing children (o ∷ wanted) =
    let rest = missing children wanted in
    if contains (map (λ c. c.name) children) o.name then rest else o ∷ rest

module _ (api : Api) where
  -- `SetControllerReference` and `Create`
  unfoldable pub create_owned : String → Object → Action World (Unit {0})
  unfolding create
  create_owned owner o = do mine ← of_result (set_owner owner o); create api mine

  unfoldable pub create_all : String → List Object → Action World (Unit {0})
  unfolding create_owned
  create_all owner [] = give tt
  create_all owner (o ∷ l) = do create_owned owner o; create_all owner l

  unfoldable pub ensure : String → String → String → List Object → Action World (Unit {0})
  unfolding list create_all
  ensure kind namespace owner wanted = do
    children ← list api kind namespace owner
    create_all owner (missing children wanted)

-- The code writes the error to the log and goes on.
unfoldable pub logged : {A : Type 0} → Action World A → Action World (Unit {0})
unfolding rescue
logged m = rescue m (λ e. give tt) (λ _. give tt)
