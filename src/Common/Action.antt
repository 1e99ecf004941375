-- ===== src/Common/Action.antt =====
-- Handlers that change a state, return an error value or panic. What was written before an error
-- stays written, so the state comes back on every path.
use Prim.Native.String.{String}
use mathlib.Core.Bool.{Bool, true, false}
use mathlib.Core.Option.{Option, none, some}
use mathlib.Core.List.{List, [], ◌∷◌}
use churro.Common.Tests.{if◌then◌else◌}

-- A call of code outside the repository: its value or its error's text.
pub data Result {ℓ} (A : Type ℓ) : Type ℓ where
  ok : A → Result A
  err : String → Result A

-- How a handler ends: a value, an error value, or a run-time panic.
pub data Outcome {ℓ} (A : Type ℓ) : Type ℓ where
  returned : A → Outcome A
  failed : String → Outcome A
  panicked : Outcome A

abbrev pub Action {ℓ} : Type ℓ → Type ℓ → Type ℓ
Action S A = S → Outcome A × S

module _ {ℓ} {S A : Type ℓ} where
  unfoldable pub give : A → Action S A
  give a s = (returned a, s)

  unfoldable pub fail : String → Action S A
  fail e s = (failed e, s)

  unfoldable pub panic : Action S A
  panic s = (panicked, s)

  unfoldable pub read : (S → A) → Action S A
  read f s = (returned (f s), s)

  unfoldable pub of_result : Result A → Action S A
  of_result (ok a) s = (returned a, s)
  of_result (err e) s = (failed e, s)

unfoldable pub write {ℓ} : {S : Type ℓ} → (S → S) → Action S (Unit {ℓ})
write f s = (returned tt, f s)

-- An early return with an error if the test holds.
unfoldable pub refuse {ℓ} : {S : Type ℓ} → Bool → String → Action S (Unit {ℓ})
refuse true e s = (failed e, s)
refuse false e s = (returned tt, s)

-- The error of the first check of a row that holds.
abbrev pub first_refusal : List (Bool × String) → Option String
first_refusal [] = none
first_refusal ((b, e) ∷ checks) = let rest = first_refusal checks in if b then some e else rest

-- An early return with the error of a check, if it has one.
unfoldable pub refuse_with {ℓ} : {S : Type ℓ} → Option String → Action S (Unit {ℓ})
refuse_with none s = (returned tt, s)
refuse_with (some e) s = (failed e, s)

-- A row of early returns.
unfoldable pub refuse_all {ℓ} : {S : Type ℓ} → List (Bool × String) → Action S (Unit {ℓ})
unfolding refuse_with
refuse_all checks = refuse_with (first_refusal checks)

module _ {ℓ} {S A B : Type ℓ} where
  abbrev pub proceed : Outcome A → (A → Action S B) → Action S B
  proceed (returned a) f s = f a s
  proceed (failed e) f s = (failed e, s)
  proceed panicked f s = (panicked, s)

  abbrev pub resume : Outcome A → (String → Action S B) → (A → Action S B) → Action S B
  resume (returned a) h f s = f a s
  resume (failed e) h f s = h e s
  resume panicked h f s = (panicked, s)

  -- The code looks at the error and goes on.
  unfoldable pub rescue : Action S A → (String → Action S B) → (A → Action S B) → Action S B
  rescue m h f s = let (o, t) = m s in resume o h f t

  -- Opening this opens the ways to build an action too.
  infixl 10 ◌>>=◌ ◌>>◌
  unfoldable pub ◌>>=◌ : Action S A → (A → Action S B) → Action S B
  unfolding give fail panic read of_result write refuse refuse_with refuse_all rescue
  ◌>>=◌ m f s = let (o, t) = m s in proceed o f t

  abbrev pub ◌>>◌ : Action S A → Action S B → Action S B
  m >> n = m >>= λ _. n
