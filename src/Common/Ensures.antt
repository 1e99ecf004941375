-- ===== src/Common/Ensures.antt =====
-- What an action ensures: from a state with `P` it returns a value with `Q`, or it ends in an error
-- or a panic with `E`. One rule for each way to build an action.
use Prim.Native.String.{String}
use mathlib.Core.Path.{◌≡◌, refl}
use mathlib.Core.Bool.{Bool, true, false}
use mathlib.Core.Option.{Option, none, some}
use mathlib.Core.List.{List}
use churro.Common.Tests.{if◌then◌else◌}
use churro.Common.Action.{
  Result, ok, err, Outcome, returned, failed, panicked, Action, give, panic, read, write, of_result,
  refuse, refuse_with, refuse_all, first_refusal, proceed, ◌>>=◌, ◌>>◌, resume, rescue,
}

module _ {S A : Type 0} where
  abbrev pub Ends : (A → S → Type 0) → (S → Type 0) → Outcome A × S → Type 0
  Ends Q E (returned a, t) = Q a t
  Ends Q E (failed e, t) = E t
  Ends Q E (panicked, t) = E t

  pub record Ensures (P : S → Type 0) (m : Action S A) (Q : A → S → Type 0) (E : S → Type 0)
      : Type 0 where
    pub at : (s : S) → P s → Ends Q E (m s)

module _ {S A : Type 0} {P : S → Type 0} {Q : A → S → Type 0} {E : S → Type 0} where
  pub Ensures-give : (a : A) → ((s : S) → P s → Q a s) → Ensures P (give a) Q E
  unfolding give
  Ensures-give a h = record { at = h }

  pub Ensures-panic : ((s : S) → P s → E s) → Ensures P panic Q E
  unfolding panic
  Ensures-panic h = record { at = h }

  pub Ensures-read : (f : S → A) → ((s : S) → P s → Q (f s) s) → Ensures P (read f) Q E
  unfolding read
  Ensures-read f h = record { at = h }

  pub Ensures-of_result :
      (r : Result A)
      → ((s : S) → P s → E s)
      → ((a : A) → r ≡ ok a → (s : S) → P s → Q a s)
      → Ensures P (of_result r) Q E
  unfolding of_result
  Ensures-of_result (ok a) e h = record { at = h a refl }
  Ensures-of_result (err x) e h = record { at = e }

  pub Ensures-if :
      (b : Bool) (m n : Action S A)
      → Ensures P m Q E
      → Ensures P n Q E
      → Ensures P (if b then m else n) Q E
  Ensures-if true m n h k = h
  Ensures-if false m n h k = k

  -- A weaker promise.
  pub Ensures-weaken :
      {m : Action S A} {P' : S → Type 0} {Q' : A → S → Type 0} {E' : S → Type 0}
      → Ensures P' m Q' E'
      → ((s : S) → P s → P' s)
      → ((a : A) (s : S) → Q' a s → Q a s)
      → ((s : S) → E' s → E s)
      → Ensures P m Q E
  Ensures-weaken {m = m} {Q' = Q'} {E' = E'} h p q e = record {
    at = λ s x. go (m s) (h.at s (p s x));
  }
    where
      go : (r : Outcome A × S) → Ends Q' E' r → Ends Q E r
      go (returned a, t) x = q a t x
      go (failed _, t) x = e t x
      go (panicked, t) x = e t x

module _ {S : Type 0} {P : S → Type 0} {Q : Unit {0} → S → Type 0} {E : S → Type 0} where
  pub Ensures-write : (f : S → S) → ((s : S) → P s → Q tt (f s)) → Ensures P (write f) Q E
  unfolding write
  Ensures-write f h = record { at = h }

  pub Ensures-refuse :
      (b : Bool) (x : String)
      → ((s : S) → P s → E s)
      → (b ≡ false → (s : S) → P s → Q tt s)
      → Ensures P (refuse b x) Q E
  unfolding refuse
  Ensures-refuse true x e h = record { at = e }
  Ensures-refuse false x e h = record { at = h refl }

  pub Ensures-refuse_with :
      (o : Option String)
      → ((s : S) → P s → E s)
      → (o ≡ none → (s : S) → P s → Q tt s)
      → Ensures P (refuse_with o) Q E
  unfolding refuse_with
  Ensures-refuse_with none e h = record { at = h refl }
  Ensures-refuse_with (some _) e h = record { at = e }

  pub Ensures-refuse_all :
      (checks : List (Bool × String))
      → ((s : S) → P s → E s)
      → (first_refusal checks ≡ none → (s : S) → P s → Q tt s)
      → Ensures P (refuse_all checks) Q E
  unfolding refuse_all
  Ensures-refuse_all checks e h = Ensures-refuse_with (first_refusal checks) e h

module _ {S A B : Type 0} {P : S → Type 0} {Q : A → S → Type 0} {R : B → S → Type 0}
    {E : S → Type 0} where
  pub Ensures-bind :
      {m : Action S A} {f : A → Action S B}
      → Ensures P m Q E
      → ((a : A) → Ensures (Q a) (f a) R E)
      → Ensures P (m >>= f) R E
  unfolding ◌>>=◌
  Ensures-bind {m} {f} h k = record { at = λ s x. go (m s) (h.at s x) }
    where
      go : (r : Outcome A × S) → Ends Q E r → Ends R E (proceed r.0 f r.1)
      go (returned a, t) x = (k a).at t x
      go (failed _, t) x = x
      go (panicked, t) x = x

  pub Ensures-rescue :
      {F : S → Type 0} {m : Action S A} {h : String → Action S B} {f : A → Action S B}
      → Ensures P m Q F
      → ((s : S) → F s → E s)
      → ((e : String) → Ensures F (h e) R E)
      → ((a : A) → Ensures (Q a) (f a) R E)
      → Ensures P (rescue m h f) R E
  unfolding rescue
  Ensures-rescue {F} {m} {h} {f} c stop l k = record { at = λ s x. go (m s) (c.at s x) }
    where
      go : (r : Outcome A × S) → Ends Q F r → Ends R E (resume r.0 h f r.1)
      go (returned a, t) x = (k a).at t x
      go (failed e, t) x = (l e).at t x
      go (panicked, t) x = stop t x

module _ {S A : Type 0} (P : S → Type 0) where
  -- Promised on every path, it holds of the state afterwards.
  pub Ends-always : (r : Outcome A × S) → Ends (λ _. P) P r → P r.1
  Ends-always (returned a, t) y = y
  Ends-always (failed _, t) y = y
  Ends-always (panicked, t) y = y

module _ {S A : Type 0} {P : S → Type 0} where
  pub Ensures-always : (m : Action S A) → Ensures P m (λ _. P) P → (s : S) → P s → P (m s).1
  Ensures-always m h s x = Ends-always P (m s) (h.at s x)

module _ {S A : Type 0} {P : S → Type 0} {Q : A → S → Type 0} {E : S → Type 0} where
  -- Behind an early return that was not taken.
  pub Ensures-refuse-then :
      (b : Bool) (x : String) {m : Action S A}
      → ((s : S) → P s → E s)
      → (b ≡ false → Ensures P m Q E)
      → Ensures P (refuse b x >> m) Q E
  unfolding ◌>>=◌
  Ensures-refuse-then true x stop h = record { at = stop }
  Ensures-refuse-then false x stop h = record { at = λ s y. (h refl).at s y }

  pub Ensures-refuse_with-then :
      (o : Option String) {m : Action S A}
      → ((s : S) → P s → E s)
      → (o ≡ none → Ensures P m Q E)
      → Ensures P (refuse_with o >> m) Q E
  unfolding ◌>>=◌
  Ensures-refuse_with-then none stop h = record { at = λ s y. (h refl).at s y }
  Ensures-refuse_with-then (some _) stop h = record { at = stop }

  pub Ensures-refuse_all-then :
      (checks : List (Bool × String)) {m : Action S A}
      → ((s : S) → P s → E s)
      → (first_refusal checks ≡ none → Ensures P m Q E)
      → Ensures P (refuse_all checks >> m) Q E
  unfolding refuse_all
  Ensures-refuse_all-then checks stop h = Ensures-refuse_with-then (first_refusal checks) stop h
