-- ===== src/Common/Keeps.antt =====
-- Predicates that an action leaves true on every path, with the rules for each way to build an
-- action as a set for `search`.
use Prim.Native.String.{String}
use mathlib.Core.Bool.{Bool, true, false}
use mathlib.Core.Option.{Option}
use churro.Common.Tests.{if◌then◌else◌}
use churro.Common.Action.{
  Result, Action, give, fail, panic, read, of_result, refuse, refuse_with, ◌>>=◌, rescue,
}
use churro.Common.Ensures.{
  Ensures, Ensures-give, Ensures-panic, Ensures-read, Ensures-of_result, Ensures-refuse,
  Ensures-refuse_with, Ensures-bind, Ensures-rescue, Ensures-always,
}

pub record Keeps {S A : Type 0} (P : S → Type 0) (m : Action S A) : Type 0 where
  pub ensures : Ensures P m (λ _. P) P

module _ {S A : Type 0} {P : S → Type 0} where
  pub Keeps-give : (a : A) → Keeps P (give a)
  Keeps-give a = record { ensures = Ensures-give a (λ s h. h) }

  pub Keeps-fail : (e : String) → Keeps P (fail {A = A} e)
  unfolding fail
  Keeps-fail e = record { ensures = record { at = λ s h. h } }

  pub Keeps-panic : Keeps P (panic {A = A})
  Keeps-panic = record { ensures = Ensures-panic (λ s h. h) }

  pub Keeps-read : (f : S → A) → Keeps P (read f)
  Keeps-read f = record { ensures = Ensures-read f (λ s h. h) }

  pub Keeps-of_result : (r : Result A) → Keeps P (of_result r)
  Keeps-of_result r = record { ensures = Ensures-of_result r (λ s h. h) (λ a e s h. h) }

  pub Keeps-if :
      (b : Bool) (m n : Action S A) → Keeps P m → Keeps P n → Keeps P (if b then m else n)
  Keeps-if true m n h k = h
  Keeps-if false m n h k = k

  -- The state afterwards.
  pub Keeps-after : (m : Action S A) → Keeps P m → (s : S) → P s → P (m s).1
  Keeps-after m h = Ensures-always m h.ensures

module _ {S : Type 0} {P : S → Type 0} where
  pub Keeps-refuse : (b : Bool) (e : String) → Keeps P (refuse b e)
  Keeps-refuse b e = record { ensures = Ensures-refuse b e (λ s h. h) (λ _ s h. h) }

  pub Keeps-refuse_with : (o : Option String) → Keeps P (refuse_with o)
  Keeps-refuse_with o = record { ensures = Ensures-refuse_with o (λ s h. h) (λ _ s h. h) }

module _ {S A B : Type 0} {P : S → Type 0} where
  pub Keeps-bind :
      (m : Action S A) (f : A → Action S B)
      → Keeps P m
      → ((a : A) → Keeps P (f a))
      → Keeps P (m >>= f)
  Keeps-bind m f h k = record { ensures = Ensures-bind h.ensures (λ a. (k a).ensures) }

  pub Keeps-rescue :
      (m : Action S A) (h : String → Action S B) (f : A → Action S B)
      → Keeps P m
      → ((e : String) → Keeps P (h e))
      → ((a : A) → Keeps P (f a))
      → Keeps P (rescue m h f)
  Keeps-rescue m h f c l k = record {
    ensures = Ensures-rescue c.ensures (λ s x. x) (λ e. (l e).ensures) (λ a. (k a).ensures);
  }

pub ruleset keeps_rules = (
  Keeps-give, Keeps-fail, Keeps-panic, Keeps-read, Keeps-of_result, Keeps-if, Keeps-refuse,
  Keeps-refuse_with, Keeps-bind, Keeps-rescue,
)
