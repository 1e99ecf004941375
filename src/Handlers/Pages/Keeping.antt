-- ===== src/Handlers/Pages/Keeping.antt =====
-- internal/handlers: predicates of the state that the steps of a page keep.
use churro.Common.{String, Option, none, some, ◌≡◌, refl}
use churro.Common.Action.{Result, ok, err, Action, of_result, give, panic, rescue, ◌>>=◌}
use churro.Common.Ensures.{Ensures, Ensures-rescue}
use churro.Common.Keeps.{Keeps, Keeps-rescue}
use churro.Handlers.{form_value}
use churro.Handlers.Pages.{Reply, or_else}

module _ {C A : Type 0} {P : C → Type 0} where
  -- What follows knows the value.
  pub Keeps-form_value :
      (o : Option String) (f : String → Action C A)
      → ((v : String) → o ≡ some v → Keeps P (f v))
      → Keeps P (form_value o >>= f)
  unfolding give panic ◌>>=◌
  Keeps-form_value none f k = record { ensures = record { at = λ s h. h } }
  Keeps-form_value (some v) f k = record { ensures = record { at = (k v refl).ensures.at } }

module _ {C F : Type 0} {P : C → Type 0} where
  pub Keeps-or_else-result :
      {A : Type 0} (x : Result A) (h : String → Action C (Reply F)) (f : A → Action C (Reply F))
      → ((e : String) → Keeps P (h e))
      → ((a : A) → x ≡ ok a → Keeps P (f a))
      → Keeps P (or_else (of_result x) h f)
  unfolding or_else rescue of_result
  Keeps-or_else-result (ok a) h f k l = record { ensures = record { at = (l a refl).ensures.at } }
  Keeps-or_else-result (err e) h f k l = record { ensures = record { at = (k e).ensures.at } }

  pub Keeps-or_else :
      {A : Type 0} (m : Action C A) (h : String → Action C (Reply F)) (f : A → Action C (Reply F))
      → Keeps P m
      → ((e : String) → Keeps P (h e))
      → ((a : A) → Keeps P (f a))
      → Keeps P (or_else m h f)
  unfolding or_else
  Keeps-or_else m h f c k l = Keeps-rescue m h f c k l

  -- What follows knows a fact of the value.
  pub Keeps-or_else-knowing :
      {A : Type 0} {Fact : A → Type 0} {m : Action C A} {h : String → Action C (Reply F)}
      {f : A → Action C (Reply F)}
      → Ensures P m (λ a s. P s × Fact a) P
      → ((e : String) → Keeps P (h e))
      → ((a : A) → Fact a → Keeps P (f a))
      → Keeps P (or_else m h f)
  unfolding or_else
  Keeps-or_else-knowing c k l = record {
    ensures =
        Ensures-rescue c (λ s x. x) (λ e. (k e).ensures)
          (λ a. record { at = λ s x. (l a x.1).ensures.at s x.0 });
  }
