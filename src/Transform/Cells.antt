-- ===== src/Transform/Cells.antt =====
-- Which cells of a record the transform functions change.
use mathlib.Core.Option.{some-injective}
use churro.Common.{
  ℕ, zero, suc, ◌+◌, true, false, String, List, [], ◌∷◌, Option, none, some, ◌==◌, ◌≡◌, ◌≢◌, refl,
  ◌∙◌, get_elem?, set, length, length-set, contains, arith, eq_iff, eq_refl, ap, sym, if◌then◌else◌,
  ◌⊎◌, Bool-cases, inl, inr,
}
use churro.Common.Action.{Outcome, returned, failed, panicked, Action, fail}
use churro.Common.Ensures.{
  Ensures, Ensures-bind, Ensures-give, Ensures-panic, Ensures-read, Ensures-write,
  Ensures-of_result, Ensures-refuse_with, Ensures-always,
}
use churro.Domain.{ExtractRule, TransformFunction}
use churro.Transform.{
  Cells, Interpreter, text_or_panic, of_outcome, value_or_panic, text_at, locate, apply_rule,
  has_no_function, run_rule, run_rules,
}

get_elem?-set :
    {A : Type 0} (l : List A) (i j : ℕ) (v : A) → i ≢ j → get_elem? (set l i v) j ≡ get_elem? l j
get_elem?-set [] i j v h = refl
get_elem?-set (x ∷ l) zero zero v h = absurd (h refl)
get_elem?-set (x ∷ l) zero (suc j) v h = refl
get_elem?-set (x ∷ l) (suc i) zero v h = refl
get_elem?-set (x ∷ l) (suc i) (suc j) v h = get_elem?-set l i j v (λ e. h (omega (arith, e)))

-- The index that the search ends at, without the record.
abbrev pub located : List String → String → ℕ → ℕ → ℕ
located [] name i found = found
located (c ∷ cols) name i found = located cols name (suc i) (if c == name then i else found)

located-absent :
    (cols : List String) (name : String) (i found : ℕ)
    → contains cols name ≡ false
    → located cols name i found ≡ found
located-absent [] name i found h = refl
located-absent (c ∷ cols) name i found h = ground (arith, located-absent cols name (suc i) found)

-- A column of that name stands at that index, if there is one.
located-present :
    (cols : List String) (name : String) (i found : ℕ)
    → contains cols name ≡ true
    → (k : ℕ) × (located cols name i found ≡ i + k) × (get_elem? cols k ≡ some name)
located-present [] name i found h = ground arith
located-present (c ∷ cols) name i found h = elim (Bool-cases (contains cols name)) [
  | inl t ↦
      let (k, e, g) = located-present cols name (suc i) (if c == name then i else found) t in
      (suc k, omega (arith, e), g)
  | inr f ↦
      let here = (eq_iff c name).0 (ground arith) in
      (
        0,
        located-absent cols name (suc i) _ f ∙ rw (here, eq_refl name) (omega arith),
        ap some here,
      )
]

module _ (P : Cells → Type 0) where
  of_outcome-Ensures : {A : Type 0} (o : Outcome A) → Ensures P (of_outcome o) (λ _. P) P
  unfolding fail
  of_outcome-Ensures (returned a) = Ensures-give a (λ s h. h)
  of_outcome-Ensures (failed e) = record { at = λ s h. h }
  of_outcome-Ensures panicked = Ensures-panic (λ s h. h)

  text_or_panic-Ensures : (v : Option (Option String)) → Ensures P (text_or_panic v) (λ _. P) P
  text_or_panic-Ensures none = Ensures-panic (λ s h. h)
  text_or_panic-Ensures (some none) = Ensures-panic (λ s h. h)
  text_or_panic-Ensures (some (some t)) = Ensures-give t (λ s h. h)

  value_or_panic-Ensures : (v : Option String) → Ensures P (value_or_panic v) (λ _. P) P
  value_or_panic-Ensures none = Ensures-panic (λ s h. h)
  value_or_panic-Ensures (some t) = Ensures-give t (λ s h. h)

  text_at-Ensures : (i : ℕ) → Ensures P (text_at i) (λ _. P) P
  unfolding text_at
  text_at-Ensures i = Ensures-bind {Q = λ _. P} (Ensures-read _ (λ s h. h)) text_or_panic-Ensures

  locate-Ensures :
      (cols : List String) (name : String) (i found : ℕ)
      → Ensures P (locate cols name i found) (λ k s. P s × (k ≡ located cols name i found)) P
  unfolding locate
  locate-Ensures [] name i found = Ensures-give found (λ s h. (h, refl))
  locate-Ensures (c ∷ cols) name i found = elim (Bool-cases (c == name)) [
    | inl e ↦
        rw (e, locate) (Ensures-bind (text_at-Ensures i) (λ _. locate-Ensures cols name (suc i) i))
    | inr e ↦ rw (e, locate) (locate-Ensures cols name (suc i) found)
  ]

  module _ (interp : Interpreter) (cols : List String) (functions : List TransformFunction) where
    -- A write to the cell of the rule's column keeps the property, if the rule has a function.
    abbrev Harmless : ExtractRule → Type 0
    Harmless rule =
        has_no_function interp cols functions rule ≡ false
        → (s : Cells) (v : String) → P s
        → P (set s (located cols rule.column_name 0 0) (some v))

    apply_rule-Ensures :
        (rule : ExtractRule)
        → ((s : Cells) (v : String) → P s → P (set s (located cols rule.column_name 0 0) (some v)))
        → Ensures P (apply_rule interp cols functions rule) (λ _. P) P
    unfolding apply_rule
    apply_rule-Ensures rule keep = Ensures-bind (locate-Ensures cols rule.column_name 0 0) λ i.
        assuming i (λ e.
          Ensures-bind {Q = λ _. P} (Ensures-of_result _ (λ s h. h) (λ _ _ s h. h)) λ fn.
            Ensures-bind {Q = λ _. P} (Ensures-refuse_with _ (λ s h. h) (λ _ s h. h)) λ _.
              Ensures-bind (of_outcome-Ensures _) λ f. Ensures-bind (text_at-Ensures i) λ t.
                Ensures-bind (value_or_panic-Ensures (f t))
                  λ v. Ensures-write _ (λ s h. rw e (keep s v h)))
      where
        assuming :
            {m : Action Cells (Unit {0})} (i : ℕ)
            → (i ≡ located cols rule.column_name 0 0 → Ensures P m (λ _. P) P)
            → Ensures (λ s. P s × (i ≡ located cols rule.column_name 0 0)) m (λ _. P) P
        assuming i h = record { at = λ s x. (h x.1).at s x.0 }

    run_rule-Ensures :
        (rule : ExtractRule)
        → Harmless rule
        → Ensures P (run_rule interp cols functions rule) (λ _. P) P
    unfolding run_rule
    run_rule-Ensures rule keep = elim (Bool-cases (has_no_function interp cols functions rule)) [
      | inl e ↦ rw e (Ensures-give tt (λ s h. h))
      | inr e ↦ rw e (apply_rule-Ensures rule (keep e))
    ]

    abbrev AllHarmless : List ExtractRule → Type 0
    AllHarmless [] = Unit
    AllHarmless (rule ∷ rules) = Harmless rule × AllHarmless rules

    run_rules-Ensures :
        (rules : List ExtractRule)
        → AllHarmless rules
        → Ensures P (run_rules interp cols functions rules) (λ _. P) P
    unfolding run_rules
    run_rules-Ensures [] h = Ensures-give tt (λ s h. h)
    run_rules-Ensures (rule ∷ rules) h =
        Ensures-bind (run_rule-Ensures rule h.0) (λ _. run_rules-Ensures rules h.1)

module _ (interp : Interpreter) (cols : List String) (functions : List TransformFunction) where
  -- Each rule with a function names a column that is there and has another name than this one.
  abbrev pub Spares : String → List ExtractRule → Type 0
  Spares name [] = Unit
  Spares name (rule ∷ rules) =
      (has_no_function interp cols functions rule ≡ true
        ⊎ ((contains cols rule.column_name ≡ true) × (rule.column_name ≢ name)))
      × Spares name rules

-- The rules change no cell but those of the columns that they name, also on an error or a panic: the
-- cell at `j` stays, if each rule with a function names a column that is there and is not named as
-- the column at `j` is.
pub run_rules-Spares :
    (interp : Interpreter) (cols : List String) (functions : List TransformFunction)
    (rules : List ExtractRule) (name : String) (j : ℕ) (s : Cells)
    → get_elem? cols j ≡ some name
    → Spares interp cols functions name rules
    → get_elem? (run_rules interp cols functions rules s).1 j ≡ get_elem? s j
run_rules-Spares interp cols functions rules name j s at spares =
    Ensures-always _
      (run_rules-Ensures (λ t. get_elem? t j ≡ get_elem? s j) interp cols functions rules
        (all rules spares))
      s refl
  where
    elsewhere :
        (rule : ExtractRule)
        → contains cols rule.column_name ≡ true
        → rule.column_name ≢ name
        → located cols rule.column_name 0 0 ≢ j
    elsewhere rule there ne e =
        let (k, f, g) = located-present cols rule.column_name 0 0 there in
        let same : k ≡ j = omega (arith, e, f) in
        ne (some-injective _ _ (sym g ∙ ap (get_elem? cols) same ∙ at))

    all :
        (l : List ExtractRule)
        → Spares interp cols functions name l
        → AllHarmless (λ t. get_elem? t j ≡ get_elem? s j) interp cols functions l
    all [] _ = tt
    all (rule ∷ l) (inl idle, rest) = (λ e t v h. ground (arith, e, idle), all l rest)
    all (rule ∷ l) (inr (there, ne), rest) =
        (λ e t v h. get_elem?-set t _ j (some v) (elsewhere rule there ne) ∙ h, all l rest)

-- The rules keep the number of cells, also on an error or a panic.
pub length-run_rules :
    (interp : Interpreter) (cols : List String) (functions : List TransformFunction)
    (rules : List ExtractRule) (s : Cells)
    → length (run_rules interp cols functions rules s).1 ≡ length s
length-run_rules interp cols functions rules s =
    Ensures-always _
      (run_rules-Ensures (λ t. length t ≡ length s) interp cols functions rules (all rules)) s refl
  where
    all : (l : List ExtractRule) → AllHarmless (λ t. length t ≡ length s) interp cols functions l
    all [] = tt
    all (rule ∷ l) = (λ _ t v h. length-set t _ (some v) ∙ h, all l)
