-- ===== src/Tests/Requests.antt =====
-- A run of the control service on the sample.
use Prim.Native.Char.{code}
use churro.Common.{
  ◌≢◌, ◌⊎◌, inl, inr, ◌==◌, Bool-cases, ap, ◌∙◌, eq_iff, ℕ, zero, suc, String, List, [], ◌∷◌, ◌≡◌,
  refl, false, contains, arith,
}
use churro.Common.Action.{ok}
use churro.Cluster.{Codec}
use churro.Ctl.Requests.{
  Outside, Request, create_source, delete_rule, get_sources, create_function, serve,
}
use churro.Ctl.Requests.Invariant.{IsWellFormed}
use churro.Ctl.Requests.Run.{serve-IsWellFormed}
use churro.Tests.Sample.{
  marks, marks-distinct, quiet, parsers, before, sales, returns, new_rule, lower, archive,
}

-- A codec that reads one value from any text.
abbrev reads : {A : Type 0} → A → Codec A
reads a = record { decode = λ _. ok a; encode = λ _. ok "" }

abbrev outside : Outside
outside = record {
  api = quiet;
  parsers = parsers;
  source = reads returns;
  sources = reads [];
  rule = reads new_rule;
  rules = reads [];
  function = reads lower;
  functions = reads [];
  extension = reads archive;
  extensions = reads [];
}

abbrev requests : List Request
requests =
    create_source "{}"
    ∷ create_source "{}"
    ∷ delete_rule "r1"
    ∷ create_function "{}"
    ∷ get_sources
    ∷ []

first : String → ℕ
first String.[] = 0
first (String.◌∷◌ c s) = code c

first-marks : (n : ℕ) → (first (marks n) ≡ 0) ⊎ (first (marks n) ≡ 120)
unfolding first
first-marks zero = inl refl
first-marks (suc n) = inr refl

-- A text that begins with another sign than the drawn IDs is none of them.
unmarked :
    (k : String) → first k ≢ 0 → first k ≢ 120 → (n : ℕ) → contains (k ∷ []) (marks n) ≡ false
unmarked k h g n = elim (Bool-cases (k == marks n)) [
  | inr e ↦ ground (arith, e)
  | inl e ↦
      let same = ap first ((eq_iff k (marks n)).0 e) in
      absurd (elim (first-marks n) [ inl z ↦ h (same ∙ z) | inr z ↦ g (same ∙ z) ])
]

before-IsWellFormed : IsWellFormed quiet 0 sales
unfolding first
before-IsWellFormed = record {
  sources_distinct = (refl, tt);
  paths_distinct = (refl, tt);
  rules_distinct = (refl, tt);
  functions_distinct = (refl, tt);
  sources_undrawn = λ n _. unmarked "s1" (λ e. omega (arith, e)) (λ e. omega (arith, e)) n;
  rules_undrawn = λ n _. unmarked "r1" (λ e. omega (arith, e)) (λ e. omega (arith, e)) n;
  functions_undrawn = λ n _. unmarked "f1" (λ e. omega (arith, e)) (λ e. omega (arith, e)) n;
}

serve-IsWellFormed_example :
    IsWellFormed quiet
      (serve outside requests before).calls
      (serve outside requests before).pipeline
serve-IsWellFormed_example =
    serve-IsWellFormed outside requests before marks-distinct before-IsWellFormed
