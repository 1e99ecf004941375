-- ===== src/Handlers/Rules/Keeping.antt =====
-- The pages of a rule, which only read, keep what the reads of the control service keep.
use churro.Common.{String, ◌≡◌, refl}
use churro.Common.Action.{Result, ok, err, of_result, ◌>>=◌}
use churro.Common.Keeps.{Keeps, Keeps-give, Keeps-bind, Keeps-of_result}
use churro.Handlers.{Request, var}
use churro.Handlers.Pages.{Wrapper}
use churro.Handlers.Pages.Keeping.{Keeps-or_else-result, Keeps-or_else}
use churro.Handlers.Rules.{
  RuleWeb, Client, list_functions, show_create_extract_rule, show_error, extract_rule,
}

module _ {C : Type 0} (service : RuleWeb C) (P : C → Type 0) where
  -- The reads of a control service that can be connected to keep the predicate.
  pub record Reading : Type 0 where
    pub rule :
        (name : String) (c : Client C)
        → service.connect name ≡ ok c
        → (id : String) → Keeps P (c.get_extract_rule id)
    pub source :
        (name : String) (c : Client C)
        → service.connect name ≡ ok c
        → (id : String) → Keeps P (c.get_extract_source id)
    pub functions :
        (name : String) (c : Client C)
        → service.connect name ≡ ok c
        → Keeps P c.get_transform_functions

  module _ (reading : Reading) where
    list_functions-Keeps : (name : String) → Keeps P (list_functions service name)
    unfolding list_functions of_result ◌>>=◌
    list_functions-Keeps name = bound (service.connect name) refl
      where
        bound :
            (x : Result (Client C))
            → service.connect name ≡ x
            → Keeps P (
                of_result x >>= λ c. c.get_transform_functions >>= λ text.
                of_result (service.functions_codec.decode text))
        bound (ok c) h = record {
          ensures = record {
            at =
                (Keeps-bind _ (λ text. of_result (service.functions_codec.decode text))
                  (reading.functions name c h) (λ text. Keeps-of_result _)).ensures.at;
          };
        }
        bound (err e) h = record { ensures = record { at = λ s x. x } }

    show_error-Keeps : (u : Wrapper) (r : Request) (e : String) → Keeps P (show_error service u r e)
    unfolding show_error show_create_extract_rule
    show_error-Keeps u r e =
        Keeps-or_else-result _ _ _ (λ x. Keeps-give _)
          λ name _.
            Keeps-or_else _ _ _ (list_functions-Keeps name) (λ x. Keeps-give _)
              λ functions.
                Keeps-or_else-result _ _ _ (λ x. Keeps-give _)
                  λ c reached.
                    Keeps-or_else _ _ _ (reading.source name c reached (var "extractsourceid" r))
                      (λ x. Keeps-give _)
                      λ text.
                        Keeps-or_else-result _ _ _ (λ x. Keeps-give _)
                          λ source _.
                            Keeps-or_else-result _ _ _ (λ x. Keeps-give _) λ _ _. Keeps-give _

    pub extract_rule-Keeps : (u : Wrapper) (r : Request) → Keeps P (extract_rule service u r)
    unfolding extract_rule
    extract_rule-Keeps u r =
        Keeps-or_else-result _ _ _ (λ x. Keeps-give _)
          λ name _. Keeps-or_else-result _ _ _ fails λ c reached.
            Keeps-or_else _ _ _ (reading.source name c reached (var "extractsourceid" r)) fails
              λ text. Keeps-or_else-result _ _ _ fails λ source _.
                Keeps-or_else _ _ _ (reading.rule name c reached (var "rid" r)) fails λ answer.
                  Keeps-or_else-result _ _ _ fails λ rule _.
                    Keeps-or_else _ _ _ (list_functions-Keeps name) fails
                      λ functions. Keeps-or_else-result _ _ _ fails λ _ _. Keeps-give _
      where
        fails : (e : String) → Keeps P (show_error service u r e)
        fails e = show_error-Keeps u r e
