-- ===== src/Ctl/Rewriting/Laws.antt =====
-- What the rewriting loop sends.
use mathlib.Core.List.{append_assoc}
use churro.Common.{Bool}
use churro.Common.{
  true, false, String, List, [], ◌∷◌, ◌++◌, map, ◌==◌, ◌≡◌, refl, ◌∙◌, Distinct, if◌then◌else◌,
  Bool-cases, inl, inr, arith,
}
use churro.Common.Action.{Action, Outcome, returned, failed, panicked, proceed, give, ◌>>=◌}
use churro.Common.Ensures.{Ends, Ensures}
use churro.Ctl.Removal.{has}
use churro.Ctl.Removal.Laws.{absent_behind}
use churro.Ctl.Rewriting.{rewrite_loop, rewrite_all, edited}

-- A second step that does nothing can be left out.
proceed-idle :
    {S : Type 0} (r : Outcome (Unit {0}) × S) (f : Action S (Unit {0}))
    → ((s : S) → f s ≡ (returned tt, s))
    → proceed r.0 (λ _. f) r.1 ≡ r
proceed-idle (returned tt, t) f idle = idle t
proceed-idle (failed e, t) f idle = refl
proceed-idle (panicked, t) f idle = refl

module _ {A : Type 0} (key : A → String) (id : String) (edit : A → A) where
  pub edited-absent : (xs : List A) → has key id xs ≡ false → edited key id edit xs ≡ xs
  edited-absent [] h = refl
  edited-absent (x ∷ xs) h = ground (arith, edited-absent xs)

  -- An edit that leaves the key alone keeps all keys.
  pub map-edited :
      ((x : A) → key (edit x) ≡ key x)
      → (xs : List A) → map key (edited key id edit xs) ≡ map key xs
  map-edited same [] = refl
  map-edited same (x ∷ xs) = ground (arith, same x, map-edited same xs)

  module _ {S : Type 0} (send : List A → Action S (Unit {0})) where
    rewrite_loop-absent :
        (passed xs : List A) (s : S)
        → has key id xs ≡ false
        → rewrite_loop key id edit send passed xs s ≡ (returned tt, s)
    unfolding rewrite_loop give ◌>>=◌
    rewrite_loop-absent passed [] s h = refl
    rewrite_loop-absent passed (x ∷ xs) s h = elim (Bool-cases (key x == id)) [
      | inl e ↦ ground arith
      | inr e ↦ rw (e, rewrite_loop) (rewrite_loop-absent (passed ++ (x ∷ [])) xs s (ground arith))
    ]

    rewrite_loop-hit :
        (passed xs : List A) (s : S)
        → Distinct (map key xs)
        → has key id xs ≡ true
        → rewrite_loop key id edit send passed xs s ≡ send (passed ++ edited key id edit xs) s
    unfolding rewrite_loop give ◌>>=◌
    rewrite_loop-hit passed [] s d h = ground arith
    rewrite_loop-hit passed (x ∷ xs) s d h = elim (Bool-cases (key x == id)) [
      | inl e ↦
          let absent = absent_behind key id x xs d.0 e in
          rw (e, rewrite_loop)
            (proceed-idle (send (passed ++ (edit x ∷ xs)) s) _
                (λ t. rewrite_loop-absent _ xs t absent)
              ∙ rw (edited-absent xs absent))
      | inr e ↦
          rw (e, rewrite_loop)
            (rewrite_loop-hit (passed ++ (x ∷ [])) xs s d.1 (ground arith) ∙ rw append_assoc)
    ]

    -- Where no key occurs twice, one document is sent if the key is there, and none if it is not.
    pub rewrite_all_lem :
        (xs : List A) (s : S)
        → Distinct (map key xs)
        → rewrite_all key id edit send xs s
          ≡ (if has key id xs then send (edited key id edit xs) s else (returned tt, s))
    unfolding rewrite_all
    rewrite_all_lem xs s d = elim (Bool-cases (has key id xs)) [
      | inl h ↦ rewrite_loop-hit [] xs s d h ∙ rw h
      | inr h ↦ rewrite_loop-absent [] xs s h ∙ rw h
    ]

    pub Ensures-rewrite_all :
        {P : S → Type 0} {Q : Unit {0} → S → Type 0} {E : S → Type 0} (xs : List A)
        → ((s : S) → P s → Distinct (map key xs))
        → (has key id xs ≡ false → (s : S) → P s → Q tt s)
        → Ensures P (send (edited key id edit xs)) Q E
        → Ensures P (rewrite_all key id edit send xs) Q E
    Ensures-rewrite_all {P} {Q} {E} xs d idle h = record {
      at = λ s x.
          rw (rewrite_all_lem xs s (d s x)) (go s (has key id xs) (λ e. idle e s x) (h.at s x));
    }
      where
        go :
            (s : S) (b : Bool)
            → (b ≡ false → Q tt s)
            → Ends Q E (send (edited key id edit xs) s)
            → Ends Q E (if b then send (edited key id edit xs) s else (returned tt, s))
        go s true x y = y
        go s false x y = x refl
