-- ===== src/Operator/Ensure/Laws.antt =====
-- What a group of owned objects comes to: after a success every wanted object is there, and a later
-- pass adds nothing.
use churro.Common.{
  String, List, [], ◌∷◌, map, Option, none, some, true, ◌≡◌, refl, ◌∙◌, contains, Bool-cases, inl,
  inr,
}
use churro.Common.Action.{give, read, ◌>>=◌}
use churro.Common.Ensures.{Ends, Ensures, Ensures-bind, Ensures-give, Ensures-read, Ensures-weaken}
use churro.Operator.{Api, World, Resource, Object, owned, attempt, list, list_objects}
use churro.Operator.Ensure.{missing, create_owned, create_all, ensure}
use churro.Operator.Ensure.Children.{
  Listed, AllListed, Fitting, Listed-snoc, Listed-new, Listed-Lasting, set_owner-Taken,
}
use churro.Operator.Objects.Lasting.{Lasting, attempt-Keeps, create-Ensures}

module _ {P Q : World → Type 0} where
  Lasting-both : Lasting P → Lasting Q → Lasting (λ s. P s × Q s)
  Lasting-both l m = record {
    called = λ s h. (l.called s h.0, m.called s h.1);
    created = λ s o h free. (l.created s o h.0 free, m.created s o h.1 free);
    stored = λ s p h. (l.stored s p h.0, m.stored s p h.1);
  }

module _ (api : Api) (kind : String) (p : Resource) where
  module _ {Q : World → Type 0} (lasting : Lasting Q) where
    create_owned-Listed :
        (o : Object)
        → o.kind ≡ kind
        → o.namespace ≡ p.namespace
        → Ensures Q (create_owned api p.name o) (λ _ s. Listed kind p s.objects o.name × Q s) Q
    unfolding create_owned
    create_owned-Listed o e f = Ensures-bind (set_owner-Taken p.name o) λ m. record {
      at = λ s h.
          (create-Ensures api lasting m (λ t x free. (
            rw (← h.1.1.0) (Listed-new kind p t.objects m (h.1.0.0 ∙ e) (h.1.0.1 ∙ f) h.1.1.1),
            lasting.created t m x free,
          ))).at
            s h.0;
    }

  -- The children that the code listed are still there.
  abbrev pub Held : List Object → World → Type 0
  Held children s =
      (k : String) → contains (map (λ c. c.name) children) k ≡ true → Listed kind p s.objects k

  create_missing-AllListed :
      (children wanted : List Object)
      → Fitting kind p wanted
      → {Q : World → Type 0} → Lasting Q
      → ((s : World) → Q s → Held children s)
      → Ensures Q
          (create_all api p.name (missing children wanted))
          (λ _ s. AllListed kind p s.objects wanted × Q s)
          (λ _. Unit)
  unfolding create_all
  create_missing-AllListed children [] fits lasting held = Ensures-give tt (λ s h. (tt, h))
  create_missing-AllListed children (o ∷ wanted) (fit, fits) lasting held =
      elim (Bool-cases (contains (map (λ c. c.name) children) o.name)) [
        | inl e ↦ rw e (
            Ensures-weaken (create_missing-AllListed children wanted fits lasting held) (λ s h. h)
              (λ a s h. ((held s h.1 o.name e, h.0), h.1)) (λ s h. h))
        | inr e ↦ rw e (
            Ensures-bind
              (Ensures-weaken (create_owned-Listed lasting o fit.0 fit.1) (λ s h. h) (λ a s h. h)
                (λ s h. tt))
              λ _.
                Ensures-weaken
                  (create_missing-AllListed children wanted fits
                    (Lasting-both (Listed-Lasting kind p o.name) lasting) (λ s h. held s h.1))
                  (λ s h. h) (λ a s h. ((h.1.0, h.0), h.1.1)) (λ s h. h))
      ]

  Held-Lasting : (children : List Object) → Lasting (Held children)
  Held-Lasting children = record {
    called = λ s h. h;
    created = λ s o h free k c. Listed-snoc kind p s.objects o k (h k c);
    stored = λ s q h. h;
  }

  pub list-Held : Ensures (λ _. Unit) (list api kind p.namespace p.name) Held (λ _. Unit)
  unfolding list
  list-Held =
      Ensures-bind (attempt-Keeps api Unit-Lasting (list_objects kind)).ensures
        λ _. Ensures-read _ (λ s h k c. c)
    where
      Unit-Lasting : Lasting (λ _. Unit)
      Unit-Lasting = record { called = λ s h. h; created = λ s o h free. h; stored = λ s q h. h }

  -- After a success every wanted object is among the children of the pipeline.
  pub ensure-AllListed :
      (wanted : List Object)
      → Fitting kind p wanted
      → Ensures
          (λ _. Unit)
          (ensure api kind p.namespace p.name wanted)
          (λ _ s. AllListed kind p s.objects wanted)
          (λ _. Unit)
  unfolding ensure
  ensure-AllListed wanted fits = Ensures-bind list-Held λ children.
      Ensures-weaken
        (create_missing-AllListed children wanted fits (Held-Lasting children) (λ s h. h))
        (λ s h. h) (λ a s h. h.0) (λ s h. h)

module _ (kind : String) (p : Resource) where
  missing-AllListed :
      (objects wanted : List Object)
      → AllListed kind p objects wanted
      → missing (owned kind p.namespace p.name objects) wanted ≡ []
  missing-AllListed objects [] h = refl
  missing-AllListed objects (o ∷ wanted) h = rw h.0 (missing-AllListed objects wanted h.1)

  -- Where every wanted object is among the children, nothing is created.
  pub ensure_quiet :
      (api : Api) (wanted : List Object) (s : World)
      → AllListed kind p s.objects wanted
      → (ensure api kind p.namespace p.name wanted s).1.objects ≡ s.objects
  unfolding ensure list attempt create_all read give ◌>>=◌
  ensure_quiet api wanted s h = go (api.fails (list_objects kind) s.calls) refl
    where
      go :
          (o : Option String)
          → api.fails (list_objects kind) s.calls ≡ o
          → (ensure api kind p.namespace p.name wanted s).1.objects ≡ s.objects
      go (some x) q = rw (q, attempt) refl
      go none q = rw (q, attempt, missing-AllListed s.objects wanted h) refl

  -- After a success of the first, the second changes no object.
  pub ensure_settled :
      (api later : Api) (wanted : List Object) (s : World)
      → Fitting kind p wanted
      → Ends
          (λ _ t. (ensure later kind p.namespace p.name wanted t).1.objects ≡ t.objects)
          (λ _. Unit)
          (ensure api kind p.namespace p.name wanted s)
  ensure_settled api later wanted s fits =
      (Ensures-weaken (ensure-AllListed api kind p wanted fits) (λ t h. h)
          (λ a t h. ensure_quiet later wanted t h) (λ t h. h)).at
        s tt
