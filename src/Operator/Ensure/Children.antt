-- ===== src/Operator/Ensure/Children.antt =====
-- The children of a pipeline by their names, and what setting the owner of an object changes.
use churro.Common.{
  String, List, [], ◌∷◌, ◌++◌, map, Option, none, some, Bool, true, false, ◌≡◌, refl, ap, ◌==◌,
  ◌&&◌, ◌||◌, contains, contains-append, eq_iff, eq_refl, Bool-cases, inl, inr,
}
use churro.Common.Action.{of_result}
use churro.Common.Ensures.{Ensures}
use churro.Operator.{World, Resource, Object, owned, owned_by}
use churro.Operator.Ensure.{set_owner}
use churro.Operator.Objects.Lasting.{Lasting}

module _ (kind : String) (p : Resource) where
  -- An object of that name is among the children.
  abbrev pub Listed : List Object → String → Type 0
  Listed objects k = contains (map (λ c. c.name) (owned kind p.namespace p.name objects)) k ≡ true

  abbrev pub AllListed : List Object → List Object → Type 0
  AllListed objects [] = Unit
  AllListed objects (o ∷ wanted) = Listed objects o.name × AllListed objects wanted

  -- The wanted objects are of the kind and in the namespace that the code lists.
  abbrev pub Fitting : List Object → Type 0
  Fitting [] = Unit
  Fitting (o ∷ wanted) = ((o.kind ≡ kind) × (o.namespace ≡ p.namespace)) × Fitting wanted

  or-true : (b : Bool) → (b || true) ≡ true
  or-true true = refl
  or-true false = refl

  abbrev names : List Object → List String
  names objects = map (λ c. c.name) (owned kind p.namespace p.name objects)

  names-append : (l r : List Object) → names (l ++ r) ≡ names l ++ names r
  names-append [] r = refl
  names-append (x ∷ l) r =
      elim (Bool-cases
        (x.kind == kind && (x.namespace == p.namespace && owned_by p.name x.owner))) [
          | inl e ↦ rw e (ap (λ k. x.name ∷ k) (names-append l r))
          | inr e ↦ rw e (names-append l r)
        ]

  pub Listed-snoc :
      (objects : List Object) (o : Object) (k : String)
      → Listed objects k
      → Listed (objects ++ (o ∷ [])) k
  Listed-snoc objects o k h =
      rw (names-append objects (o ∷ []), contains-append (names objects) (names (o ∷ [])) k, h) refl

  pub Listed-new :
      (objects : List Object) (o : Object)
      → o.kind ≡ kind
      → o.namespace ≡ p.namespace
      → o.owner ≡ some p.name
      → Listed (objects ++ (o ∷ [])) o.name
  Listed-new objects o e f g =
      rw
        (
          names-append objects (o ∷ []),
          contains-append (names objects) (names (o ∷ [])) o.name,
          e,
          f,
          g,
          eq_refl kind,
          eq_refl p.namespace,
          eq_refl p.name,
          eq_refl o.name,
        )
        (or-true (contains (names objects) o.name))

  pub Listed-Lasting : (k : String) → Lasting (λ s. Listed s.objects k)
  Listed-Lasting k = record {
    called = λ s h. h;
    created = λ s o h free. Listed-snoc s.objects o k h;
    stored = λ s q h. h;
  }

-- The object as it is, under the name of its owner.
abbrev pub Taken : String → Object → Object → Type 0
Taken pipeline o m =
    ((m.kind ≡ o.kind) × (m.namespace ≡ o.namespace))
    × ((m.name ≡ o.name) × (m.owner ≡ some pipeline))

pub set_owner-Taken :
    {P : World → Type 0} (pipeline : String) (o : Object)
    → Ensures P (of_result (set_owner pipeline o)) (λ m s. P s × Taken pipeline o m) P
unfolding of_result
set_owner-Taken {P} pipeline o = go o.owner refl
  where
    go :
        (owner : Option String)
        → o.owner ≡ owner
        → Ensures P (of_result (set_owner pipeline o)) (λ m s. P s × Taken pipeline o m) P
    go none e = record { at = λ s h. rw e (h, ((refl, refl), (refl, refl))) }
    go (some q) e = elim (Bool-cases (q == pipeline)) [
      | inl b ↦ record {
        at = λ s h. rw (e, b) (h, ((refl, refl), (refl, ap some ((eq_iff q pipeline).0 b))));
      }
      | inr b ↦ record { at = λ s h. rw (e, b) h }
    ]
