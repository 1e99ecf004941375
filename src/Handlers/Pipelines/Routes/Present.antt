-- ===== src/Handlers/Pipelines/Routes/Present.antt =====
-- A list of custom resources that has one of a name, with its ID.
use text.Mathlib.TextEquality.{eq_iff}
use mathlib.Core.Path.{subst}
use mathlib.Core.Option.{none-ne-some, some-injective}
use mathlib.Core.Bool.{false≢true, true≢false}
use churro.Common.{
  true, false, String, List, [], ◌∷◌, ◌++◌, some, ◌==◌, ◌≡◌, refl, sym, ◌∙◌, Bool-cases, inl, inr,
  arith,
}
use churro.Ctl.Removal.{has, without}
use churro.Ctl.Rewriting.{edited}
use churro.Pipelines.{PipelineCr, with_id}
use churro.Handlers.Pipelines.{last_name}

-- Every resource of the name has the ID.
abbrev pub Ids : String → String → List PipelineCr → Type 0
Ids name id [] = Unit
Ids name id (x ∷ xs) = (x.name ≡ name → x.id ≡ id) × Ids name id xs

-- A resource of the name is there, and it has the ID.
abbrev pub Present : String → String → List PipelineCr → Type 0
Present name id l = (has (λ x. x.name) name l ≡ true) × Ids name id l

module _ (name id : String) where
  pub with_id-Ids :
      (k : String) (l : List PipelineCr) (x : PipelineCr)
      → Ids name id l
      → with_id k l ≡ some x
      → (x.id ≡ k) × (x.name ≡ name → x.id ≡ id)
  with_id-Ids k [] x h e = absurd (none-ne-some _ e)
  with_id-Ids k (y ∷ l) x (h, hs) e = elim (Bool-cases (k == y.id)) [
    | inl same ↦
        let found = some-injective _ _ (rw same at e) in
        subst (λ z. (z.id ≡ k) × (z.name ≡ name → z.id ≡ id)) found
          (sym ((eq_iff k y.id).0 same), h)
    | inr other ↦ with_id-Ids k l x hs (rw other at e)
  ]

  pub last_name-Ids :
      (k acc : String) (l : List PipelineCr)
      → (acc ≡ name → k ≡ id)
      → Ids name id l
      → last_name k acc l ≡ name
      → k ≡ id
  last_name-Ids k acc [] h hs e = h e
  last_name-Ids k acc (y ∷ l) h (g, hs) e = elim (Bool-cases (k == y.id)) [
    | inl same ↦ last_name-Ids k y.name l (λ n. (eq_iff k y.id).0 same ∙ g n) hs (rw same at e)
    | inr other ↦ last_name-Ids k acc l h hs (rw other at e)
  ]

  without-Ids :
      (n : String) (l : List PipelineCr) → Ids name id l → Ids name id (without (λ x. x.name) n l)
  without-Ids n [] h = tt
  without-Ids n (x ∷ l) (h, hs) = elim (Bool-cases (x.name == n)) [
    | inl e ↦ rw e (without-Ids n l hs)
    | inr e ↦ rw e (h, without-Ids n l hs)
  ]

  has-without :
      (n : String) (l : List PipelineCr)
      → (n == name) ≡ false
      → has (λ x. x.name) name (without (λ x. x.name) n l) ≡ has (λ x. x.name) name l
  has-without n [] h = refl
  has-without n (x ∷ l) h =
      ground (arith, has-without n l h, eq_iff x.name n, eq_iff x.name name, eq_iff n name)

  Ids-append :
      (l : List PipelineCr) (x : PipelineCr)
      → Ids name id l
      → (x.name ≡ name → x.id ≡ id)
      → Ids name id (l ++ (x ∷ []))
  Ids-append [] x h k = (k, tt)
  Ids-append (y ∷ l) x (h, hs) k = (h, Ids-append l x hs k)

  has-append :
      (l : List PipelineCr) (x : PipelineCr)
      → has (λ x. x.name) name l ≡ true
      → has (λ x. x.name) name (l ++ (x ∷ [])) ≡ true
  has-append [] x h = absurd (false≢true h)
  has-append (y ∷ l) x h = ground (arith, has-append l x)

  edited-Ids :
      (x : PipelineCr) (l : List PipelineCr)
      → (x.name ≡ name → x.id ≡ id)
      → Ids name id l
      → Ids name id (edited (λ y. y.name) x.name (λ _. x) l)
  edited-Ids x [] k h = tt
  edited-Ids x (y ∷ l) k (h, hs) = elim (Bool-cases (y.name == x.name)) [
    | inl e ↦ rw e (k, edited-Ids x l k hs)
    | inr e ↦ rw e (h, edited-Ids x l k hs)
  ]

  has-edited :
      (x : PipelineCr) (l : List PipelineCr)
      → has (λ y. y.name) name (edited (λ y. y.name) x.name (λ _. x) l) ≡ has (λ y. y.name) name l
  has-edited x [] = refl
  has-edited x (y ∷ l) = ground (arith, has-edited x l, eq_iff y.name x.name)

  pub without-Present :
      (n : String) (l : List PipelineCr)
      → (n == name) ≡ false
      → Present name id l
      → Present name id (without (λ x. x.name) n l)
  without-Present n l h (p, q) = (has-without n l h ∙ p, without-Ids n l q)

  pub append-Present :
      (l : List PipelineCr) (x : PipelineCr)
      → has (λ x. x.name) x.name l ≡ false
      → Present name id l
      → Present name id (l ++ (x ∷ []))
  append-Present l x h (p, q) =
      (has-append l x p, Ids-append l x q (λ e. absurd (true≢false (sym p ∙ (rw e at h)))))

  pub edited-Present :
      (x : PipelineCr) (l : List PipelineCr)
      → (x.name ≡ name → x.id ≡ id)
      → Present name id l
      → Present name id (edited (λ y. y.name) x.name (λ _. x) l)
  edited-Present x l k (p, q) = (has-edited x l ∙ p, edited-Ids x l k q)
