-- ===== src/Db/Directory/Rows.antt =====
-- The rows that stand for profiles and accesses, under the statements of internal/db.
use mathlib.Core.List.{Permᴰ}
use churro.Common.{
  Bool, String, List, [], ◌∷◌, ◌++◌, map, Option, some, ◌≡◌, refl, Bool-cases, inl, inr,
}
use churro.Common.Action.{ok}
use churro.Domain.{UserProfile, UserPipelineAccess}
use churro.Db.{profile_columns, scan_profiles}
use churro.Db.Semantics.{
  Row, Tables, Texts, matches, changed_row, changed_rows, chosen, left_over, columns_of,
}
use churro.Db.Directory.{Directory, keep, drop_where, change_where}

abbrev pub IsProfile : Row → UserProfile → Type 0
IsProfile row p =
    (row "id" ≡ some p.id)
    × (row "firstname" ≡ some p.first_name)
    × (row "lastname" ≡ some p.last_name)
    × (row "password" ≡ some p.password)
    × (row "access" ≡ some p.access)
    × (row "email" ≡ some p.email)

abbrev pub IsAccess : Row → UserPipelineAccess → Type 0
IsAccess row a =
    (row "userprofileid" ≡ some a.user_profile_id)
    × (row "pipelineid" ≡ some a.pipeline_id)
    × (row "access" ≡ some a.access)

-- The rows stand for the values, one for one.
abbrev pub Stand : {A : Type 0} → (Row → A → Type 0) → List Row → List A → Type 0
Stand R [] [] = Unit
Stand R [] (_ ∷ _) = ⊥
Stand R (_ ∷ _) [] = ⊥
Stand R (row ∷ rows) (x ∷ l) = R row x × Stand R rows l

abbrev pub Holds : Tables → Directory → Type 0
Holds t d =
    Stand IsProfile (t "userprofile") d.profiles
    × Stand IsAccess (t "userpipelineaccess") d.accesses

module _ {A : Type 0} (R : Row → A → Type 0) where
  pub Stand-append :
      (rows : List Row) (l : List A) (others : List Row) (r : List A)
      → Stand R rows l
      → Stand R others r
      → Stand R (rows ++ others) (l ++ r)
  Stand-append [] [] others r h k = k
  Stand-append [] (_ ∷ _) others r h k = absurd h
  Stand-append (_ ∷ _) [] others r h k = absurd h
  Stand-append (row ∷ rows) (x ∷ l) others r (h, hs) k = (h, Stand-append rows l others r hs k)

  module _ (same : String → String → Bool) (condition : Texts) (test : A → Bool)
      (fits : (row : Row) (x : A) → R row x → matches same condition row ≡ test x) where
    pub chosen-Stand :
        (rows : List Row) (l : List A)
        → Stand R rows l
        → Stand R (chosen same condition rows) (keep test l)
    chosen-Stand [] [] h = tt
    chosen-Stand [] (_ ∷ _) h = absurd h
    chosen-Stand (_ ∷ _) [] h = absurd h
    chosen-Stand (row ∷ rows) (x ∷ l) (h, hs) = rw (fits row x h) (elim (Bool-cases (test x)) [
      | inl e ↦ rw e (h, chosen-Stand rows l hs)
      | inr e ↦ rw e (chosen-Stand rows l hs)
    ])

    pub left_over-Stand :
        (rows : List Row) (l : List A)
        → Stand R rows l
        → Stand R (left_over same condition rows) (drop_where test l)
    left_over-Stand [] [] h = tt
    left_over-Stand [] (_ ∷ _) h = absurd h
    left_over-Stand (_ ∷ _) [] h = absurd h
    left_over-Stand (row ∷ rows) (x ∷ l) (h, hs) = rw (fits row x h) (elim (Bool-cases (test x)) [
      | inl e ↦ rw e (left_over-Stand rows l hs)
      | inr e ↦ rw e (h, left_over-Stand rows l hs)
    ])

    pub changed_rows-Stand :
        (sets : Texts) (f : A → A)
        → ((row : Row) (x : A) → R row x → R (changed_row sets row) (f x))
        → (rows : List Row) (l : List A) → Stand R rows l
        → Stand R (changed_rows same sets condition rows) (change_where test f l)
    changed_rows-Stand sets f change [] [] h = tt
    changed_rows-Stand sets f change [] (_ ∷ _) h = absurd h
    changed_rows-Stand sets f change (_ ∷ _) [] h = absurd h
    changed_rows-Stand sets f change (row ∷ rows) (x ∷ l) (h, hs) =
        rw (fits row x h) (elim (Bool-cases (test x)) [
          | inl e ↦ rw e (change row x h, changed_rows-Stand sets f change rows l hs)
          | inr e ↦ rw e (h, changed_rows-Stand sets f change rows l hs)
        ])

  module _ {B : Type 0} (f : A → B) (g : Row → B)
      (reads : (row : Row) (x : A) → R row x → g row ≡ f x) where
    -- Columns that are read alike in each row are those of the values.
    pub map-Stand : (rows : List Row) (l : List A) → Stand R rows l → map g rows ≡ map f l
    map-Stand [] [] h = refl
    map-Stand [] (_ ∷ _) h = absurd h
    map-Stand (_ ∷ _) [] h = absurd h
    map-Stand (row ∷ rows) (x ∷ l) (h, hs) = rw (reads row x h, map-Stand rows l hs) refl

module _ {A B : Type 0} (f : A → B) where
  -- What is a reordering of images is the images of a reordering.
  pub Permᴰ-map :
      (rs vs : List B) (l : List A)
      → Permᴰ rs vs
      → vs ≡ map f l
      → (us : List A) × ((rs ≡ map f us) × Permᴰ us l)
  Permᴰ-map rs vs [] Permᴰ.nil e = ([], (refl, Permᴰ.nil))
  Permᴰ-map rs vs (x ∷ l) Permᴰ.nil e = cc
  Permᴰ-map rs vs [] (Permᴰ.cons p h) e = cc
  Permᴰ-map rs vs (x ∷ l) (Permᴰ.cons {l₁ = rs'} {l₂ = vs'} p h) e =
      let (us, (q, k)) = Permᴰ-map rs' vs' l h (cc) in (x ∷ us, (cc, Permᴰ.cons refl k))
  Permᴰ-map rs vs [] (Permᴰ.swap p q) e = cc
  Permᴰ-map rs vs (x ∷ []) (Permᴰ.swap p q) e = cc
  Permᴰ-map rs vs (x ∷ y ∷ l) (Permᴰ.swap p q) e = (y ∷ x ∷ l, (cc, Permᴰ.swap refl refl))
  Permᴰ-map rs vs l (Permᴰ.trans {l₂ = ws} h k) e =
      let (us, (q, m)) = Permᴰ-map ws vs l k e in
      let (us', (q', m')) = Permᴰ-map rs ws us h q in (us', (q', Permᴰ.trans m' m))

abbrev pub profile_values : UserProfile → List (Option String)
profile_values p =
    some p.id
    ∷ some p.first_name
    ∷ some p.last_name
    ∷ some p.password
    ∷ some p.access
    ∷ some p.email
    ∷ []

pub IsProfile-columns :
    (row : Row) (p : UserProfile)
    → IsProfile row p
    → columns_of profile_columns row ≡ profile_values p
IsProfile-columns row p (a, b, c, d, e, f) = rw (a, b, c, d, e, f) refl

pub scan_profiles-map : (l : List UserProfile) → scan_profiles (map profile_values l) ≡ ok l
scan_profiles-map [] = refl
scan_profiles-map (p ∷ l) = rw (scan_profiles-map l) refl
