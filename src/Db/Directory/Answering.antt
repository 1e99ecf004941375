-- ===== src/Db/Directory/Answering.antt =====
-- What the answers of the queries tell of a directory.
use mathlib.Core.Path.{subst}
use mathlib.Core.List.{Permᴰ}
use churro.Common.{Bool, String, List, [], ◌∷◌, ◌++◌, map, Option, some, ◌≡◌, refl, sym, ap, ◌∙◌}
use churro.Common.Action.{Result, ok, err}
use churro.Domain.{UserProfile, UserPipelineAccess}
use churro.Db.{Rows, profile_columns, scan_profile, scan_profiles, scan_text, no_rows}
use churro.Db.Semantics.{Row, Tables, chosen, columns_of, delivered}
use churro.Db.Directory.{
  Directory, Command, create_profile, update_profile, delete_profile, get_profile,
  get_profile_by_email, all_profiles, profiles_for, create_access, update_access, delete_access,
  get_access, Answer, done, profile, profiles, access, keep, is_access, members, OneOf, Answers,
  Part, Empty,
}
use churro.Db.Directory.Rows.{
  IsProfile, IsAccess, Stand, Holds, chosen-Stand, map-Stand, Permᴰ-map, profile_values,
  IsProfile-columns, scan_profiles-map,
}
use churro.Db.Directory.Steps.{told, told_first}
use churro.Db.Directory.Effects.{
  statement_of, answer_of, fits_id, fits_email, fits_pipeline_first, joined-Stand, chosen-all,
  told_first-ok, told_first-err,
}

ok-ne-err : {A : Type 0} {a : A} {e : String} → ok a ≡ err e → ⊥
ok-ne-err h = cc h

ok_injective : {a b : Answer} → ok a ≡ ok b → a ≡ b
ok_injective h = cc h

-- The parts of a list of images are the images of parts.
map_parts :
    {A B : Type 0} (f : A → B) (rows rest : List B) (us : List A)
    → rows ++ rest ≡ map f us
    → (l : List A) × ((r : List A) × ((rows ≡ map f l) × (us ≡ l ++ r)))
map_parts f [] rest us e = ([], (us, (refl, refl)))
map_parts f (row ∷ rows) rest [] e = absurd (cc e)
map_parts f (row ∷ rows) rest (u ∷ us) e =
    let (l, (r, (p, q))) = map_parts f rows rest us (cc e) in
    (u ∷ l, (r, (cc (e, p), ap (λ k. u ∷ k) q)))

-- The first row stays the first, whatever comes behind the rows.
told_first-append :
    {A B : Type 0} (scan : List (Option String) → Result A) (k : A → B) (rows rest : Rows) (b : B)
    → told_first scan k rows ≡ ok b
    → told_first scan k (rows ++ rest) ≡ ok b
told_first-append scan k [] rest b h = cc h
told_first-append scan k (row ∷ rows) rest b h = h

-- The profiles that come are read, in some order.
some_profiles :
    (rows rest : Rows) (l : List UserProfile) (answer : Answer)
    → Permᴰ (rows ++ rest) (map profile_values l)
    → told profiles (scan_profiles rows) ≡ ok answer
    → (us : List UserProfile) × ((answer ≡ profiles us) × Part us l)
some_profiles rows rest l answer p h =
    let (all, (e, q)) = Permᴰ-map profile_values (rows ++ rest) (map profile_values l) l p refl in
    let (us, (others, (f, g))) = map_parts profile_values rows rest all e in
    let read : told profiles (scan_profiles rows) ≡ ok (profiles us) =
      ap (λ r. told profiles (scan_profiles r)) f ∙ ap (told profiles) (scan_profiles-map us) in
    (us, (ok_injective (sym h ∙ read), (others, subst (λ k. Permᴰ k l) g q)))

-- All rows can be read.
profiles-readable :
    (rows : Rows) (l : List UserProfile) (e : String)
    → Permᴰ rows (map profile_values l)
    → told profiles (scan_profiles rows) ≡ err e
    → (e ≡ no_rows) × ⊥
profiles-readable rows l e p h =
    let (us, (f, q)) = Permᴰ-map profile_values rows (map profile_values l) l p refl in
    absurd (
      ok-ne-err (
        sym
          (ap (λ r. told profiles (scan_profiles r)) f ∙ ap (told profiles) (scan_profiles-map us))
        ∙ h))

abbrev pub access_values : UserPipelineAccess → List (Option String)
access_values a = some a.access ∷ []

module _ (same : String → String → Bool) (t : Tables) (d : Directory) (holds : Holds t d) where
  profiles_delivered :
      (rows : List Row) (l : List UserProfile)
      → Stand IsProfile rows l
      → map (columns_of profile_columns) rows ≡ map profile_values l
  profiles_delivered rows l h =
      map-Stand IsProfile profile_values (columns_of profile_columns) IsProfile-columns rows l h

  accesses_delivered :
      (rows : List Row) (l : List UserPipelineAccess)
      → Stand IsAccess rows l
      → map (columns_of ("access" ∷ [])) rows ≡ map access_values l
  accesses_delivered rows l h =
      map-Stand IsAccess access_values (columns_of ("access" ∷ [])) (λ row a m. rw (m.2) refl) rows
        l h

  delivered_id :
      (id : String)
      → map (columns_of profile_columns) (chosen same (("id", id) ∷ []) (t "userprofile"))
        ≡ map profile_values (keep (λ p. same p.id id) d.profiles)
  delivered_id id =
      profiles_delivered _ _
        (chosen-Stand IsProfile same (("id", id) ∷ []) _ (fits_id same id) _ _ (holds.0))

  delivered_email :
      (e : String)
      → map (columns_of profile_columns) (chosen same (("email", e) ∷ []) (t "userprofile"))
        ≡ map profile_values (keep (λ p. same p.email e) d.profiles)
  delivered_email e =
      profiles_delivered _ _
        (chosen-Stand IsProfile same (("email", e) ∷ []) _ (fits_email same e) _ _ (holds.0))

  delivered_access :
      (p id : String)
      → map
          (columns_of ("access" ∷ []))
          (chosen same (("pipelineid", p) ∷ ("userprofileid", id) ∷ []) (t "userpipelineaccess"))
        ≡ map access_values (keep (is_access same p id) d.accesses)
  delivered_access p id = accesses_delivered _ _ (
      chosen-Stand IsAccess same (("pipelineid", p) ∷ ("userprofileid", id) ∷ []) _
        (fits_pipeline_first same p id) _ _ (holds.1))

  delivered_for :
      (q : String)
      → delivered same (statement_of "" (profiles_for q)) t
        ≡ map profile_values (members same q d.profiles d.accesses)
  delivered_for q = profiles_delivered _ _ (joined-Stand same q _ _ _ _ (holds.0) (holds.1))

  delivered_all :
      map (columns_of profile_columns) (chosen same [] (t "userprofile"))
      ≡ map profile_values d.profiles
  delivered_all = rw chosen-all (profiles_delivered _ _ (holds.0))

  -- From rows that are perhaps not all, an answer is right; from all of them, an error says that there is
  -- nothing.
  abbrev Answered : String → Command → Type 0
  Answered new_id c =
      ((rows rest : Rows) (answer : Answer)
        → Permᴰ (rows ++ rest) (delivered same (statement_of new_id c) t)
        → answer_of c rows ≡ ok answer
        → Answers same c d answer)
      × ((rows : Rows) (e : String)
          → Permᴰ rows (delivered same (statement_of new_id c) t)
          → answer_of c rows ≡ err e
          → (e ≡ no_rows) × Empty same c d)

  -- What is done without a query has no answer of its own.
  plainly :
      (v : Rows)
      → ((rows rest : Rows) (answer : Answer)
          → Permᴰ (rows ++ rest) v
          → ok done ≡ ok answer
          → answer ≡ done)
        × ((rows : Rows) (e : String) → Permᴰ rows v → ok done ≡ err e → (e ≡ no_rows) × ⊥)
  plainly v = ((λ rows rest answer p h. cc h), (λ rows e p h. absurd (ok-ne-err h)))

  one_profile :
      (v : Rows) (l : List UserProfile)
      → v ≡ map profile_values l
      → ((rows rest : Rows) (answer : Answer)
          → Permᴰ (rows ++ rest) v
          → told_first scan_profile profile rows ≡ ok answer
          → OneOf profile l answer)
        × ((rows : Rows) (e : String)
            → Permᴰ rows v
            → told_first scan_profile profile rows ≡ err e
            → (e ≡ no_rows) × (l ≡ []))
  one_profile v l w = (
    (λ rows rest answer p h.
        told_first-ok scan_profile profile_values (λ u. u) (λ u. refl) profile (rows ++ rest) l
          answer (subst (λ x. Permᴰ (rows ++ rest) x) w p)
          (told_first-append scan_profile profile rows rest answer h)),
    (λ rows e p h.
        told_first-err scan_profile profile_values (λ u. u) (λ u. refl) profile rows l e
          (subst (λ x. Permᴰ rows x) w p) h),
  )

  one_access :
      (k : String → Answer) (v : Rows) (l : List UserPipelineAccess)
      → v ≡ map access_values l
      → ((rows rest : Rows) (answer : Answer)
          → Permᴰ (rows ++ rest) v
          → told_first scan_text k rows ≡ ok answer
          → OneOf (λ a. k a.access) l answer)
        × ((rows : Rows) (e : String)
            → Permᴰ rows v
            → told_first scan_text k rows ≡ err e
            → (e ≡ no_rows) × (l ≡ []))
  one_access k v l w = (
    (λ rows rest answer p h.
        told_first-ok scan_text access_values (λ a. a.access) (λ a. refl) k (rows ++ rest) l answer
          (subst (λ x. Permᴰ (rows ++ rest) x) w p)
          (told_first-append scan_text k rows rest answer h)),
    (λ rows e p h.
        told_first-err scan_text access_values (λ a. a.access) (λ a. refl) k rows l e
          (subst (λ x. Permᴰ rows x) w p) h),
  )

  many_profiles :
      (v : Rows) (l : List UserProfile)
      → v ≡ map profile_values l
      → ((rows rest : Rows) (answer : Answer)
          → Permᴰ (rows ++ rest) v
          → told profiles (scan_profiles rows) ≡ ok answer
          → (us : List UserProfile) × ((answer ≡ profiles us) × Part us l))
        × ((rows : Rows) (e : String)
            → Permᴰ rows v
            → told profiles (scan_profiles rows) ≡ err e
            → (e ≡ no_rows) × ⊥)
  many_profiles v l w = (
    (λ rows rest answer p h.
        some_profiles rows rest l answer (subst (λ x. Permᴰ (rows ++ rest) x) w p) h),
    (λ rows e p h. profiles-readable rows l e (subst (λ x. Permᴰ rows x) w p) h),
  )

  -- An answer that is read from the rows is right, and an error says that there is nothing.
  pub answer_of-Answers : (new_id : String) (c : Command) → Answered new_id c
  answer_of-Answers new_id (create_profile u) = plainly _
  answer_of-Answers new_id (update_profile u) = plainly _
  answer_of-Answers new_id (delete_profile id) = plainly _
  answer_of-Answers new_id (create_access a) = plainly _
  answer_of-Answers new_id (update_access a) = plainly _
  answer_of-Answers new_id (delete_access q id) = plainly _
  answer_of-Answers new_id (get_profile id) = one_profile _ _ (delivered_id id)
  answer_of-Answers new_id (get_profile_by_email e) = one_profile _ _ (delivered_email e)
  answer_of-Answers new_id all_profiles = many_profiles _ _ delivered_all
  answer_of-Answers new_id (profiles_for q) = many_profiles _ _ (delivered_for q)
  answer_of-Answers new_id (get_access q id) =
      one_access (λ x. access (record { user_profile_id = id; pipeline_id = q; access = x })) _ _
        (delivered_access q id)
