-- ===== src/Db/Directory/Effects.antt =====
-- The statement of each command, what it does to the rows of a directory, and what its answer tells.
use mathlib.Core.List.{Permᴰ}
use mathlib.Core.List.Permᴰ.{length-eq}
use churro.Common.{
  Bool, true, false, ◌&&◌, String, List, [], ◌∷◌, map, Option, ◌≡◌, refl, sym, ap, ◌∙◌, Bool-cases,
  inl, inr,
}
use churro.Common.Action.{Result, ok, err}
use churro.Domain.{UserProfile, UserPipelineAccess}
use churro.Db.{
  param, Statement, insert, update, delete, select, select_joined, Rows, profile_columns,
  scan_profile, scan_profiles, scan_text, no_rows,
}
use churro.Db.Mysql.{profile_terms, profile_changes, access_terms}
use churro.Db.Semantics.{Row, Tables, texts, matches, chosen, after, partners, joined}
use churro.Db.Directory.{
  Directory, Command, create_profile, update_profile, delete_profile, get_profile,
  get_profile_by_email, all_profiles, profiles_for, create_access, update_access, delete_access,
  get_access, Answer, done, profile, profiles, access, is_access, copies, members, carried_out,
  OneOf,
}
use churro.Db.Directory.Rows.{
  IsProfile, IsAccess, Stand, Holds, Stand-append, left_over-Stand, changed_rows-Stand, Permᴰ-map,
}
use churro.Db.Directory.Steps.{told, told_first}

abbrev pub statement_of : String → Command → Statement
statement_of new_id (create_profile u) = insert "userprofile" (profile_terms new_id u)
statement_of new_id (update_profile u) =
    update "userprofile" (profile_changes u) (("id", param u.id) ∷ [])
statement_of new_id (delete_profile id) = delete "userprofile" (("id", param id) ∷ [])
statement_of new_id (get_profile id) = select profile_columns "userprofile" (("id", param id) ∷ [])
statement_of new_id (get_profile_by_email e) =
    select profile_columns "userprofile" (("email", param e) ∷ [])
statement_of new_id all_profiles = select profile_columns "userprofile" []
statement_of new_id (profiles_for p) = select_joined (record {
  columns = profile_columns;
  first = "userprofile";
  second = "userpipelineaccess";
  first_key = "id";
  second_key = "userprofileid";
  condition = ("pipelineid", param p) ∷ [];
})
statement_of new_id (create_access a) = insert "userpipelineaccess" (access_terms a)
statement_of new_id (update_access a) =
    update "userpipelineaccess" (("access", param a.access) ∷ [])
      (("userprofileid", param a.user_profile_id) ∷ ("pipelineid", param a.pipeline_id) ∷ [])
statement_of new_id (delete_access p id) =
    delete "userpipelineaccess" (("pipelineid", param p) ∷ ("userprofileid", param id) ∷ [])
statement_of new_id (get_access p id) =
    select ("access" ∷ []) "userpipelineaccess"
      (("pipelineid", param p) ∷ ("userprofileid", param id) ∷ [])

-- What is made of the rows
abbrev pub answer_of : Command → Rows → Result Answer
answer_of (get_profile _) rows = told_first scan_profile profile rows
answer_of (get_profile_by_email _) rows = told_first scan_profile profile rows
answer_of all_profiles rows = told profiles (scan_profiles rows)
answer_of (profiles_for _) rows = told profiles (scan_profiles rows)
answer_of (get_access p id) rows =
    told_first scan_text
      (λ x. access (record { user_profile_id = id; pipeline_id = p; access = x })) rows
answer_of _ rows = ok done

and_true : (b : Bool) → (b && true) ≡ b
and_true true = refl
and_true false = refl

and_swap : (a b : Bool) → (a && (b && true)) ≡ (b && a)
and_swap true b = refl
and_swap false true = refl
and_swap false false = refl

module _ (same : String → String → Bool) where
  pub fits_id :
      (x : String) (row : Row) (p : UserProfile)
      → IsProfile row p
      → matches same (("id", x) ∷ []) row ≡ same p.id x
  fits_id x row p h = rw (h.0) (and_true (same p.id x))

  pub fits_email :
      (x : String) (row : Row) (p : UserProfile)
      → IsProfile row p
      → matches same (("email", x) ∷ []) row ≡ same p.email x
  fits_email x row p h = rw (h.5) (and_true (same p.email x))

  fits_user_first :
      (p id : String) (row : Row) (a : UserPipelineAccess)
      → IsAccess row a
      → matches same (("userprofileid", id) ∷ ("pipelineid", p) ∷ []) row ≡ is_access same p id a
  fits_user_first p id row a h =
      rw (h.0, h.1) (and_swap (same a.user_profile_id id) (same a.pipeline_id p))

  pub fits_pipeline_first :
      (p id : String) (row : Row) (a : UserPipelineAccess)
      → IsAccess row a
      → matches same (("pipelineid", p) ∷ ("userprofileid", id) ∷ []) row ≡ is_access same p id a
  fits_pipeline_first p id row a h =
      rw (h.0, h.1) (ap (λ b. same a.pipeline_id p && b) (and_true (same a.user_profile_id id)))

  -- The rows after a statement stand for the directory after the command.
  pub after-Holds :
      (new_id : String) (c : Command) (t : Tables) (d : Directory)
      → Holds t d
      → Holds (after same (statement_of new_id c) t) (carried_out same new_id c d)
  after-Holds new_id (create_profile u) t d (h, k) =
      (Stand-append IsProfile _ _ _ _ h ((refl, refl, refl, refl, refl, refl), tt), k)
  after-Holds new_id (update_profile u) t d (h, k) = (
    changed_rows-Stand IsProfile same (("id", u.id) ∷ []) _ (fits_id u.id)
        (texts (profile_changes u)) (λ p. record u { id = p.id })
        (λ row p m. (m.0, refl, refl, refl, refl, refl)) _ _ h,
    k,
  )
  after-Holds new_id (delete_profile id) t d (h, k) =
      (left_over-Stand IsProfile same (("id", id) ∷ []) _ (fits_id id) _ _ h, k)
  after-Holds new_id (create_access a) t d (h, k) =
      (h, Stand-append IsAccess _ _ _ _ k ((refl, refl, refl), tt))
  after-Holds new_id (update_access a) t d (h, k) = (
    h,
    changed_rows-Stand IsAccess same
        (("userprofileid", a.user_profile_id) ∷ ("pipelineid", a.pipeline_id) ∷ []) _
        (fits_user_first a.pipeline_id a.user_profile_id) (("access", a.access) ∷ [])
        (λ b. record b { access = a.access }) (λ row b m. (m.0, m.1, refl)) _ _ k,
  )
  after-Holds new_id (delete_access p id) t d (h, k) = (
    h,
    left_over-Stand IsAccess same (("pipelineid", p) ∷ ("userprofileid", id) ∷ []) _
        (fits_pipeline_first p id) _ _ k,
  )
  after-Holds new_id (get_profile _) t d h = h
  after-Holds new_id (get_profile_by_email _) t d h = h
  after-Holds new_id all_profiles t d h = h
  after-Holds new_id (profiles_for _) t d h = h
  after-Holds new_id (get_access _ _) t d h = h

  partners-Stand :
      (p : String) (row : Row) (u : UserProfile) (others : List Row) (l : List UserPipelineAccess)
      → IsProfile row u
      → Stand IsAccess others l
      → Stand IsProfile
          (partners same
            (record {
              columns = profile_columns;
              first = "userprofile";
              second = "userpipelineaccess";
              first_key = "id";
              second_key = "userprofileid";
              condition = ("pipelineid", param p) ∷ [];
            })
            row
            others)
          (copies same p u l)
  partners-Stand p row u [] [] h k = tt
  partners-Stand p row u [] (_ ∷ _) h k = absurd k
  partners-Stand p row u (_ ∷ _) [] h k = absurd k
  partners-Stand p row u (other ∷ others) (a ∷ l) h (k, ks) =
      rw (h.0, k.0, k.1, and_true (same a.pipeline_id p))
        (elim (Bool-cases (same u.id a.user_profile_id && same a.pipeline_id p)) [
          | inl e ↦ rw e (h, partners-Stand p row u others l h ks)
          | inr e ↦ rw e (partners-Stand p row u others l h ks)
        ])

  pub joined-Stand :
      (p : String) (rows : List Row) (us : List UserProfile) (others : List Row)
      (l : List UserPipelineAccess)
      → Stand IsProfile rows us
      → Stand IsAccess others l
      → Stand IsProfile
          (joined same
            (record {
              columns = profile_columns;
              first = "userprofile";
              second = "userpipelineaccess";
              first_key = "id";
              second_key = "userprofileid";
              condition = ("pipelineid", param p) ∷ [];
            })
            rows
            others)
          (members same p us l)
  joined-Stand p [] [] others l h k = tt
  joined-Stand p [] (_ ∷ _) others l h k = absurd h
  joined-Stand p (_ ∷ _) [] others l h k = absurd h
  joined-Stand p (row ∷ rows) (u ∷ us) others l (h, hs) k =
      Stand-append IsProfile _ (copies same p u l) _ (members same p us l)
        (partners-Stand p row u others l h k) (joined-Stand p rows us others l hs k)

  pub chosen-all : (rows : List Row) → chosen same [] rows ≡ rows
  chosen-all [] = refl
  chosen-all (row ∷ rows) = ap (λ l. row ∷ l) (chosen-all rows)

Permᴰ-nil_cons : {A : Type 0} {x : A} {l : List A} → Permᴰ [] (x ∷ l) → ⊥
Permᴰ-nil_cons p = absurd (cc (length-eq p))

Permᴰ-nil : {A : Type 0} (l : List A) → Permᴰ [] l → l ≡ []
Permᴰ-nil [] p = refl
Permᴰ-nil (x ∷ l) p = absurd (Permᴰ-nil_cons p)

module _ {A B : Type 0} (scan : List (Option String) → Result B) (values : A → List (Option String))
    (val : A → B) (reads : (x : A) → scan (values x) ≡ ok (val x)) (k : B → Answer) where
  -- The first row that is delivered is one of those there are, and none only if there is none.
  pub told_first-ok :
      (rows : Rows) (l : List A) (answer : Answer)
      → Permᴰ rows (map values l)
      → told_first scan k rows ≡ ok answer
      → OneOf (λ x. k (val x)) l answer
  told_first-ok rows l answer p h =
      let (us, (e, q)) = Permᴰ-map values rows (map values l) l p refl in go us e q
    where
      go : (us : List A) → rows ≡ map values us → Permᴰ us l → OneOf (λ x. k (val x)) l answer
      go [] e q = absurd (cc (ap (told_first scan k) (sym e) ∙ h))
      go (x ∷ us) e q =
          let h' : ok (k (val x)) ≡ ok answer =
            ap (told k) (sym (reads x)) ∙ ap (told_first scan k) (sym e) ∙ h in
          (x, (cc, (us, q)))

  pub told_first-err :
      (rows : Rows) (l : List A) (x : String)
      → Permᴰ rows (map values l)
      → told_first scan k rows ≡ err x
      → (x ≡ no_rows) × (l ≡ [])
  told_first-err rows l x p h =
      let (us, (e, q)) = Permᴰ-map values rows (map values l) l p refl in go us e q
    where
      go : (us : List A) → rows ≡ map values us → Permᴰ us l → (x ≡ no_rows) × (l ≡ [])
      go [] e q =
          let h' : err no_rows ≡ err x = ap (told_first scan k) (sym e) ∙ h in (cc, Permᴰ-nil l q)
      go (y ∷ us) e q =
          absurd (cc (ap (told k) (sym (reads y)) ∙ ap (told_first scan k) (sym e) ∙ h))
