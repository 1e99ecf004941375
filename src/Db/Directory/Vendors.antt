-- ===== src/Db/Directory/Vendors.antt =====
-- The back ends of CockroachDB, MySQL and SingleStore refine the directory.
use mathlib.Core.Path.{subst}
use churro.Common.{Bool, true, String, List, [], ◌∷◌, ◌≡◌, refl}
use churro.Common.Action.{Outcome, returned, failed, panicked, Action, give, proceed, ◌>>=◌}
use churro.Db.{Engine, update, delete, quoted, scan_profile, scan_text, queried}
use churro.Db.Mysql
use churro.Db.Cockroach
use churro.Db.Singlestore
use churro.Db.Semantics.{Understands}
use churro.Db.Backends.{Backend, cockroach, mysql, singlestore, mock, users_of}
use churro.Db.Directory.{
  Directory, Command, create_profile, update_profile, delete_profile, get_profile,
  get_profile_by_email, all_profiles, profiles_for, create_access, update_access, delete_access,
  get_access, profile, access, perform, perform_all, Leads,
}
use churro.Db.Directory.Rows.{Holds}
use churro.Db.Directory.Steps.{
  executed-Ended, run_prepared-Ended, queried-Ended, profiles-Ended, returning-Ended,
}
use churro.Db.Directory.Effects.{statement_of}
use churro.Db.Directory.Refines.{EndsAs, Lawful, AllSafe, perform_all-Leads}

both_steps :
    {S A B C : Type 0} (f : A → B) (g : B → C) (r : Outcome A × S)
    → proceed r.0 (λ a. give (g (f a))) r.1
      ≡ proceed
          (proceed r.0 (λ a. give (f a)) r.1).0
          (λ b. give (g b))
          (proceed r.0 (λ a. give (f a)) r.1).1
unfolding give
both_steps f g (returned a, s) = refl
both_steps f g (failed e, s) = refl
both_steps f g (panicked, s) = refl

-- Two steps after a call are one.
both_steps_after :
    {S A B C : Type 0} (m : Action S A) (f : A → B) (g : B → C) (s : S)
    → ((m >>= λ a. give (g (f a))) s) ≡ (((m >>= λ a. give (f a)) >>= λ b. give (g b)) s)
unfolding ◌>>=◌
both_steps_after m f g s = both_steps f g (m s)

-- The texts that are put between quotes are plain.
abbrev pub Safe : (String → Bool) → Backend → Command → Type 0
Safe plain cockroach (update_profile u) =
    (plain u.password ≡ true)
    × (plain u.last_name ≡ true)
    × (plain u.first_name ≡ true)
    × (plain u.email ≡ true)
    × (plain u.access ≡ true)
    × (plain u.id ≡ true)
Safe plain cockroach (update_access a) =
    (plain a.access ≡ true) × (plain a.user_profile_id ≡ true) × (plain a.pipeline_id ≡ true)
Safe plain cockroach (delete_access p id) = (plain p ≡ true) × (plain id ≡ true)
Safe plain mock c = ⊥
Safe plain b (delete_profile id) = plain id ≡ true
Safe plain b c = Unit

module _ (engine : Engine) (u : Understands engine) where
  open engine use {State}
  open u use {plain}

  -- All vendors read an access alike.
  access-EndsAs :
      (new_id p i : String) (s : State)
      → EndsAs engine u new_id (get_access p i) s (
          ((queried engine (statement_of new_id (get_access p i)) scan_text >>= λ x.
          give (record { user_profile_id = i; pipeline_id = p; access = x }))
              >>= λ a. give (access a))
            s)
  access-EndsAs new_id p i s =
      subst (EndsAs engine u new_id (get_access p i) s)
        (both_steps_after (queried engine (statement_of new_id (get_access p i)) scan_text)
          (λ x. record { user_profile_id = i; pipeline_id = p; access = x }) access s)
        (queried-Ended engine u (statement_of new_id (get_access p i)) refl scan_text
          (λ x. access (record { user_profile_id = i; pipeline_id = p; access = x })) s refl)

  mysql-Lawful : Lawful engine u (users_of mysql engine) (Safe plain mysql)
  unfolding perform Mysql.get_user_pipeline_access Mysql.create_user_pipeline_access
      Mysql.update_user_pipeline_access Mysql.delete_user_pipeline_access Mysql.create_user_profile
      Mysql.update_user_profile Mysql.delete_user_profile Mysql.get_all_user_profile
      Mysql.get_all_user_profile_for_pipeline Mysql.get_user_profile_by_email Mysql.get_user_profile
  mysql-Lawful id (create_profile p) safe s =
      run_prepared-Ended engine u (statement_of id (create_profile p)) refl s
  mysql-Lawful id (update_profile p) safe s =
      run_prepared-Ended engine u (statement_of id (update_profile p)) refl s
  mysql-Lawful id (delete_profile i) safe s =
      executed-Ended engine u (delete "userprofile" (("id", quoted i) ∷ [])) (rw safe refl) s
  mysql-Lawful id (get_profile i) safe s =
      queried-Ended engine u (statement_of id (get_profile i)) refl scan_profile profile s refl
  mysql-Lawful id (get_profile_by_email e) safe s =
      queried-Ended engine u (statement_of id (get_profile_by_email e)) refl scan_profile profile s
        refl
  mysql-Lawful id all_profiles safe s =
      profiles-Ended engine u (statement_of id all_profiles) refl s refl
  mysql-Lawful id (profiles_for p) safe s =
      profiles-Ended engine u (statement_of id (profiles_for p)) refl s refl
  mysql-Lawful id (create_access a) safe s =
      run_prepared-Ended engine u (statement_of id (create_access a)) refl s
  mysql-Lawful id (update_access a) safe s =
      run_prepared-Ended engine u (statement_of id (update_access a)) refl s
  mysql-Lawful id (delete_access p i) safe s =
      run_prepared-Ended engine u (statement_of id (delete_access p i)) refl s
  mysql-Lawful id (get_access p i) safe s = access-EndsAs id p i s

  singlestore-Lawful : Lawful engine u (users_of singlestore engine) (Safe plain singlestore)
  unfolding perform Singlestore.get_user_pipeline_access Singlestore.create_user_pipeline_access
      Singlestore.update_user_pipeline_access Singlestore.delete_user_pipeline_access
      Singlestore.create_user_profile Singlestore.update_user_profile
      Singlestore.delete_user_profile Singlestore.get_all_user_profile
      Singlestore.get_all_user_profile_for_pipeline Singlestore.get_user_profile_by_email
      Singlestore.get_user_profile
  singlestore-Lawful id (create_profile p) safe s =
      run_prepared-Ended engine u (statement_of id (create_profile p)) refl s
  singlestore-Lawful id (update_profile p) safe s =
      run_prepared-Ended engine u (statement_of id (update_profile p)) refl s
  singlestore-Lawful id (delete_profile i) safe s =
      executed-Ended engine u (delete "userprofile" (("id", quoted i) ∷ [])) (rw safe refl) s
  singlestore-Lawful id (get_profile i) safe s =
      queried-Ended engine u (statement_of id (get_profile i)) refl scan_profile profile s refl
  singlestore-Lawful id (get_profile_by_email e) safe s =
      queried-Ended engine u (statement_of id (get_profile_by_email e)) refl scan_profile profile s
        refl
  singlestore-Lawful id all_profiles safe s =
      profiles-Ended engine u (statement_of id all_profiles) refl s refl
  singlestore-Lawful id (profiles_for p) safe s =
      profiles-Ended engine u (statement_of id (profiles_for p)) refl s refl
  singlestore-Lawful id (create_access a) safe s =
      run_prepared-Ended engine u (statement_of id (create_access a)) refl s
  singlestore-Lawful id (update_access a) safe s =
      run_prepared-Ended engine u (statement_of id (update_access a)) refl s
  singlestore-Lawful id (delete_access p i) safe s =
      run_prepared-Ended engine u (statement_of id (delete_access p i)) refl s
  singlestore-Lawful id (get_access p i) safe s = access-EndsAs id p i s

  cockroach-Lawful : Lawful engine u (users_of cockroach engine) (Safe plain cockroach)
  unfolding perform Cockroach.get_user_pipeline_access Cockroach.create_user_pipeline_access
      Cockroach.update_user_pipeline_access Cockroach.delete_user_pipeline_access
      Cockroach.create_user_profile Cockroach.update_user_profile Cockroach.delete_user_profile
      Cockroach.get_all_user_profile Cockroach.get_all_user_profile_for_pipeline
      Cockroach.get_user_profile_by_email Cockroach.get_user_profile
  cockroach-Lawful id (create_profile p) safe s =
      returning-Ended engine u "userprofile" (Cockroach.profile_terms id p) "id" id refl refl s
  cockroach-Lawful id (update_profile p) (a, b, c, d, e, f) s =
      executed-Ended engine u
        (update "userprofile" (Cockroach.profile_changes p) (("id", quoted p.id) ∷ []))
        (rw (a, b, c, d, e, f) refl) s
  cockroach-Lawful id (delete_profile i) safe s =
      executed-Ended engine u (delete "userprofile" (("id", quoted i) ∷ [])) (rw safe refl) s
  cockroach-Lawful id (get_profile i) safe s =
      queried-Ended engine u (statement_of id (get_profile i)) refl scan_profile profile s refl
  cockroach-Lawful id (get_profile_by_email e) safe s =
      queried-Ended engine u (statement_of id (get_profile_by_email e)) refl scan_profile profile s
        refl
  cockroach-Lawful id all_profiles safe s =
      profiles-Ended engine u (statement_of id all_profiles) refl s refl
  cockroach-Lawful id (profiles_for p) safe s =
      profiles-Ended engine u (statement_of id (profiles_for p)) refl s refl
  cockroach-Lawful id (create_access a) safe s =
      returning-Ended engine u "userpipelineaccess" (Cockroach.access_terms a) "userprofileid"
        a.user_profile_id refl refl s
  cockroach-Lawful id (update_access a) (b, c, d) s =
      executed-Ended engine u
        (update "userpipelineaccess" (("access", quoted a.access) ∷ [])
          (("userprofileid", quoted a.user_profile_id) ∷ ("pipelineid", quoted a.pipeline_id) ∷ []))
        (rw (b, c, d) refl) s
  cockroach-Lawful id (delete_access p i) (a, b) s =
      executed-Ended engine u
        (delete "userpipelineaccess" (("pipelineid", quoted p) ∷ ("userprofileid", quoted i) ∷ []))
        (rw (a, b) refl) s
  cockroach-Lawful id (get_access p i) safe s = access-EndsAs id p i s

  pub users_of-Lawful : (b : Backend) → Lawful engine u (users_of b engine) (Safe plain b)
  users_of-Lawful cockroach = cockroach-Lawful
  users_of-Lawful mysql = mysql-Lawful
  users_of-Lawful singlestore = singlestore-Lawful
  users_of-Lawful mock = λ id c safe s. absurd safe

  -- The back ends of CockroachDB, MySQL and SingleStore refine the directory of profiles and
  -- accesses. Over a database that carries out each statement as documented, or answers an error and
  -- has carried it out or not, and whose reading of rows may break off at any row, where the texts
  -- that a back end puts between quotes are plain: from tables that hold a directory, any commands
  -- lead to tables that hold a directory that the commands may lead to, each carried out with a
  -- right answer, of which a list may be a part of all; or failing with an error of the database,
  -- carried out or not; or failing because there is nothing to find.
  pub users_of-Leads :
      (b : Backend) (l : List (String × Command)) (s : State) (d : Directory)
      → AllSafe engine u (Safe plain b) l
      → Holds (u.tables s) d
      → (d' : Directory) × (Holds (u.tables (perform_all (users_of b engine) l s)) d'
          × Leads engine u.same l d d')
  users_of-Leads b l s d safe holds =
      perform_all-Leads engine u (users_of b engine) (Safe plain b) (users_of-Lawful b) l s d safe
        holds
