-- ===== src/Db/Cockroach.antt =====
-- internal/db/cockroachdb/auth.go: the users and their access. Changes and deletions write the values into the text.
use churro.Common.{String, List, [], ◌∷◌, ◌==◌, if◌then◌else◌}
use churro.Common.Action.{Action, give, fail, of_result, ◌>>=◌, rescue}
use churro.Domain.{UserProfile, UserPipelineAccess}
use churro.Db.{
  param, quoted, Terms, insert_returning, update, delete, select, select_joined, Engine, Users,
  scan_text, scan_profile, scan_profiles, profile_columns, no_rows, executed, queried, run_prepared,
  zero_profile,
}

abbrev pub profile_terms : String → UserProfile → Terms
profile_terms id u =
    ("password", param u.password)
    ∷ ("id", param id)
    ∷ ("lastname", param u.last_name)
    ∷ ("firstname", param u.first_name)
    ∷ ("email", param u.email)
    ∷ ("access", param u.access)
    ∷ []

abbrev pub profile_changes : UserProfile → Terms
profile_changes u =
    ("password", quoted u.password)
    ∷ ("lastname", quoted u.last_name)
    ∷ ("firstname", quoted u.first_name)
    ∷ ("email", quoted u.email)
    ∷ ("access", quoted u.access)
    ∷ []

abbrev pub access_terms : UserPipelineAccess → Terms
access_terms a =
    ("userprofileid", param a.user_profile_id)
    ∷ ("pipelineid", param a.pipeline_id)
    ∷ ("access", param a.access)
    ∷ []

-- The profile that `Bootstrap` inserts
abbrev pub admin_terms : Terms
admin_terms =
    ("id", param "0000")
    ∷ ("firstname", param "admin")
    ∷ ("lastname", param "admin")
    ∷ ("password", param "admin")
    ∷ ("access", param "Admin")
    ∷ ("email", param "admin@admin.org")
    ∷ []

-- The ID of `xid` is a parameter.
module _ (engine : Engine) (new_id : String) where
  open engine use {State}

  unfoldable pub get_user_pipeline_access : String → String → Action State UserPipelineAccess
  unfolding queried
  get_user_pipeline_access pipeline id = do
    access ←
        queried engine
          (select ("access" ∷ []) "userpipelineaccess"
            (("pipelineid", param pipeline) ∷ ("userprofileid", param id) ∷ []))
          scan_text
    give (record { user_profile_id = id; pipeline_id = pipeline; access = access })

  unfoldable pub create_user_pipeline_access : UserPipelineAccess → Action State (Unit {0})
  unfolding run_prepared queried
  create_user_pipeline_access a =
      queried engine (insert_returning "userpipelineaccess" (access_terms a) "userprofileid")
        scan_text
      >>= λ _. give tt

  unfoldable pub update_user_pipeline_access : UserPipelineAccess → Action State (Unit {0})
  unfolding run_prepared executed
  update_user_pipeline_access a =
      executed engine (
        update "userpipelineaccess" (("access", quoted a.access) ∷ [])
          (("userprofileid", quoted a.user_profile_id) ∷ ("pipelineid", quoted a.pipeline_id) ∷ []))
      >>= λ _. give tt

  unfoldable pub delete_all_user_pipeline_access : String → Action State (Unit {0})
  unfolding run_prepared executed
  delete_all_user_pipeline_access pipeline =
      executed engine (delete "userpipelineaccess" (("pipelineid", quoted pipeline) ∷ [])) >>= λ _.
      give tt

  unfoldable pub delete_user_pipeline_access : String → String → Action State (Unit {0})
  unfolding run_prepared executed
  delete_user_pipeline_access pipeline id =
      executed engine (
        delete "userpipelineaccess"
          (("pipelineid", quoted pipeline) ∷ ("userprofileid", quoted id) ∷ []))
      >>= λ _. give tt

  unfoldable pub create_user_profile : UserProfile → Action State (Unit {0})
  unfolding run_prepared queried
  create_user_profile u =
      queried engine (insert_returning "userprofile" (profile_terms new_id u) "id") scan_text
      >>= λ _. give tt

  unfoldable pub update_user_profile : UserProfile → Action State (Unit {0})
  unfolding run_prepared executed
  update_user_profile u =
      executed engine (update "userprofile" (profile_changes u) (("id", quoted u.id) ∷ [])) >>= λ _.
      give tt

  unfoldable pub delete_user_profile : String → Action State (Unit {0})
  unfolding executed
  delete_user_profile id =
      executed engine (delete "userprofile" (("id", quoted id) ∷ [])) >>= λ _. give tt

  -- Neither the address nor the password is looked at.
  unfoldable pub authenticate : String → String → Action State UserProfile
  authenticate email password = give zero_profile

  unfoldable pub get_all_user_profile : Action State (List UserProfile)
  unfolding executed
  get_all_user_profile = do
    rows ← executed engine (select profile_columns "userprofile" [])
    of_result (scan_profiles rows)

  unfoldable pub get_all_user_profile_for_pipeline : String → Action State (List UserProfile)
  unfolding executed
  get_all_user_profile_for_pipeline pipeline = do
    rows ← executed engine (
        select_joined (record {
          columns = profile_columns;
          first = "userprofile";
          second = "userpipelineaccess";
          first_key = "id";
          second_key = "userprofileid";
          condition = ("pipelineid", param pipeline) ∷ [];
        }))
    of_result (scan_profiles rows)

  unfoldable pub get_user_profile_by_email : String → Action State UserProfile
  unfolding queried
  get_user_profile_by_email email =
      queried engine (select profile_columns "userprofile" (("email", param email) ∷ []))
        scan_profile

  unfoldable pub get_user_profile : String → Action State UserProfile
  unfolding queried
  get_user_profile id =
      queried engine (select profile_columns "userprofile" (("id", param id) ∷ [])) scan_profile

  -- The admin is inserted if the query fails by the absence of a row.
  unfoldable pub bootstrap : Action State (Unit {0})
  unfolding queried
  bootstrap =
      rescue
        (queried engine (select ("id" ∷ []) "userprofile" (("id", param "0000") ∷ [])) scan_text)
        (λ e.
          if e == no_rows
          then (queried engine (insert_returning "userprofile" admin_terms "id") scan_text >>= λ _.
              give tt)
          else fail e)
        (λ _. give tt)

  abbrev pub users : Users State
  users = record {
    get_user_pipeline_access = get_user_pipeline_access;
    create_user_pipeline_access = create_user_pipeline_access;
    update_user_pipeline_access = update_user_pipeline_access;
    delete_all_user_pipeline_access = delete_all_user_pipeline_access;
    delete_user_pipeline_access = delete_user_pipeline_access;
    create_user_profile = create_user_profile;
    update_user_profile = update_user_profile;
    delete_user_profile = delete_user_profile;
    authenticate = authenticate;
    bootstrap = bootstrap;
    get_all_user_profile = get_all_user_profile;
    get_all_user_profile_for_pipeline = get_all_user_profile_for_pipeline;
    get_user_profile_by_email = get_user_profile_by_email;
    get_user_profile = get_user_profile;
  }
