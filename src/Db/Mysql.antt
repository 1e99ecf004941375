-- ===== src/Db/Mysql.antt =====
-- internal/db/mysql/auth.go: the users and their access, by prepared statements.
use churro.Common.{String, List, [], ◌∷◌, ◌==◌, if◌then◌else◌}
use churro.Common.Action.{Action, give, fail, of_result, ◌>>=◌, ◌>>◌, rescue}
use churro.Domain.{UserProfile, UserPipelineAccess}
use churro.Db.{
  param, quoted, Terms, insert, update, delete, select, select_joined, Engine, Users, scan_nothing,
  scan_text, scan_profile, scan_profiles, profile_columns, no_rows, prepared, executed, queried,
  run_prepared, zero_profile,
}

abbrev pub profile_terms : String → UserProfile → Terms
profile_terms id u =
    ("password", param u.password)
    ∷ ("id", param id)
    ∷ ("lastname", param u.last_name)
    ∷ ("firstname", param u.first_name)
    ∷ ("email", param u.email)
    ∷ ("access", param u.access)
    ∷ []

abbrev pub profile_changes : UserProfile → Terms
profile_changes u =
    ("password", param u.password)
    ∷ ("lastname", param u.last_name)
    ∷ ("firstname", param u.first_name)
    ∷ ("email", param u.email)
    ∷ ("access", param u.access)
    ∷ []

abbrev pub access_terms : UserPipelineAccess → Terms
access_terms a =
    ("userprofileid", param a.user_profile_id)
    ∷ ("pipelineid", param a.pipeline_id)
    ∷ ("access", param a.access)
    ∷ []

-- The profile that `Bootstrap` inserts
abbrev pub admin_terms : Terms
admin_terms =
    ("id", param "0000")
    ∷ ("firstname", param "admin")
    ∷ ("lastname", param "admin")
    ∷ ("password", param "admin")
    ∷ ("access", param "Admin")
    ∷ ("email", param "admin@admin.org")
    ∷ []

-- The ID of `xid` is a parameter.
module _ (engine : Engine) (new_id : String) where
  open engine use {State}

  unfoldable pub get_user_pipeline_access : String → String → Action State UserPipelineAccess
  unfolding queried
  get_user_pipeline_access pipeline id = do
    access ←
        queried engine
          (select ("access" ∷ []) "userpipelineaccess"
            (("pipelineid", param pipeline) ∷ ("userprofileid", param id) ∷ []))
          scan_text
    give (record { user_profile_id = id; pipeline_id = pipeline; access = access })

  unfoldable pub create_user_pipeline_access : UserPipelineAccess → Action State (Unit {0})
  unfolding run_prepared queried
  create_user_pipeline_access a = run_prepared engine (insert "userpipelineaccess" (access_terms a))

  unfoldable pub update_user_pipeline_access : UserPipelineAccess → Action State (Unit {0})
  unfolding run_prepared executed
  update_user_pipeline_access a = run_prepared engine (
      update "userpipelineaccess" (("access", param a.access) ∷ [])
        (("userprofileid", param a.user_profile_id) ∷ ("pipelineid", param a.pipeline_id) ∷ []))

  unfoldable pub delete_all_user_pipeline_access : String → Action State (Unit {0})
  unfolding run_prepared executed prepared
  delete_all_user_pipeline_access pipeline =
      prepared engine (delete "userpipelineaccess" (("pipelineid", param pipeline) ∷ []))
      >> rescue
          (executed engine (delete "userpipelineaccess" (("pipelineid", param pipeline) ∷ [])))
          (λ _. give tt) (λ _. give tt)

  unfoldable pub delete_user_pipeline_access : String → String → Action State (Unit {0})
  unfolding run_prepared executed
  delete_user_pipeline_access pipeline id = run_prepared engine (
      delete "userpipelineaccess"
        (("pipelineid", param pipeline) ∷ ("userprofileid", param id) ∷ []))

  unfoldable pub create_user_profile : UserProfile → Action State (Unit {0})
  unfolding run_prepared queried
  create_user_profile u = run_prepared engine (insert "userprofile" (profile_terms new_id u))

  unfoldable pub update_user_profile : UserProfile → Action State (Unit {0})
  unfolding run_prepared executed
  update_user_profile u =
      run_prepared engine (update "userprofile" (profile_changes u) (("id", param u.id) ∷ []))

  unfoldable pub delete_user_profile : String → Action State (Unit {0})
  unfolding executed
  delete_user_profile id =
      executed engine (delete "userprofile" (("id", quoted id) ∷ [])) >>= λ _. give tt

  -- Neither the address nor the password is looked at.
  unfoldable pub authenticate : String → String → Action State UserProfile
  authenticate email password = give zero_profile

  unfoldable pub get_all_user_profile : Action State (List UserProfile)
  unfolding executed
  get_all_user_profile = do
    rows ← executed engine (select profile_columns "userprofile" [])
    of_result (scan_profiles rows)

  unfoldable pub get_all_user_profile_for_pipeline : String → Action State (List UserProfile)
  unfolding executed
  get_all_user_profile_for_pipeline pipeline = do
    rows ← executed engine (
        select_joined (record {
          columns = profile_columns;
          first = "userprofile";
          second = "userpipelineaccess";
          first_key = "id";
          second_key = "userprofileid";
          condition = ("pipelineid", param pipeline) ∷ [];
        }))
    of_result (scan_profiles rows)

  unfoldable pub get_user_profile_by_email : String → Action State UserProfile
  unfolding queried
  get_user_profile_by_email email =
      queried engine (select profile_columns "userprofile" (("email", param email) ∷ []))
        scan_profile

  unfoldable pub get_user_profile : String → Action State UserProfile
  unfolding queried
  get_user_profile id =
      queried engine (select profile_columns "userprofile" (("id", param id) ∷ [])) scan_profile

  -- An INSERT delivers no row, which `Scan` reports and the code takes for success.
  unfoldable pub insert_admin : Action State (Unit {0})
  unfolding queried
  insert_admin =
      rescue (queried engine (insert "userprofile" admin_terms) scan_nothing)
        (λ e. if e == no_rows then give tt else fail e) (λ _. give tt)

  -- The admin is inserted if the query fails by the absence of a row.
  unfoldable pub bootstrap : Action State (Unit {0})
  unfolding queried insert_admin
  bootstrap =
      rescue
        (queried engine (select ("id" ∷ []) "userprofile" (("id", param "0000") ∷ [])) scan_text)
        (λ e. if e == no_rows then insert_admin else fail e) (λ _. give tt)

  abbrev pub users : Users State
  users = record {
    get_user_pipeline_access = get_user_pipeline_access;
    create_user_pipeline_access = create_user_pipeline_access;
    update_user_pipeline_access = update_user_pipeline_access;
    delete_all_user_pipeline_access = delete_all_user_pipeline_access;
    delete_user_pipeline_access = delete_user_pipeline_access;
    create_user_profile = create_user_profile;
    update_user_profile = update_user_profile;
    delete_user_profile = delete_user_profile;
    authenticate = authenticate;
    bootstrap = bootstrap;
    get_all_user_profile = get_all_user_profile;
    get_all_user_profile_for_pipeline = get_all_user_profile_for_pipeline;
    get_user_profile_by_email = get_user_profile_by_email;
    get_user_profile = get_user_profile;
  }
