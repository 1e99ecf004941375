-- ===== src/Db/Mock.antt =====
-- internal/db/mockdb/auth.go: a database that keeps nothing and answers with one user.
use churro.Common.{[], ◌==◌, if◌then◌else◌}
use churro.Common.Action.{give, fail}
use churro.Domain.{UserProfile, UserPipelineAccess}
use churro.Db.{Users, zero_profile}

abbrev pub test_user : UserProfile
test_user = record {
  id = "13";
  first_name = "admin";
  last_name = "admin";
  password = "password";
  access = "Read";
  email = "admin@admin.org";
}

abbrev pub test_user_pipeline_access : UserPipelineAccess
test_user_pipeline_access = record { user_profile_id = "13"; pipeline_id = "1"; access = "Read" }

abbrev pub users : {S : Type 0} → Users S
users = record {
  get_user_pipeline_access = λ pipeline id.
      if pipeline == "testpipeline"
      then give test_user_pipeline_access
      else fail "pipeline name not found";
  create_user_pipeline_access = λ a. give tt;
  update_user_pipeline_access = λ a. give tt;
  delete_all_user_pipeline_access = λ pipeline. give tt;
  delete_user_pipeline_access = λ pipeline id. give tt;
  create_user_profile = λ u. give tt;
  update_user_profile = λ u. give tt;
  delete_user_profile = λ id. give tt;
  authenticate = λ email password. give zero_profile;
  bootstrap = give tt;
  get_all_user_profile = give [];
  get_all_user_profile_for_pipeline = λ pipeline. give [];
  get_user_profile_by_email = λ email. give test_user;
  get_user_profile = λ id. give zero_profile;
}
