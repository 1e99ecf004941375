-- ===== src/Authorization.antt =====
-- internal/authorization/auth.go: whether a user may act on a pipeline. The database is the
-- interface `ChurroDatabase` of internal/db, with the calls that are made of it.
pub mod Ranks
use Prim.Native.Nat.{bit_and}
use churro.Common.{
  ℕ, zero, suc, ◌/◌, ◌%◌, Bool, true, false, ◌&&◌, ◌||◌, not, String, ◌==◌, if◌then◌else◌, leb, ltb,
}
use churro.Common.Action.{Result, ok, err}
use churro.Domain.{UserProfile}

-- `HasFlag` of a `Bitmask`
unfoldable pub has_flag : ℕ → ℕ → Bool
has_flag f flag = ltb 0 (bit_and f flag)

abbrev pub action_read : ℕ
action_read = 1

abbrev pub action_write : ℕ
action_write = 2

abbrev pub action_admin : ℕ
action_admin = 4

pub record AuthMap : Type 0 where
  pub subject : String
  pub pipeline_id : String
  pub object : String
  pub action : ℕ

-- The admin database: `NewChurroDB` of a type, `GetConnection`, `GetUserProfileByEmail`, and the
-- access of `GetUserPipelineAccess`.
pub record Database : Type 0 where
  pub new_database : String → Result (Unit {0})
  pub connection : Result (Unit {0})
  pub user_profile_by_email : String → Result UserProfile
  pub user_pipeline_access : String → String → Result String

-- The `switch` on the access: nothing is granted for another text.
abbrev pub granted : String → ℕ
granted access =
    if access == "Read"
    then action_read
    else if access == "Write"
    then action_write
    else if access == "Admin"
    then action_admin
    else 0

abbrev pub grant_of : String → ℕ → AuthMap
grant_of subject action = record {
  subject = subject;
  pipeline_id = "";
  object = "";
  action = action;
}

-- The access that counts for a user who is no admin: that to the pipeline, if one is named.
abbrev pub effective_access : Database → String → UserProfile → Result String
effective_access db pipeline_id up =
    if pipeline_id == "" then ok up.access else db.user_pipeline_access pipeline_id up.id

abbrev pub grant_access : String → Result String → Result AuthMap
grant_access email (err e) = err e
grant_access email (ok access) = ok (grant_of email (granted access))

abbrev pub grant_profile : Database → String → Result UserProfile → Result AuthMap
grant_profile db pipeline_id (err e) = err e
grant_profile db pipeline_id (ok up) =
    if up.access == "Admin"
    then ok (grant_of up.email action_admin)
    else grant_access up.email (effective_access db pipeline_id up)

abbrev pub connected : Result (Unit {0}) → Result AuthMap → Result AuthMap
connected (err e) next = err e
connected (ok _) next = next

unfoldable pub get_auth_map : Database → String → String → String → Result AuthMap
get_auth_map db subject pipeline_id db_type =
    connected (db.new_database db_type)
      (connected db.connection (grant_profile db pipeline_id (db.user_profile_by_email subject)))

-- `Authorized` behind the reading of the user's grant
abbrev pub allowed : AuthMap → AuthMap → Bool
allowed m am =
    if m.subject == am.subject && has_flag am.action action_admin
    then true
    else if m.subject == am.subject && m.object == am.object
    then has_flag am.action m.action
      || (has_flag am.action action_write && (leb m.action action_read && leb action_read m.action))
    else false

abbrev pub decide : AuthMap → Result AuthMap → Bool
decide m (err e) = false
decide m (ok am) = allowed m (record am { object = m.object })

unfoldable pub authorized : Database → AuthMap → String → Bool
unfolding get_auth_map has_flag
authorized db m db_type = decide m (get_auth_map db m.subject m.pipeline_id db_type)
