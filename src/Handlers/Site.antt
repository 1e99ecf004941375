-- ===== src/Handlers/Site.antt =====
-- ui/main.go: the routes to the handlers of users and sessions, behind the middleware, and requests one
-- after the other. The variables of a route are part of its request.
pub mod Sessions
use churro.Common.{List, [], ◌∷◌}
use churro.Common.Action.{Action, Outcome}
use churro.Handlers.{Request, Response, World, Web}
use churro.Handlers.UserAdmin.{
  user_admin, user_admin_detail, user_admin_update, show_create_user, list_users, user_admin_delete,
}
use churro.Handlers.Account.{logout, login, login_try, profile_update, profile, middleware}
use churro.Handlers.PipelineUsers.{
  show_pipeline_users, update_pipeline_users, delete_pipeline_user, pipeline_user,
  update_pipeline_user,
}

pub data Route : Type 0 where
  to_users : Route
  to_useradmin : Route
  to_show_create : Route
  to_detail : Route
  to_update : Route
  to_delete : Route
  to_login : Route
  to_logintry : Route
  to_logout : Route
  to_profile : Route
  to_profileupdate : Route
  to_pipeline_users : Route
  to_add_users : Route
  to_pipeline_user : Route
  to_deleteuser : Route
  to_change_user : Route

module _ {S : Type 0} (web : Web S) where
  abbrev pub handler : Route → Request → Action (World S) Response
  handler to_users r = list_users web
  handler to_useradmin r = user_admin web r
  handler to_show_create r = show_create_user web
  handler to_detail r = user_admin_detail web r
  handler to_update r = user_admin_update web r
  handler to_delete r = user_admin_delete web r
  handler to_login r = login web
  handler to_logintry r = login_try web r
  handler to_logout r = logout web r
  handler to_profile r = profile web
  handler to_profileupdate r = profile_update web r
  handler to_pipeline_users r = show_pipeline_users web r
  handler to_add_users r = update_pipeline_users web r
  handler to_pipeline_user r = pipeline_user web r
  handler to_deleteuser r = delete_pipeline_user web r
  handler to_change_user r = update_pipeline_user web r

  unfoldable pub serve : Route → Request → Action (World S) Response
  unfolding middleware list_users user_admin show_create_user user_admin_detail user_admin_update
      user_admin_delete login login_try logout profile profile_update show_pipeline_users
      update_pipeline_users pipeline_user delete_pipeline_user update_pipeline_user
  serve route r = middleware web r (handler route r)

  -- The world after requests
  unfoldable pub serve_all : List (Route × Request) → World S → World S
  unfolding serve
  serve_all [] w = w
  serve_all ((route, r) ∷ l) w = serve_all l (serve route r w).1
