-- ===== src/Handlers.antt =====
-- internal/handlers: the pages of the user interface. One `HandlerWrapper` serves all requests
-- (ui/main.go), so its fields are part of the state, beside the table of session tokens and the admin
-- database. Templates are a parameter that may fail to parse; an error of their execution is only logged.
pub mod UserAdmin
pub mod Account
pub mod PipelineUsers
pub mod Site
pub mod Pages
pub mod Rules
pub mod Extensions
pub mod Functions
pub mod Pipelines
use churro.Common.{Bool, String, List, [], ◌∷◌, Option, none, some, ◌==◌, if◌then◌else◌, ◌<>◌}
use churro.Common.Action.{
  Result, ok, err, Outcome, Action, give, panic, read, write, of_result, rescue, ◌>>=◌, ◌>>◌,
}
use churro.Domain.{UserProfile, UserPipelineAccess}
use churro.Db.{Users, zero_profile}

-- A request: its path, the first values of its form, the variables of its route, and the cookie of
-- the session.
pub record Request : Type 0 where
  pub uri : String
  pub form : List (String × String)
  pub vars : List (String × String)
  pub cookie : Result String

-- What a template gets to show
pub record Page : Type 0 where
  pub user_email : String
  pub error_text : String
  pub user : UserProfile
  pub values : List (String × String)
  pub list : List UserProfile

-- What is written: a page, a text, an error in JSON with its status, or a redirection.
pub data Response : Type 0 where
  page : String → Page → Response
  body : String → Response
  json_error : String → Response
  redirect : String → Response

pub record World (S : Type 0) : Type 0 where
  pub db : S
  pub user_email : String
  pub error_text : String
  pub tokens : List (String × String)

-- What the handlers use: `NewChurroDB` for the type of the wrapper, `GetConnection`, the parsing of a
-- template, the name of the pipeline of an ID, and the text that `xid` draws in a state.
pub record Web (S : Type 0) : Type 0 where
  pub new_database : Result (Unit {0})
  pub users : String → Users S
  pub connection : S → Result (Unit {0})
  pub template : String → Result (Unit {0})
  pub pipeline_name : String → Result String
  pub draw : World S → String

-- `r.Form[key][0]`: a panic for a key that is not there.
abbrev pub value_at : String → List (String × String) → Option String
value_at key [] = none
value_at key ((k, v) ∷ l) = let rest = value_at key l in if k == key then some v else rest

abbrev pub form_value : {S : Type 0} → Option String → Action S String
form_value none = panic
form_value (some v) = give v

-- A variable of the route: the empty text if it is not there.
abbrev pub var_or_empty : Option String → String
var_or_empty none = ""
var_or_empty (some v) = v

abbrev pub var : String → Request → String
var key r = var_or_empty (value_at key r.vars)

module _ {S : Type 0} where
  abbrev pub form : String → Request → Action (World S) String
  form key r = form_value (value_at key r.form)

  abbrev carried : {A : Type 0} → World S → Outcome A × S → Outcome A × World S
  carried w (o, s) = (o, record w { db = s })

  -- A call of the database
  unfoldable pub on_db : {A : Type 0} → Action S A → Action (World S) A
  on_db m w = carried w (m w.db)

  -- On an error the handler answers with it and ends.
  unfoldable pub or_answer :
      {A : Type 0}
      → Action (World S) A
      → (String → Response)
      → (A → Action (World S) Response)
      → Action (World S) Response
  unfolding rescue
  or_answer m answer k = rescue m (λ e. give (answer e)) k

  module _ (web : Web S) where
    -- `NewChurroDB` and `GetConnection`
    unfoldable pub open_db : Action (World S) (Unit {0})
    open_db = do of_result web.new_database; db ← read (λ w. w.db); of_result (web.connection db)

    unfoldable pub parse_files : String → Action (World S) (Unit {0})
    parse_files file = of_result (web.template file)

    -- The calls of the back end, with the ID that is drawn now
    unfoldable pub with_users : {A : Type 0} → (Users S → Action S A) → Action (World S) A
    unfolding on_db
    with_users call = do id ← read web.draw; on_db (call (web.users id))
