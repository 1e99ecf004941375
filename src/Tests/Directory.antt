-- ===== src/Tests/Directory.antt =====
-- A database of two tables, and the pages of the users over it.
use mathlib.Core.List.Permᴰ.{refl as same_rows}
use churro.Common.{String, List, [], ◌∷◌, none, some, if◌then◌else◌, true, ◌==◌, ◌≡◌, refl}
use churro.Common.Action.{ok, err, returned, ◌>>=◌}
use churro.Domain.{UserProfile}
use churro.Db.{Engine}
use churro.Db.Mysql.{create_user_profile, get_all_user_profile, profile_terms}
use churro.Db.Semantics.{Tables, Understands, after, delivered, new_row, texts}
use churro.Db.Backends.{mysql, cockroach, users_of}
use churro.Db.Directory.{
  Directory, Command, create_profile, update_profile, delete_profile, all_profiles, perform_all,
  Leads,
}
use churro.Db.Directory.Rows.{Holds}
use churro.Db.Directory.Vendors.{users_of-Leads}
use churro.Handlers.{Request, World, Web, redirect}
use churro.Handlers.Account.{login_try}
use churro.Handlers.Site.{to_users, to_useradmin, serve, serve_all, handler}
use churro.Handlers.Site.Sessions.{serve_all-Idle, login_try-serve, logged_in}
use churro.Handlers.UserAdmin.{user_admin}

-- Every statement runs, and texts are equal if they are the same.
abbrev tables_engine : Engine
tables_engine = record {
  State = Tables;
  prepare = λ st t. ok tt;
  exec = λ st t. (ok (delivered (λ x y. x == y) st t), after (λ x y. x == y) st t);
  interrupted = λ st t. none;
  closed = λ st t. none;
}

abbrev understood : Understands tables_engine
understood = record {
  tables = λ t. t;
  plain = λ x. true;
  same = λ x y. x == y;
  runs = λ st s h. (refl, same_rows (delivered (λ x y. x == y) st s));
}

-- As above, but each reading of rows breaks off before the first.
abbrev frail_engine : Engine
frail_engine = record {
  State = Tables;
  prepare = λ st t. ok tt;
  exec = λ st t. (ok [], after (λ x y. x == y) st t);
  interrupted = λ st t. some "connection reset";
  closed = λ st t. none;
}

abbrev frail : Understands frail_engine
frail = record {
  tables = λ t. t;
  plain = λ x. true;
  same = λ x y. x == y;
  runs = λ st s h.
      (refl, (delivered (λ x y. x == y) st s, same_rows (delivered (λ x y. x == y) st s)));
}

abbrev ann : UserProfile
ann = record {
  id = "u1";
  first_name = "Ann";
  last_name = "Lee";
  password = "secret";
  access = "Read";
  email = "ann@churro";
}

abbrev nobody : Tables
nobody table = []

abbrev empty : Directory
empty = record { profiles = []; accesses = [] }

abbrev commands : List (String × Command)
commands =
    ("u1", create_profile ann)
    ∷ ("", update_profile (record ann { access = "Admin" }))
    ∷ ("", delete_profile "u2")
    ∷ ("", all_profiles)
    ∷ []

users_of-Leads_example :
    (d' : Directory) × (Holds (perform_all (users_of cockroach frail_engine) commands nobody) d'
      × Leads frail_engine (λ x y. x == y) commands empty d')
users_of-Leads_example =
    users_of-Leads frail_engine frail cockroach commands nobody empty
      (tt, ((refl, refl, refl, refl, refl, refl), (refl, (tt, tt)))) (tt, tt)

-- A table of one profile, and its list that comes out empty without an error
abbrev ann_alone : Tables
ann_alone table =
    if table == "userprofile" then new_row (texts (profile_terms "u1" ann)) ∷ [] else []

list_cut_short : (get_all_user_profile frail_engine "" ann_alone).0 ≡ returned []
unfolding get_all_user_profile ◌>>=◌
list_cut_short = refl

abbrev web : Web Tables
web = record {
  new_database = ok tt;
  users = users_of mysql tables_engine;
  connection = λ t. ok tt;
  template = λ file. ok tt;
  pipeline_name = λ id. ok "sales";
  draw = λ w. "t1";
}

abbrev closed : World Tables
closed = record { db = nobody; user_email = ""; error_text = ""; tokens = [] }

abbrev request : Request
request = record {
  uri = "/useradmin";
  form =
      ("firstname", "Ann")
      ∷ ("lastname", "Lee")
      ∷ ("password", "secret")
      ∷ ("pwd", "anything")
      ∷ ("email", "ann@churro")
      ∷ ("access", "Admin")
      ∷ [];
  vars = [];
  cookie = err "http: named cookie not present";
}

serve_all-Idle_example :
    ((serve_all web ((to_useradmin, request) ∷ []) closed).db ≡ nobody)
    × ((serve_all web ((to_useradmin, request) ∷ []) closed).user_email ≡ "")
serve_all-Idle_example = serve_all-Idle web ((to_useradmin, request) ∷ []) closed ((refl, tt), tt)

-- Nobody is known to the database, and the login succeeds.
login_try-serve_example :
    (login_try web request closed ≡ (returned (redirect "/"), logged_in web "ann@churro" closed))
    × (serve web to_users (record request { cookie = ok "t1" }) (logged_in web "ann@churro" closed)
        ≡ handler web to_users
            (record request { cookie = ok "t1" })
            (logged_in web "ann@churro" closed))
login_try-serve_example =
    login_try-serve tables_engine mysql web to_users request (record request { cookie = ok "t1" })
      closed "ann@churro" "anything" (λ id. refl) refl refl refl refl refl refl refl

user_admin_run : (user_admin web request closed).0 ≡ returned (redirect "/users")
unfolding user_admin ◌>>=◌ create_user_profile
user_admin_run = refl
