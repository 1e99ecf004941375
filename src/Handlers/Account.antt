-- ===== src/Handlers/Account.antt =====
-- internal/handlers/account.go: sessions, and the profile of the user.
use churro.Common.{String, List, [], ◌∷◌, ◌==◌, ◌||◌, if◌then◌else◌, Option, none, some, insert}
use churro.Common.Action.{ok, err, Action, give, read, write, of_result, rescue, ◌>>=◌, ◌>>◌}
use churro.Domain.{UserProfile}
use churro.Db.{zero_profile}
use churro.Handlers.{
  Request, Page, Response, page, body, json_error, redirect, World, Web, form, value_at, or_answer,
  open_db, parse_files, with_users,
}

-- `delete` of a Go map
abbrev pub forget : String → List (String × String) → List (String × String)
forget key [] = []
forget key ((k, v) ∷ l) = let rest = forget key l in if k == key then rest else (k, v) ∷ rest

abbrev pub empty_page : Page
empty_page = record {
  user_email = "";
  error_text = "";
  user = zero_profile;
  values = [];
  list = [];
}

-- The page of a profile: its access and its names
abbrev pub profile_page : String → String → UserProfile → Page
profile_page user_email error us = record {
  user_email = user_email;
  error_text = error;
  user = record zero_profile {
    access = us.access;
    first_name = us.first_name;
    last_name = us.last_name;
  };
  values = [];
  list = [];
}

-- The handler runs for a token that has a user.
abbrev pub admit :
    {S : Type 0} → Action (World S) Response → Option String → Action (World S) Response
admit next none = give (redirect "/login")
admit next (some user) = next

module _ {S : Type 0} (web : Web S) where
  unfoldable pub logout : Request → Action (World S) Response
  unfolding or_answer parse_files
  logout r = elim r.cookie [
    | err e ↦ give (redirect "/login")
    | ok token ↦ do
      write (λ w. record w { tokens = forget token w.tokens })
      or_answer (parse_files web "pages/logout.html") body
          (λ _. give (page "pages/logout.html" empty_page))
  ]

  unfoldable pub login : Action (World S) Response
  unfolding or_answer parse_files
  login =
      or_answer (parse_files web "pages/login.html") body
        (λ _. give (page "pages/login.html" empty_page))

  -- `LoginTry` behind the checks of the form
  unfoldable pub start_session : String → String → Action (World S) Response
  unfolding or_answer open_db with_users
  start_session email password = or_answer (open_db web) json_error (λ _.
      or_answer (with_users web (λ b. b.authenticate email password)) json_error (λ _. do
        token ← read web.draw
        write (λ w. record w { tokens = insert token email w.tokens })
        write (λ w. record w { user_email = email })
        give (redirect "/")))

  unfoldable pub login_try : Request → Action (World S) Response
  unfolding start_session
  login_try r = do
    email ← form "email" r
    password ← form "pwd" r
    if email == ""
        then give (json_error "Invalid email address")
        else if password == ""
        then give (json_error "Invalid password")
        else start_session email password

  -- The page with an error, and with what the database knows of the user
  unfoldable pub show_profile : String → Action (World S) Response
  unfolding or_answer with_users
  show_profile error = do
    user_email ← read (λ w. w.user_email)
    or_answer (with_users web (λ b. b.get_user_profile_by_email user_email)) body
        (λ us. give (page "pages/profile.html" (profile_page user_email error us)))

  -- `ProfileUpdate` behind the checks: the profile of the address of the form is changed.
  unfoldable pub update_profile_of : UserProfile → Action (World S) Response
  unfolding show_profile with_users rescue
  update_profile_of us =
      rescue (with_users web (λ b. b.get_user_profile_by_email us.email)) show_profile (λ x.
        rescue (with_users web (λ b. b.update_user_profile (record us { id = x.id })))
          (λ e. do
            user_email ← read (λ w. w.user_email)
            give (
                page "pages/profile.html"
                  (record empty_page { user_email = user_email; error_text = e })))
          (λ _. give (redirect "/")))

  unfoldable pub profile_update : Request → Action (World S) Response
  unfolding update_profile_of show_profile or_answer open_db parse_files
  profile_update r = do
    email ← form "email" r
    firstname ← form "firstname" r
    lastname ← form "lastname" r
    access ← form "access" r
    password ← form "pwd" r
    or_answer (parse_files web "pages/profile.html") body (λ _. or_answer (open_db web) body (λ _.
        if email == ""
        then show_profile "invalid email address"
        else if password == ""
        then show_profile "invalid password"
        else rescue (read (λ w. w.db) >>= λ db. of_result (web.connection db)) show_profile (λ _.
          update_profile_of (record {
            id = "";
            first_name = firstname;
            last_name = lastname;
            password = password;
            access = access;
            email = email;
          }))))

  unfoldable pub profile : Action (World S) Response
  unfolding or_answer open_db with_users parse_files
  profile = or_answer (parse_files web "pages/profile.html") body (λ _.
      or_answer (open_db web) body (λ _. do
        user_email ← read (λ w. w.user_email)
        or_answer (with_users web (λ b. b.get_user_profile_by_email user_email)) body
            (λ us. give (page "pages/profile.html" (profile_page user_email "" us)))))

  -- `Middleware`: the handler behind it runs for the paths of the login, and for a token that is known.
  unfoldable pub middleware : Request → Action (World S) Response → Action (World S) Response
  middleware r next =
      if r.uri == "/logout" || (r.uri == "/login" || r.uri == "/logintry")
      then next
      else elim r.cookie [
        | err e ↦ give (redirect "/login")
        | ok token ↦ do tokens ← read (λ w. w.tokens); admit next (value_at token tokens)
      ]
