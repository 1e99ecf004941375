-- ===== src/Handlers/UserAdmin.antt =====
-- internal/handlers/useradmin.go: the pages on which users are made, changed and deleted.
pub mod Creates
use churro.Common.{Bool, String, List, [], ◌∷◌, ◌==◌, if◌then◌else◌, Option, none, some}
use churro.Common.Action.{
  Result, Action, give, panic, read, of_result, rescue, first_refusal, ◌>>=◌, ◌>>◌,
}
use churro.Domain.{UserProfile}
use churro.Db.{Users, zero_profile}
use churro.Handlers.{
  Request, Page, Response, page, body, redirect, World, Web, form, var, or_answer, open_db,
  parse_files, with_users,
}

-- The page with an error's text
abbrev pub plain_page : String → String → Page
plain_page user_email error = record {
  user_email = user_email;
  error_text = error;
  user = zero_profile;
  values = [];
  list = [];
}

abbrev pub selected_if : Bool → String
selected_if b = if b then "selected" else ""

-- The values of the access, with the present one selected
abbrev pub access_values : String → List (String × String)
access_values access =
    ("Read", selected_if (access == "Read"))
    ∷ ("Write", selected_if (access == "Write"))
    ∷ ("Admin", selected_if (access == "Admin"))
    ∷ []

abbrev pub detail_page : String → UserProfile → String → Page
detail_page user_email u error = record {
  user_email = user_email;
  error_text = error;
  user = u;
  values = access_values u.access;
  list = [];
}

-- The checks of the form of a new user, in their order
abbrev pub new_user_checks : String → String → String → String → String → List (Bool × String)
new_user_checks firstname lastname password email access =
    (firstname == "", "first name invalid")
    ∷ (lastname == "", "invalid username, first and last required")
    ∷ (password == "", "invalid password")
    ∷ (email == "", "invalid email")
    ∷ (access == "", "invalid access")
    ∷ []

abbrev pub update_checks : UserProfile → List (Bool × String)
update_checks u =
    (u.first_name == "", "first name invalid")
    ∷ (u.last_name == "", "last name invalid")
    ∷ (u.password == "", "password invalid")
    ∷ (u.email == "", "email invalid")
    ∷ (u.access == "", "access invalid")
    ∷ []

module _ {S : Type 0} (web : Web S) where
  -- `UserAdmin` behind the checks: the first failing step gives the page with its error.
  unfoldable pub create_user : String → UserProfile → Action (World S) Response
  unfolding or_answer open_db with_users
  create_user user_email u =
      or_answer (open_db web) (λ e. page "pages/user-create.html" (plain_page user_email e))
        (λ _.
          or_answer (with_users web (λ b. b.create_user_profile u))
            (λ e. page "pages/user-create.html" (plain_page user_email e))
            (λ _. give (redirect "/users")))

  -- The page with the error of the checks, or the new user with an ID that is drawn
  unfoldable pub checked_user : Option String → String → UserProfile → Action (World S) Response
  unfolding create_user
  checked_user (some e) user_email p =
      give (page "pages/user-create.html" (plain_page user_email e))
  checked_user none user_email p = do
    id ← read web.draw
    create_user user_email (record p { id = id })

  unfoldable pub user_admin : Request → Action (World S) Response
  unfolding checked_user or_answer parse_files
  user_admin r = do
    firstname ← form "firstname" r
    lastname ← form "lastname" r
    password ← form "password" r
    email ← form "email" r
    access ← form "access" r
    user_email ← read (λ w. w.user_email)
    or_answer (parse_files web "pages/user-create.html") body (λ _.
        checked_user (first_refusal (new_user_checks firstname lastname password email access))
          user_email
          (record {
            id = "";
            first_name = firstname;
            last_name = lastname;
            password = password;
            access = access;
            email = email;
          }))

  unfoldable pub user_admin_detail : Request → Action (World S) Response
  unfolding or_answer open_db with_users parse_files
  user_admin_detail r = or_answer (open_db web) body (λ _.
      or_answer (with_users web (λ b. b.get_user_profile (var "id" r))) body (λ up.
        or_answer (parse_files web "pages/useradmindetail.html") body (λ _. do
          user_email ← read (λ w. w.user_email)
          give (
              page "pages/useradmindetail.html"
                (detail_page user_email (record up { id = var "id" r }) "")))))

  -- `UserAdminUpdate` behind the checks. The page shows the address of the form as the user's.
  unfoldable pub change_user : UserProfile → Action (World S) Response
  unfolding or_answer open_db with_users
  change_user up =
      or_answer (open_db web) (λ e. page "pages/useradmindetail.html" (detail_page up.email up e))
        (λ _.
          or_answer (with_users web (λ b. b.get_user_profile up.id))
            (λ e. page "pages/useradmindetail.html" (detail_page up.email up e))
            (λ existing.
              or_answer
                (with_users web (λ b. b.update_user_profile (record existing {
                  password = up.password;
                  access = up.access;
                  email = up.email;
                  first_name = up.first_name;
                  last_name = up.last_name;
                })))
                (λ e. page "pages/useradmindetail.html" (detail_page up.email up e))
                (λ _. give (redirect "/users"))))

  unfoldable pub checked_change : Option String → UserProfile → Action (World S) Response
  unfolding change_user
  checked_change (some e) up = give (page "pages/useradmindetail.html" (detail_page up.email up e))
  checked_change none up = change_user up

  unfoldable pub user_admin_update : Request → Action (World S) Response
  unfolding checked_change or_answer parse_files
  user_admin_update r = do
    firstname ← form "firstname" r
    lastname ← form "lastname" r
    password ← form "pwd" r
    email ← form "email" r
    access ← form "access" r
    or_answer (parse_files web "pages/useradmindetail.html") body (λ _. do
      let up : UserProfile = record {
        id = var "id" r;
        first_name = firstname;
        last_name = lastname;
        password = password;
        access = access;
        email = email;
      }
      checked_change (first_refusal (update_checks up)) up)

  unfoldable pub show_create_user : Action (World S) Response
  unfolding or_answer parse_files
  show_create_user = or_answer (parse_files web "pages/user-create.html") body (λ _. do
    user_email ← read (λ w. w.user_email)
    error ← read (λ w. w.error_text)
    give (page "pages/user-create.html" (plain_page user_email error)))

  unfoldable pub list_users : Action (World S) Response
  unfolding or_answer open_db with_users parse_files
  list_users = or_answer (open_db web) body (λ _.
      or_answer (with_users web (λ b. b.get_all_user_profile)) body (λ l.
        or_answer (parse_files web "pages/useradmin.html") body (λ _. do
          user_email ← read (λ w. w.user_email)
          give (page "pages/useradmin.html" (record (plain_page user_email "") { list = l })))))

  unfoldable pub user_admin_delete : Request → Action (World S) Response
  unfolding or_answer open_db with_users
  user_admin_delete r = or_answer (open_db web) body (λ _.
      or_answer (with_users web (λ b. b.delete_user_profile (var "id" r))) body
        (λ _. give (redirect "/users")))
