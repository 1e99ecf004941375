-- ===== src/Handlers/PipelineUsers.antt =====
-- internal/handlers/pipelineuser.go: the users of a pipeline.
use Prim.Native.Char.{code}
use churro.Common.{String, List, [], ◌∷◌, ◌<>◌, if◌then◌else◌, Option, none, some, insert}
use churro.Common.Action.{Action, give, panic, write, of_result, rescue, ◌>>=◌, ◌>>◌}
use churro.Db.{zero_profile}
use churro.Jobs.Paths.{same_code, occurs}
use churro.Handlers.{
  Request, Page, Response, page, body, redirect, World, Web, form, var, value_at, or_answer,
  open_db, parse_files, with_users,
}

-- The page of a pipeline: its ID and its name
abbrev pub pipeline_page : String → String → String → Page
pipeline_page id name error = record {
  user_email = "";
  error_text = error;
  user = zero_profile;
  values = ("PipelineID", id) ∷ ("PipelineName", name) ∷ [];
  list = [];
}

-- The text up to a dash, and the text behind it if there is one
abbrev pub cut_at_dash : String → String × Option String
cut_at_dash String.[] = ("", none)
cut_at_dash (String.◌∷◌ c s) =
    let (w, rest) = cut_at_dash s in
    if same_code (code c) 45 then ("", some s) else (String.◌∷◌ c w, rest)

-- `strings.Split(k, "-")[1]`
abbrev pub second_part : String → Option String
second_part k = elim ((cut_at_dash k).1) [ none ↦ none | some rest ↦ some ((cut_at_dash rest).0) ]

abbrev pub entry_of : Option String → List (String × String) → List (String × String)
entry_of none values = values
entry_of (some id) values = insert id "not yet figured out" values

abbrev pub selected : List (String × String) → List (String × String) → List (String × String)
selected [] values = values
selected ((k, _) ∷ l) values =
    selected l (if occurs "remember-" k then entry_of (second_part k) values else values)

abbrev pub access_or : String → Option String → String
access_or old none = old
access_or old (some v) = v

abbrev pub with_access : List (String × String) → List (String × String) → List (String × String)
with_access fields [] = []
with_access fields ((k, v) ∷ l) =
    (k, access_or v (value_at ("access-" <> k) fields)) ∷ with_access fields l

-- `getSelectedUserIds`, over the form in the order in which the loop takes its keys
unfoldable pub get_selected_user_ids : List (String × String) → List (String × String)
unfolding insert
get_selected_user_ids fields = with_access fields (selected fields [])

module _ {S : Type 0} (web : Web S) where
  unfoldable pub show_pipeline_users : Request → Action (World S) Response
  unfolding or_answer open_db parse_files with_users
  show_pipeline_users r = do
    write (λ w. record w { error_text = "" })
    or_answer (parse_files web "pages/pipeline-users.html") body (λ _.
        or_answer (open_db web)
          (λ e. page "pages/pipeline-users.html" (pipeline_page (var "id" r) "" e))
          (λ _. or_answer (of_result (web.pipeline_name (var "id" r))) body (λ name.
            or_answer (with_users web (λ b. b.get_all_user_profile))
              (λ e. page "pages/pipeline-users.html" (pipeline_page (var "id" r) name e))
              (λ l. give (
                page "pages/pipeline-users.html"
                  (record (pipeline_page (var "id" r) name "") { list = l }))))))

  -- The loop over the selected users: their profile is read, and their access is created.
  unfoldable pub add_accesses : String → String → List (String × String) → Action (World S) Response
  unfolding or_answer with_users
  add_accesses id name [] = give (redirect (("/pipelines/" <> id) <> "#nav-users"))
  add_accesses id name ((k, v) ∷ l) =
      or_answer (with_users web (λ b. b.get_user_profile k))
        (λ e. page "pages/pipeline-users.html" (pipeline_page id name e))
        (λ up.
          or_answer
            (with_users web (λ b.
              b.create_user_pipeline_access
                (record { user_profile_id = k; pipeline_id = id; access = v })))
            (λ e. page "pages/pipeline-users.html" (pipeline_page id name e))
            (λ _. add_accesses id name l))

  unfoldable pub update_pipeline_users : Request → Action (World S) Response
  unfolding or_answer open_db parse_files with_users add_accesses get_selected_user_ids
  update_pipeline_users r = do
    id ← form "pipelineid" r
    name ← form "pipelinename" r
    or_answer (parse_files web "pages/pipeline-users.html") body (λ _.
        or_answer (open_db web) (λ e. page "pages/pipeline-users.html" (pipeline_page id name e))
          (λ _.
            or_answer (with_users web (λ b. b.delete_all_user_pipeline_access id))
              (λ e. page "pages/pipeline-users.html" (pipeline_page id name e))
              (λ _. add_accesses id name (get_selected_user_ids r.form))))

  unfoldable pub delete_pipeline_user : Request → Action (World S) Response
  unfolding or_answer open_db parse_files with_users
  delete_pipeline_user r = or_answer (parse_files web "pages/pipeline-user.html") body (λ _.
      or_answer (open_db web)
        (λ e. page "pages/pipeline-user.html" (pipeline_page (var "id" r) "somepipeline" e))
        (λ _. or_answer (of_result (web.pipeline_name (var "id" r))) body (λ name.
          or_answer (with_users web (λ b. b.delete_user_pipeline_access (var "id" r) (var "uid" r)))
            (λ e. page "pages/pipeline-user.html" (pipeline_page (var "id" r) name e))
            (λ _. give (redirect ("/pipelines/" <> var "id" r))))))

  unfoldable pub pipeline_user : Request → Action (World S) Response
  unfolding or_answer open_db parse_files with_users
  pipeline_user r = or_answer (open_db web) body (λ _.
      or_answer (of_result (web.pipeline_name (var "id" r))) body (λ name.
        or_answer (with_users web (λ b. b.get_user_profile (var "userid" r))) body (λ up.
          or_answer (with_users web (λ b. b.get_user_pipeline_access (var "id" r) (var "userid" r)))
            body
            (λ uap. or_answer (parse_files web "pages/pipeline-user.html") body (λ _. give (
              page "pages/pipeline-user.html" (record (pipeline_page (var "id" r) name "") {
                user = record up { access = uap.access };
              })))))))

  -- A template that cannot be parsed is nil, and its use panics.
  unfoldable pub update_pipeline_user : Request → Action (World S) Response
  unfolding or_answer open_db parse_files with_users rescue
  update_pipeline_user r = do
    id ← form "pipelineid" r
    access ← form "useraccess" r
    rescue (parse_files web "pages/pipeline-user.html") (λ _. panic)
        (λ _.
          or_answer (open_db web) (λ e. page "pages/pipeline-user.html" (pipeline_page id "" e))
            (λ _.
              or_answer
                (with_users web (λ b.
                  b.update_user_pipeline_access
                    (record { user_profile_id = var "uid" r; pipeline_id = id; access = access })))
                (λ e. page "pages/pipeline-user.html" (pipeline_page id "" e))
                (λ _. give (redirect (("/pipelines/" <> id) <> "#nav-users")))))
