-- ===== src/Handlers/Site/Sessions.antt =====
-- Who gets a session, and what those without one can do.
use mathlib.Core.Path.{subst}
use churro.Common.{
  Bool, true, false, String, List, [], ◌∷◌, ◌==◌, ◌||◌, none, some, insert, ◌≡◌, refl, sym, ◌∙◌,
  arith, Bool-cases, inl, inr, eq_iff, eq_refl,
}
use churro.Common.Action.{
  Result, ok, err, Outcome, returned, Action, give, read, write, of_result, rescue, ◌>>=◌,
}
use churro.Db.{Engine, zero_profile}
use churro.Db.Mysql
use churro.Db.Cockroach
use churro.Db.Singlestore
use churro.Db.Backends.{Backend, cockroach, mysql, singlestore, mock, users_of}
use churro.Handlers.{
  Request, Response, redirect, World, Web, value_at, or_answer, open_db, parse_files, with_users,
  on_db,
}
use churro.Handlers.Account.{forget, login, login_try, start_session, logout, middleware}
use churro.Handlers.Site.{
  Route, to_users, to_useradmin, to_show_create, to_detail, to_update, to_delete, to_login,
  to_logintry, to_logout, to_profile, to_profileupdate, to_pipeline_users, to_add_users,
  to_pipeline_user, to_deleteuser, to_change_user, handler, serve, serve_all,
}

pub value_at-insert :
    (k v : String) (l : List (String × String)) → value_at k (insert k v l) ≡ some v
unfolding insert
value_at-insert k v [] = rw (eq_refl k) refl
value_at-insert k v ((j, x) ∷ l) =
    ground (arith, eq_iff k j, eq_iff j k, eq_refl k, value_at-insert k v l)

-- A path that needs no session
abbrev pub open_uri : String → Bool
open_uri uri = uri == "/logout" || (uri == "/login" || uri == "/logintry")

module _ {S : Type 0} (web : Web S) where
  -- The back end answers every pair of an address and a password with a profile.
  abbrev pub Trusting : Type 0
  Trusting =
      (id email password : String) (s : S)
      → (web.users id).authenticate email password s ≡ (returned zero_profile, s)

  abbrev pub logged_in : String → World S → World S
  logged_in email w = record w { tokens = insert (web.draw w) email w.tokens; user_email = email }

  start_session_lem :
      (email password : String) (w : World S)
      → Trusting
      → web.new_database ≡ ok tt
      → web.connection w.db ≡ ok tt
      → start_session web email password w ≡ (returned (redirect "/"), logged_in email w)
  unfolding start_session or_answer open_db with_users on_db rescue ◌>>=◌ insert
  start_session_lem email password w trusting h k =
      rw (h, k, trusting (web.draw w) email password w.db) refl

  middleware-known :
      (r : Request) (next : Action (World S) Response) (w : World S) (c : Result String)
      (token user : String)
      → r.cookie ≡ c
      → c ≡ ok token
      → value_at token w.tokens ≡ some user
      → middleware web r next w ≡ next w
  unfolding middleware ◌>>=◌ read
  middleware-known r next w c token user e f h = elim (Bool-cases (open_uri r.uri)) [
    | inl o ↦ rw o refl
    | inr o ↦ rw (o, e, f, h) refl
  ]

  -- A cookie without a session
  abbrev pub Unknown : Result String → List (String × String) → Type 0
  Unknown (err _) tokens = Unit
  Unknown (ok token) tokens = value_at token tokens ≡ none

  middleware-Unknown :
      (r : Request) (next : Action (World S) Response) (w : World S) (c : Result String)
      → r.cookie ≡ c
      → Unknown c w.tokens
      → open_uri r.uri ≡ false
      → middleware web r next w ≡ (returned (redirect "/login"), w)
  unfolding middleware ◌>>=◌ read give
  middleware-Unknown r next w (err x) e h o = rw (o, e) refl
  middleware-Unknown r next w (ok token) e h o = rw (o, e, h) refl

  -- Known tokens do not become more.
  abbrev pub Fewer : List (String × String) → List (String × String) → Type 0
  Fewer l l' = (k : String) → value_at k l ≡ none → value_at k l' ≡ none

  forget-Fewer : (token : String) (l : List (String × String)) → Fewer l (forget token l)
  forget-Fewer token [] k h = h
  forget-Fewer token ((j, v) ∷ l) k h = ground (arith, forget-Fewer token l k)

  -- Nothing but tokens that go
  abbrev pub Idle : World S → World S → Type 0
  Idle w w' = (w'.db ≡ w.db) × (w'.user_email ≡ w.user_email) × Fewer w.tokens w'.tokens

  login-Idle : (w : World S) → Idle w (login web w).1
  unfolding login or_answer parse_files rescue give of_result
  login-Idle w = go (web.template "pages/login.html") refl
    where
      go : (c : Result (Unit {0})) → web.template "pages/login.html" ≡ c → Idle w (login web w).1
      go (ok _) e = rw e (refl, refl, λ k h. h)
      go (err x) e = rw e (refl, refl, λ k h. h)

  logout-Idle : (r : Request) (w : World S) → Idle w (logout web r w).1
  unfolding logout or_answer parse_files rescue give of_result write ◌>>=◌
  logout-Idle r w = go r.cookie refl (web.template "pages/logout.html") refl
    where
      go :
          (c : Result String)
          → r.cookie ≡ c
          → (d : Result (Unit {0})) → web.template "pages/logout.html" ≡ d
          → Idle w (logout web r w).1
      go (err x) e d f = rw e (refl, refl, λ k h. h)
      go (ok token) e (ok _) f = rw (e, f) (refl, refl, forget-Fewer token w.tokens)
      go (ok token) e (err x) f = rw (e, f) (refl, refl, forget-Fewer token w.tokens)

  -- A request that fits its route, of somebody without a session who does not log in
  abbrev pub Outside : List (String × String) → Route → Request → Type 0
  Outside tokens to_logintry r = ⊥
  Outside tokens to_login r = open_uri r.uri ≡ true
  Outside tokens to_logout r = open_uri r.uri ≡ true
  Outside tokens route r = (open_uri r.uri ≡ false) × Unknown r.cookie tokens

  abbrev pub AllOutside : List (String × String) → List (Route × Request) → Type 0
  AllOutside tokens [] = Unit
  AllOutside tokens ((route, r) ∷ l) = Outside tokens route r × AllOutside tokens l

  -- The handlers behind a session do not run.
  stopped-Idle :
      (r : Request) (next : Action (World S) Response) (w : World S)
      → (open_uri r.uri ≡ false) × Unknown r.cookie w.tokens
      → Idle w (middleware web r next w).1
  stopped-Idle r next w (o, h) =
      subst (λ (x : Outcome Response × World S). Idle w x.1)
        (sym (middleware-Unknown r next w r.cookie refl h o)) (refl, refl, λ k e. e)

  open-Idle :
      (r : Request) (next : Action (World S) Response) (w : World S)
      → open_uri r.uri ≡ true
      → Idle w (next w).1
      → Idle w (middleware web r next w).1
  unfolding middleware
  open-Idle r next w o h = rw o h

  serve-Idle :
      (route : Route) (r : Request) (w : World S)
      → Outside w.tokens route r
      → Idle w (serve web route r w).1
  unfolding serve
  serve-Idle to_login r w o = open-Idle r (login web) w o (login-Idle w)
  serve-Idle to_logout r w o = open-Idle r (logout web r) w o (logout-Idle r w)
  serve-Idle to_logintry r w o = absurd o
  serve-Idle to_users r w o = stopped-Idle r (handler web to_users r) w o
  serve-Idle to_useradmin r w o = stopped-Idle r (handler web to_useradmin r) w o
  serve-Idle to_show_create r w o = stopped-Idle r (handler web to_show_create r) w o
  serve-Idle to_detail r w o = stopped-Idle r (handler web to_detail r) w o
  serve-Idle to_update r w o = stopped-Idle r (handler web to_update r) w o
  serve-Idle to_delete r w o = stopped-Idle r (handler web to_delete r) w o
  serve-Idle to_profile r w o = stopped-Idle r (handler web to_profile r) w o
  serve-Idle to_profileupdate r w o = stopped-Idle r (handler web to_profileupdate r) w o
  serve-Idle to_pipeline_users r w o = stopped-Idle r (handler web to_pipeline_users r) w o
  serve-Idle to_add_users r w o = stopped-Idle r (handler web to_add_users r) w o
  serve-Idle to_pipeline_user r w o = stopped-Idle r (handler web to_pipeline_user r) w o
  serve-Idle to_deleteuser r w o = stopped-Idle r (handler web to_deleteuser r) w o
  serve-Idle to_change_user r w o = stopped-Idle r (handler web to_change_user r) w o

  Unknown-Fewer :
      (c : Result String) (l l' : List (String × String)) → Fewer l l' → Unknown c l → Unknown c l'
  Unknown-Fewer (err _) l l' f h = tt
  Unknown-Fewer (ok token) l l' f h = f token h

  Outside-Fewer :
      (route : Route) (r : Request) (l l' : List (String × String))
      → Fewer l l'
      → Outside l route r
      → Outside l' route r
  Outside-Fewer to_login r l l' f o = o
  Outside-Fewer to_logout r l l' f o = o
  Outside-Fewer to_logintry r l l' f o = o
  Outside-Fewer to_users r l l' f (o, h) = (o, Unknown-Fewer r.cookie l l' f h)
  Outside-Fewer to_useradmin r l l' f (o, h) = (o, Unknown-Fewer r.cookie l l' f h)
  Outside-Fewer to_show_create r l l' f (o, h) = (o, Unknown-Fewer r.cookie l l' f h)
  Outside-Fewer to_detail r l l' f (o, h) = (o, Unknown-Fewer r.cookie l l' f h)
  Outside-Fewer to_update r l l' f (o, h) = (o, Unknown-Fewer r.cookie l l' f h)
  Outside-Fewer to_delete r l l' f (o, h) = (o, Unknown-Fewer r.cookie l l' f h)
  Outside-Fewer to_profile r l l' f (o, h) = (o, Unknown-Fewer r.cookie l l' f h)
  Outside-Fewer to_profileupdate r l l' f (o, h) = (o, Unknown-Fewer r.cookie l l' f h)
  Outside-Fewer to_pipeline_users r l l' f (o, h) = (o, Unknown-Fewer r.cookie l l' f h)
  Outside-Fewer to_add_users r l l' f (o, h) = (o, Unknown-Fewer r.cookie l l' f h)
  Outside-Fewer to_pipeline_user r l l' f (o, h) = (o, Unknown-Fewer r.cookie l l' f h)
  Outside-Fewer to_deleteuser r l l' f (o, h) = (o, Unknown-Fewer r.cookie l l' f h)
  Outside-Fewer to_change_user r l l' f (o, h) = (o, Unknown-Fewer r.cookie l l' f h)

  AllOutside-Fewer :
      (l l' : List (String × String)) (requests : List (Route × Request))
      → Fewer l l'
      → AllOutside l requests
      → AllOutside l' requests
  AllOutside-Fewer l l' [] f h = tt
  AllOutside-Fewer l l' ((route, r) ∷ requests) f (h, hs) =
      (Outside-Fewer route r l l' f h, AllOutside-Fewer l l' requests f hs)

  -- However many requests come, each for the page of the login, for the logout, or for another page
  -- with no cookie or with one that is no session's: they leave the admin database and the user for
  -- whom the handlers act as they are.
  pub serve_all-Idle :
      (requests : List (Route × Request)) (w : World S)
      → AllOutside w.tokens requests
      → ((serve_all web requests w).db ≡ w.db)
        × ((serve_all web requests w).user_email ≡ w.user_email)
  unfolding serve_all
  serve_all-Idle [] w h = (refl, refl)
  serve_all-Idle ((route, r) ∷ requests) w (h, hs) =
      let (e, f, fewer) = serve-Idle route r w h in
      let (e', f') =
        serve_all-Idle requests (serve web route r w).1
          (AllOutside-Fewer w.tokens (serve web route r w).1.tokens requests fewer hs) in
      (e' ∙ e, f' ∙ f)

  login_try-admitted :
      (route : Route) (r r' : Request) (w : World S) (email password : String)
      → Trusting
      → value_at "email" r.form ≡ some email
      → value_at "pwd" r.form ≡ some password
      → (email == "") ≡ false
      → (password == "") ≡ false
      → web.new_database ≡ ok tt
      → web.connection w.db ≡ ok tt
      → r'.cookie ≡ ok (web.draw w)
      → (login_try web r w ≡ (returned (redirect "/"), logged_in email w))
        × (serve web route r' (logged_in email w) ≡ handler web route r' (logged_in email w))
  unfolding login_try serve give ◌>>=◌
  login_try-admitted route r r' w email password trusting e f g h d c k = (
    rw (e, f, g, h) (start_session_lem email password w trusting d c),
    middleware-known r' (handler web route r') (logged_in email w) r'.cookie (web.draw w) email refl
        k (value_at-insert (web.draw w) email w.tokens),
  )

authenticate-trusts :
    (engine : Engine) (b : Backend) (id email password : String) (s : engine.State)
    → (users_of b engine id).authenticate email password s ≡ (returned zero_profile, s)
unfolding Mysql.authenticate Cockroach.authenticate Singlestore.authenticate give
authenticate-trusts engine cockroach id email password s = refl
authenticate-trusts engine mysql id email password s = refl
authenticate-trusts engine singlestore id email password s = refl
authenticate-trusts engine mock id email password s = refl

-- Where one of the back ends can be opened, a login with any address and any password that are not
-- empty succeeds, whether the user exists or not: it redirects to the first page, the drawn token is a
-- session of that address, and the handlers act for that address from then on, in every session. A
-- request with that token as its cookie reaches its handler.
pub login_try-serve :
    (engine : Engine) (b : Backend) (web : Web engine.State) (route : Route) (r r' : Request)
    (w : World engine.State) (email password : String)
    → ((id : String) → web.users id ≡ users_of b engine id)
    → value_at "email" r.form ≡ some email
    → value_at "pwd" r.form ≡ some password
    → (email == "") ≡ false
    → (password == "") ≡ false
    → web.new_database ≡ ok tt
    → web.connection w.db ≡ ok tt
    → r'.cookie ≡ ok (web.draw w)
    → (login_try web r w ≡ (returned (redirect "/"), logged_in web email w))
      × (serve web route r' (logged_in web email w) ≡ handler web route r' (logged_in web email w))
login_try-serve engine b web route r r' w email password uses =
    login_try-admitted web route r r' w email password
      (λ id e p s. rw (uses id) (authenticate-trusts engine b id e p s))
