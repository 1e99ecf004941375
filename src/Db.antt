-- ===== src/Db.antt =====
-- internal/db: the admin database behind the interface `ChurroDatabase`. A text of SQL is read as its
-- syntax: the table, the columns with their values, and the condition. A value is handed over as a
-- parameter of a prepared statement, or it is written into the text between quotes. Names of tables are
-- in lower case, as all back ends read them, and the columns `lastupdated` are left out.
pub mod Semantics
pub mod Mysql
pub mod Cockroach
pub mod Singlestore
pub mod Mock
pub mod Backends
pub mod Directory
use churro.Common.{Bool, String, List, [], ◌∷◌, Option, none, some, ◌==◌, if◌then◌else◌}
use churro.Common.Action.{Result, ok, err, Action, give, of_result, read, refuse_with, ◌>>=◌, ◌>>◌}
use churro.Domain.{UserProfile, UserPipelineAccess}

-- How a value comes into a statement.
pub data Term : Type 0 where
  param : String → Term
  quoted : String → Term

-- Columns with their values
abbrev pub Terms : Type 0
Terms = List (String × Term)

-- Of a join: the table and its columns, the table beside it, the columns that are compared, and the
-- condition on the second table.
pub record Join : Type 0 where
  pub columns : List String
  pub first : String
  pub second : String
  pub first_key : String
  pub second_key : String
  pub condition : Terms

pub data Statement : Type 0 where
  insert : String → Terms → Statement
  insert_returning : String → Terms → String → Statement
  update : String → Terms → Terms → Statement
  delete : String → Terms → Statement
  select : List String → String → Terms → Statement
  select_joined : Join → Statement

-- What a query delivers: for each row its columns, `none` for NULL.
abbrev pub Rows : Type 0
Rows = List (List (Option String))

-- A database of a vendor, through its driver: preparing a statement, running one, the error with which
-- the reading of its rows breaks off, if it does (`rows.Err`), behind the rows that are delivered, and
-- that of closing them.
pub record Engine : Type 1 where
  pub State : Type 0
  pub prepare : Statement → State → Result (Unit {0})
  pub exec : Statement → State → Result Rows × State
  pub interrupted : Statement → State → Option String
  pub closed : Statement → State → Option String

-- `sql.ErrNoRows`
abbrev pub no_rows : String
no_rows = "sql: no rows in result set"

-- The first row, or the error that stopped the reading before it, or that there is none.
abbrev pub first_row : Option String → Rows → Result (List (Option String))
first_row _ (row ∷ _) = ok row
first_row (some e) [] = err e
first_row none [] = err no_rows

-- `Scan` into texts: the number of columns is that of the places, and none is NULL.
abbrev pub scan_profile : List (Option String) → Result UserProfile
scan_profile (some i ∷ some f ∷ some l ∷ some p ∷ some a ∷ some e ∷ []) =
    ok (record { id = i; first_name = f; last_name = l; password = p; access = a; email = e })
scan_profile _ = err "sql: Scan error"

abbrev pub scan_text : List (Option String) → Result String
scan_text (some x ∷ []) = ok x
scan_text _ = err "sql: Scan error"

-- `Scan` with no place
abbrev pub scan_nothing : List (Option String) → Result (Unit {0})
scan_nothing [] = ok tt
scan_nothing (_ ∷ _) = err "sql: Scan error"

-- `for rows.Next()`, up to the first row that cannot be scanned. The code does not look at `rows.Err`
-- behind the loop.
abbrev pub scan_profiles : Rows → Result (List UserProfile)
scan_profiles [] = ok []
scan_profiles (row ∷ rows) = elim (scan_profile row) [
  | err e ↦ err e
  | ok u ↦ elim (scan_profiles rows) [ err e ↦ err e | ok l ↦ ok (u ∷ l) ]
]

-- The columns of the table userprofile, as all queries name them.
abbrev pub profile_columns : List String
profile_columns = "id" ∷ "firstname" ∷ "lastname" ∷ "password" ∷ "access" ∷ "email" ∷ []

module _ (engine : Engine) where
  open engine use {State, prepare, exec, interrupted, closed}

  -- `Prepare`
  unfoldable pub prepared : Statement → Action State (Unit {0})
  prepared st s = of_result (prepare st s) s

  -- `Exec` and `Query`
  unfoldable pub executed : Statement → Action State Rows
  executed st s = let (r, t) = exec st s in of_result r t

  -- `QueryRow` with `Scan`, which closes the rows at its end
  unfoldable pub queried :
      {A : Type 0} → Statement → (List (Option String) → Result A) → Action State A
  unfolding executed
  queried st scan = do
    cut ← read (λ s. interrupted st s)
    closing ← read (λ s. closed st s)
    rows ← executed st
    row ← of_result (first_row cut rows)
    a ← of_result (scan row)
    refuse_with closing
    give a

  -- `Prepare` and then `Exec`
  unfoldable pub run_prepared : Statement → Action State (Unit {0})
  unfolding prepared executed
  run_prepared st = do prepared st; executed st; give tt

-- `domain.UserProfile{}`
abbrev pub zero_profile : UserProfile
zero_profile = record {
  id = "";
  first_name = "";
  last_name = "";
  password = "";
  access = "";
  email = "";
}

-- What the users' part of `ChurroDatabase` offers, over the states of a database
pub record Users (S : Type 0) : Type 0 where
  pub get_user_pipeline_access : String → String → Action S UserPipelineAccess
  pub create_user_pipeline_access : UserPipelineAccess → Action S (Unit {0})
  pub update_user_pipeline_access : UserPipelineAccess → Action S (Unit {0})
  pub delete_all_user_pipeline_access : String → Action S (Unit {0})
  pub delete_user_pipeline_access : String → String → Action S (Unit {0})
  pub create_user_profile : UserProfile → Action S (Unit {0})
  pub update_user_profile : UserProfile → Action S (Unit {0})
  pub delete_user_profile : String → Action S (Unit {0})
  pub authenticate : String → String → Action S UserProfile
  pub bootstrap : Action S (Unit {0})
  pub get_all_user_profile : Action S (List UserProfile)
  pub get_all_user_profile_for_pipeline : String → Action S (List UserProfile)
  pub get_user_profile_by_email : String → Action S UserProfile
  pub get_user_profile : String → Action S UserProfile
