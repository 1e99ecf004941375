-- ===== src/Db/Directory.antt =====
-- What the users' part of internal/db promises: the profiles and the accesses as lists, and what each
-- call may do to them.
pub mod Rows
pub mod Steps
pub mod Effects
pub mod Answering
pub mod Refines
pub mod Vendors
use mathlib.Core.List.{Permᴰ}
use churro.Common.{
  Bool, true, false, ◌&&◌, String, List, [], ◌∷◌, ◌++◌, if◌then◌else◌, ◌≡◌, ◌⊎◌, some,
}
use churro.Common.Action.{Result, ok, err, Outcome, returned, failed, panicked, Action, give, ◌>>=◌}
use churro.Domain.{UserProfile, UserPipelineAccess}
use churro.Db.{Engine, Statement, Users, no_rows}

pub record Directory : Type 0 where
  pub profiles : List UserProfile
  pub accesses : List UserPipelineAccess

pub data Command : Type 0 where
  create_profile : UserProfile → Command
  update_profile : UserProfile → Command
  delete_profile : String → Command
  get_profile : String → Command
  get_profile_by_email : String → Command
  all_profiles : Command
  profiles_for : String → Command
  create_access : UserPipelineAccess → Command
  update_access : UserPipelineAccess → Command
  delete_access : String → String → Command
  get_access : String → String → Command

pub data Answer : Type 0 where
  done : Answer
  profile : UserProfile → Answer
  profiles : List UserProfile → Answer
  access : UserPipelineAccess → Answer

-- The call of a back end for a command
unfoldable pub perform : {S : Type 0} → Users S → Command → Action S Answer
perform b (create_profile u) = b.create_user_profile u >>= λ _. give done
perform b (update_profile u) = b.update_user_profile u >>= λ _. give done
perform b (delete_profile id) = b.delete_user_profile id >>= λ _. give done
perform b (get_profile id) = b.get_user_profile id >>= λ u. give (profile u)
perform b (get_profile_by_email e) = b.get_user_profile_by_email e >>= λ u. give (profile u)
perform b all_profiles = b.get_all_user_profile >>= λ l. give (profiles l)
perform b (profiles_for p) = b.get_all_user_profile_for_pipeline p >>= λ l. give (profiles l)
perform b (create_access a) = b.create_user_pipeline_access a >>= λ _. give done
perform b (update_access a) = b.update_user_pipeline_access a >>= λ _. give done
perform b (delete_access p id) = b.delete_user_pipeline_access p id >>= λ _. give done
perform b (get_access p id) = b.get_user_pipeline_access p id >>= λ a. give (access a)

-- The commands one after the other, each with the ID that is drawn for it; an error of one does not
-- stop those behind it.
unfoldable pub perform_all : {S : Type 0} → (String → Users S) → List (String × Command) → S → S
unfolding perform
perform_all b [] s = s
perform_all b ((id, c) ∷ l) s = perform_all b l (perform (b id) c s).1

module _ {A : Type 0} where
  abbrev pub keep : (A → Bool) → List A → List A
  keep p [] = []
  keep p (x ∷ l) = let rest = keep p l in if p x then x ∷ rest else rest

  abbrev pub drop_where : (A → Bool) → List A → List A
  drop_where p [] = []
  drop_where p (x ∷ l) = let rest = drop_where p l in if p x then rest else x ∷ rest

  abbrev pub change_where : (A → Bool) → (A → A) → List A → List A
  change_where p f [] = []
  change_where p f (x ∷ l) = (if p x then f x else x) ∷ change_where p f l

-- A part of a list, in some order
abbrev pub Part : {A : Type 0} → List A → List A → Type 0
Part {A} l all = (rest : List A) × Permᴰ (l ++ rest) all

-- The answer is about one of the list.
abbrev pub OneOf : {A : Type 0} → (A → Answer) → List A → Answer → Type 0
OneOf {A} f l answer = (x : A) × ((answer ≡ f x) × ((r : List A) × Permᴰ (x ∷ r) l))

module _ (same : String → String → Bool) where
  -- The access of this user to this pipeline
  abbrev pub is_access : String → String → UserPipelineAccess → Bool
  is_access pipeline id a = same a.pipeline_id pipeline && same a.user_profile_id id

  -- A profile, once for each of its accesses to the pipeline
  abbrev pub copies : String → UserProfile → List UserPipelineAccess → List UserProfile
  copies pipeline u [] = []
  copies pipeline u (a ∷ l) =
      let rest = copies pipeline u l in
      if same u.id a.user_profile_id && same a.pipeline_id pipeline then u ∷ rest else rest

  abbrev pub members : String → List UserProfile → List UserPipelineAccess → List UserProfile
  members pipeline [] accesses = []
  members pipeline (u ∷ l) accesses = copies pipeline u accesses ++ members pipeline l accesses

  -- The directory after a command that is carried out. A new profile has the ID that was drawn.
  abbrev pub carried_out : String → Command → Directory → Directory
  carried_out new_id (create_profile u) d = record d {
    profiles = d.profiles ++ (record u { id = new_id } ∷ []);
  }
  carried_out new_id (update_profile u) d = record d {
    profiles = change_where (λ p. same p.id u.id) (λ p. record u { id = p.id }) d.profiles;
  }
  carried_out new_id (delete_profile id) d = record d {
    profiles = drop_where (λ p. same p.id id) d.profiles;
  }
  carried_out new_id (create_access a) d = record d { accesses = d.accesses ++ (a ∷ []) }
  carried_out new_id (update_access a) d = record d {
    accesses =
        change_where (is_access a.pipeline_id a.user_profile_id)
          (λ b. record b { access = a.access }) d.accesses;
  }
  carried_out new_id (delete_access p id) d = record d {
    accesses = drop_where (is_access p id) d.accesses;
  }
  carried_out new_id (get_profile _) d = d
  carried_out new_id (get_profile_by_email _) d = d
  carried_out new_id all_profiles d = d
  carried_out new_id (profiles_for _) d = d
  carried_out new_id (get_access _ _) d = d

  -- What a query may find: one of those asked for, or some of them in any order. A list need not be all
  -- of them, since the code takes a reading that breaks off for the end of the rows.
  abbrev pub Answers : Command → Directory → Answer → Type 0
  Answers (get_profile id) d answer = OneOf profile (keep (λ p. same p.id id) d.profiles) answer
  Answers (get_profile_by_email e) d answer =
      OneOf profile (keep (λ p. same p.email e) d.profiles) answer
  Answers all_profiles d answer =
      (l : List UserProfile) × ((answer ≡ profiles l) × Part l d.profiles)
  Answers (profiles_for p) d answer =
      (l : List UserProfile) × ((answer ≡ profiles l) × Part l (members p d.profiles d.accesses))
  Answers (get_access p id) d answer =
      OneOf (λ a. access (record { user_profile_id = id; pipeline_id = p; access = a.access }))
        (keep (is_access p id) d.accesses) answer
  Answers _ d answer = answer ≡ done

  -- A query that finds nothing
  abbrev pub Empty : Command → Directory → Type 0
  Empty (get_profile id) d = keep (λ p. same p.id id) d.profiles ≡ []
  Empty (get_profile_by_email e) d = keep (λ p. same p.email e) d.profiles ≡ []
  Empty (get_access p id) d = keep (is_access p id) d.accesses ≡ []
  Empty _ d = ⊥

-- The error is one of the database itself.
abbrev pub Refused : Engine → String → Type 0
Refused engine e =
    ((st : Statement) × ((s : engine.State) × (engine.prepare st s ≡ err e)))
    ⊎ ((st : Statement) × ((s : engine.State) × ((engine.exec st s).0 ≡ err e)))
    ⊎ ((st : Statement) × ((s : engine.State) × (engine.interrupted st s ≡ some e)))
    ⊎ ((st : Statement) × ((s : engine.State) × (engine.closed st s ≡ some e)))

-- How a command may end: it is carried out, or it fails by an error of the database, which leaves open
-- whether it is carried out, or because there is nothing to find.
abbrev pub Allows :
    Engine
    → (String → String → Bool)
    → String
    → Command
    → Directory
    → Outcome Answer
    → Directory
    → Type 0
Allows engine same new_id c d (returned answer) d' =
    (d' ≡ carried_out same new_id c d) × Answers same c d answer
Allows engine same new_id c d (failed e) d' =
    ((d' ≡ d) ⊎ (d' ≡ carried_out same new_id c d))
    × (Refused engine e ⊎ ((e ≡ no_rows) × Empty same c d))
Allows engine same new_id c d panicked d' = ⊥

-- The directories that the commands may lead to, one after the other.
pub data Leads (engine : Engine) (same : String → String → Bool)
    : List (String × Command) → Directory → Directory → Type 0 where
  stay : {d : Directory} → Leads engine same [] d d
  go :
      {id : String} {c : Command} {l : List (String × Command)} {d d' d'' : Directory}
      (o : Outcome Answer)
      → Allows engine same id c d o d'
      → Leads engine same l d' d''
      → Leads engine same ((id, c) ∷ l) d d''
