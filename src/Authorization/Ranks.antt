-- ===== src/Authorization/Ranks.antt =====
-- The accesses as a ladder: each allows what the ones below it allow.
use churro.Common.{
  ℕ, Bool, true, false, ◌&&◌, ◌||◌, String, ◌==◌, if◌then◌else◌, leb, ◌≡◌, refl, eq_refl, arith,
  ◌⊎◌, inl, inr, Bool-cases, ◌∙◌,
}
use churro.Common.Action.{Result, ok, err}
use churro.Domain.{UserProfile}
use churro.Authorization.{
  has_flag, action_read, action_write, action_admin, AuthMap, Database, granted, grant_of,
  effective_access, grant_access, grant_profile, get_auth_map, allowed, decide, authorized,
}

-- The three actions that the program asks for.
pub data Kind : Type 0 where
  reading writing administering : Kind

abbrev pub action_of : Kind → ℕ
action_of reading = action_read
action_of writing = action_write
action_of administering = action_admin

abbrev pub level : Kind → ℕ
level reading = 1
level writing = 2
level administering = 3

-- The step of the ladder that an access stands on.
abbrev pub rank : String → ℕ
rank access =
    if access == "Read"
    then 1
    else if access == "Write"
    then 2
    else if access == "Admin"
    then 3
    else 0

-- The decision for a grant to the subject itself.
abbrev verdict : ℕ → ℕ → Bool
verdict g a =
    if has_flag g action_admin
    then true
    else has_flag g a || (has_flag g action_write && (leb a action_read && leb action_read a))

allowed_self :
    (m : AuthMap) (g : ℕ)
    → allowed m (record (grant_of m.subject g) { object = m.object }) ≡ verdict g m.action
unfolding has_flag
allowed_self m g = rw (eq_refl m.subject, eq_refl m.object) refl

verdict-rank :
    (access : String) (k : Kind)
    → verdict (granted access) (action_of k) ≡ leb (level k) (rank access)
unfolding has_flag
verdict-rank access reading = elim (Bool-cases (access == "Read")) [
  | inl r ↦ rw r refl
  | inr r ↦ elim (Bool-cases (access == "Write")) [
    | inl w ↦ rw (r, w) refl
    | inr w ↦ elim (Bool-cases (access == "Admin")) [
      | inl a ↦ rw (r, w, a) refl
      | inr a ↦ rw (r, w, a) refl
    ]
  ]
]
verdict-rank access writing = elim (Bool-cases (access == "Read")) [
  | inl r ↦ rw r refl
  | inr r ↦ elim (Bool-cases (access == "Write")) [
    | inl w ↦ rw (r, w) refl
    | inr w ↦ elim (Bool-cases (access == "Admin")) [
      | inl a ↦ rw (r, w, a) refl
      | inr a ↦ rw (r, w, a) refl
    ]
  ]
]
verdict-rank access administering = elim (Bool-cases (access == "Read")) [
  | inl r ↦ rw r refl
  | inr r ↦ elim (Bool-cases (access == "Write")) [
    | inl w ↦ rw (r, w) refl
    | inr w ↦ elim (Bool-cases (access == "Admin")) [
      | inl a ↦ rw (r, w, a) refl
      | inr a ↦ rw (r, w, a) refl
    ]
  ]
]

-- The access that decides: an admin's own, or that to the named pipeline, or the user's own.
abbrev pub deciding : Database → String → UserProfile → Result String
deciding db pipeline_id up =
    if up.access == "Admin"
    then ok "Admin"
    else if pipeline_id == ""
    then ok up.access
    else db.user_pipeline_access pipeline_id up.id

-- Whether an access, if it can be read, is high enough.
abbrev pub reaches : Kind → Result String → Bool
reaches k (err e) = false
reaches k (ok access) = leb (level k) (rank access)

decide-granted :
    (m : AuthMap) (k : Kind) (r : Result String)
    → m.action ≡ action_of k
    → decide m (grant_access m.subject r) ≡ reaches k r
decide-granted m k (err e) h = refl
decide-granted m k (ok access) h = allowed_self m (granted access) ∙ rw h (verdict-rank access k)

decide-profile :
    (db : Database) (m : AuthMap) (k : Kind) (up : UserProfile)
    → m.action ≡ action_of k
    → up.email ≡ m.subject
    → decide m (grant_profile db m.pipeline_id (ok up)) ≡ reaches k (deciding db m.pipeline_id up)
decide-profile db m k up h same = elim (Bool-cases (up.access == "Admin")) [
  | inl a ↦ rw (a, same) (decide-granted m k (ok "Admin") h)
  | inr a ↦ rw (a, same) (decide-granted m k (effective_access db m.pipeline_id up) h)
]

-- For one of the three actions, if the database can be reached and the profile that it finds for an
-- email carries that email: the user is authorized exactly if the deciding access can be read and
-- stands at least as high as the action, of reading, writing and administering.
pub authorized-reaches :
    (db : Database) (m : AuthMap) (db_type : String) (k : Kind) (up : UserProfile)
    → db.new_database db_type ≡ ok tt
    → db.connection ≡ ok tt
    → db.user_profile_by_email m.subject ≡ ok up
    → up.email ≡ m.subject
    → m.action ≡ action_of k
    → authorized db m db_type ≡ reaches k (deciding db m.pipeline_id up)
unfolding authorized get_auth_map
authorized-reaches db m db_type k up made linked found same h =
    rw (made, linked, found) (decide-profile db m k up h same)

-- Whatever the action, nobody is authorized if a call of the database fails on the way to the
-- user's profile.
pub authorized-error :
    (db : Database) (m : AuthMap) (db_type e : String)
    → (db.new_database db_type ≡ err e)
      ⊎ (db.connection ≡ err e)
      ⊎ (db.user_profile_by_email m.subject ≡ err e)
    → authorized db m db_type ≡ false
unfolding authorized get_auth_map
authorized-error db m db_type e h = grind (arith, h)
