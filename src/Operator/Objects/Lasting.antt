-- ===== src/Operator/Objects/Lasting.antt =====
-- Predicates of the world that the code's calls leave true, and the steps of the reconciliation that
-- keep them.
use churro.Common.{String, List, [], ◌∷◌, ◌++◌, suc, Option, none, some, false, ◌≡◌, refl, sym, ◌∙◌}
use churro.Common.Action.{Action, returned, failed, write}
use churro.Common.Ensures.{
  Ends, Ensures, Ensures-bind, Ensures-read, Ensures-refuse-then, Ensures-write,
}
use churro.Common.Keeps.{Keeps, Keeps-bind, keeps_rules}
use churro.Operator.{
  Api, World, Call, Resource, Object, taken, found_or_fail, attempt, create_object, get, list,
  create, connect, get_resource, update_resource,
}
use churro.Operator.Ensure.{create_owned, create_all, ensure, logged}
use churro.Operator.Pods.{unless_found}

pub record Lasting (P : World → Type 0) : Type 0 where
  -- a call, whether it fails or not
  pub called : (s : World) → P s → P (record s { calls = suc s.calls })
  -- a new object under a name that is free
  pub created :
      (s : World) (o : Object)
      → P s
      → taken o.kind o.namespace o.name s.objects ≡ false
      → P (record s { objects = s.objects ++ (o ∷ []) })
  pub stored : (s : World) (p : Resource) → P s → P (record s { resource = some p })

module _ (api : Api) {P : World → Type 0} where
  -- A call changes nothing but the count of the calls.
  pub attempt-Counts :
      ((s : World) → P s → P (record s { calls = suc s.calls }))
      → (c : Call) → Keeps P (attempt api c)
  unfolding attempt
  attempt-Counts called c = record {
    ensures = record { at = λ s h. go s (api.fails c s.calls) (called s h) };
  }
    where
      go :
          (s : World) (o : Option String)
          → P (record s { calls = suc s.calls })
          → Ends
              (λ (_ : Unit {0}). P)
              P
              (elim o [
                | none ↦ (returned tt, record s { calls = suc s.calls })
                | some e ↦ (failed e, record s { calls = suc s.calls })
              ])
      go s none h = h
      go s (some e) h = h

pub found_or_fail-Keeps :
    {P : World → Type 0} {A : Type 0} (o : Option A) → Keeps P (found_or_fail o)
found_or_fail-Keeps none = search keeps_rules
found_or_fail-Keeps (some a) = search keeps_rules

module _ (api : Api) {P : World → Type 0} (lasting : Lasting P) where
  pub attempt-Keeps : (c : Call) → Keeps P (attempt api c)
  attempt-Keeps c = attempt-Counts api lasting.called c

  pub get-Keeps : (kind namespace name : String) → Keeps P (get api kind namespace name)
  unfolding get
  get-Keeps kind namespace name = search (keeps_rules, attempt-Keeps, found_or_fail-Keeps)

  pub list-Keeps : (kind namespace owner : String) → Keeps P (list api kind namespace owner)
  unfolding list
  list-Keeps kind namespace owner = search (keeps_rules, attempt-Keeps)

  pub connect-Keeps : Keeps P (connect api)
  unfolding connect
  connect-Keeps = search (keeps_rules, attempt-Keeps)

  pub get_resource-Keeps : (namespace name : String) → Keeps P (get_resource api namespace name)
  unfolding get_resource
  get_resource-Keeps namespace name = search (keeps_rules, attempt-Keeps, found_or_fail-Keeps)

  store-Keeps : (p : Resource) → Keeps P (write (λ s. record s { resource = some p }))
  store-Keeps p = record { ensures = Ensures-write _ (λ s h. lasting.stored s p h) }

  pub update_resource-Keeps :
      (namespace : String) (p : Resource) → Keeps P (update_resource api namespace p)
  unfolding update_resource
  update_resource-Keeps namespace p =
      search (keeps_rules, attempt-Keeps, found_or_fail-Keeps, store-Keeps)

  -- A create call that succeeds found the name free.
  pub create-Ensures :
      {Q : Unit {0} → World → Type 0} (o : Object)
      → ((s : World)
          → P s
          → taken o.kind o.namespace o.name s.objects ≡ false
          → Q tt (record s { objects = s.objects ++ (o ∷ []) }))
      → Ensures P (create api o) Q P
  unfolding create
  create-Ensures o h = Ensures-bind (attempt-Keeps (create_object o.kind)).ensures λ _.
      Ensures-bind {Q = λ b s. (b ≡ taken o.kind o.namespace o.name s.objects) × P s}
        (Ensures-read _ (λ s x. (refl, x)))
        λ b.
          Ensures-refuse-then b _ (λ s x. x.1)
            λ free. Ensures-write _ (λ s x. h s x.1 (sym x.0 ∙ free))

  pub create-Keeps : (o : Object) → Keeps P (create api o)
  create-Keeps o = record { ensures = create-Ensures o (λ s h free. lasting.created s o h free) }

  pub create_owned-Keeps : (owner : String) (o : Object) → Keeps P (create_owned api owner o)
  unfolding create_owned
  create_owned-Keeps owner o = search (keeps_rules, create-Keeps)

  pub create_all-Keeps : (owner : String) (l : List Object) → Keeps P (create_all api owner l)
  unfolding create_all
  create_all-Keeps owner [] = search keeps_rules
  create_all-Keeps owner (o ∷ l) =
      Keeps-bind _ _ (create_owned-Keeps owner o) (λ _. create_all-Keeps owner l)

  pub ensure-Keeps :
      (kind namespace owner : String) (l : List Object)
      → Keeps P (ensure api kind namespace owner l)
  unfolding ensure
  ensure-Keeps kind namespace owner l = search (keeps_rules, list-Keeps, create_all-Keeps)

  pub unless_found-Keeps :
      (p : Resource) (kind name : String) (m : Action World (Unit {0}))
      → Keeps P m
      → Keeps P (unless_found api p kind name m)
  unfolding unless_found
  unless_found-Keeps p kind name m h = search (keeps_rules, get-Keeps)

pub logged-Keeps :
    {A : Type 0} {P : World → Type 0} (m : Action World A) → Keeps P m → Keeps P (logged m)
unfolding logged
logged-Keeps m h = search keeps_rules

pub ruleset lasting_rules = (
  keeps_rules, logged-Keeps, attempt-Keeps, get-Keeps, list-Keeps, connect-Keeps,
  get_resource-Keeps, update_resource-Keeps, create-Keeps, create_owned-Keeps, create_all-Keeps,
  ensure-Keeps, unless_found-Keeps,
)
