-- ===== src/Operator/Reconcile/Identity.antt =====
-- The ID and the credentials of a custom resource: what is written first is there after the second
-- write.
use churro.Common.{ℕ, some, ◌≡◌}
use churro.Common.Action.{Outcome, returned, failed, panicked}
use churro.Common.Ensures.{Ensures}
use churro.Operator.{Api, World, Resource, DbCreds, ServiceCreds}
use churro.Operator.Reconcile.{with_creds}

-- The stored custom resource.
abbrev pub Stored : Resource → World → Type 0
Stored p s = s.resource ≡ some p

module _ (api : Api) where
  module _ (n : ℕ) (p : Resource) where
    abbrev Counted : World → Type 0
    Counted s = Stored p s × (s.calls ≡ n)

    abbrev pub identified : Resource
    identified = record p { id = api.new_id n }

  -- The stored resource is `p` with some credentials.
  abbrev pub Credited : Resource → World → Type 0
  Credited p s = (creds : DbCreds × ServiceCreds) × (s.resource ≡ some (with_creds p creds))

  -- What is stored after the step of the credentials, by how that step ended.
  abbrev pub Assigned : Outcome (Unit {0}) → Resource → World → Type 0
  Assigned (returned _) q t = Credited q t
  Assigned (failed _) q t = Stored q t
  Assigned panicked q t = Stored q t

  -- What is stored after both steps, by how each ended: `q` is the resource with its ID.
  abbrev pub AssignedBoth :
      Outcome (Unit {0}) → Outcome (Unit {0}) → Resource → Resource → World → Type 0
  AssignedBoth (returned _) creds p q t = Assigned creds q t
  AssignedBoth (failed _) creds p q t = Assigned creds p t
  AssignedBoth panicked creds p q t = Stored p t
