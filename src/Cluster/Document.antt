-- ===== src/Cluster/Document.antt =====
-- How an action leaves the stored document: the rules for the promise that it is a given one.
use churro.Common.{String, ◌≡◌, refl}
use churro.Common.Action.{Action, ◌>>=◌, ◌>>◌}
use churro.Common.Ensures.{Ensures, Ensures-bind}
use churro.Cluster.{Api, Cluster, Pipeline, Call, attempt, fetch, fresh, update}
use churro.Cluster.Specs.{attempt-Ensures, fetch-Ensures, fresh-Ensures, update-Ensures}

-- The stored document is `p`.
abbrev pub Stored : Pipeline → Cluster → Type 0
Stored p s = s.pipeline ≡ p

module _ (api : Api) (p : Pipeline) {A : Type 0} {Q : A → Cluster → Type 0}
    {E : Cluster → Type 0} where
  -- The document at hand after the read is the stored one.
  pub Ensures-fetch-then :
      (f : Pipeline → Action Cluster A)
      → ((s : Cluster) → Stored p s → E s)
      → Ensures (Stored p) (f p) Q E
      → Ensures (Stored p) (fetch api >>= f) Q E
  Ensures-fetch-then f stop h =
      Ensures-bind
        (fetch-Ensures api {Q = λ q s. (q ≡ p) × Stored p s} (λ s h. h) stop (λ s h. (h, h)))
        λ q. record { at = λ s x. rw x.0 (h.at s x.1) }

  pub Ensures-attempt-then :
      (c : Call) {m : Action Cluster A}
      → ((s : Cluster) → Stored p s → E s)
      → Ensures (Stored p) m Q E
      → Ensures (Stored p) (attempt api c >> m) Q E
  Ensures-attempt-then c stop h = Ensures-bind (attempt-Ensures api c (λ s h. h) stop) (λ _. h)

  pub Ensures-fresh-then :
      (f : String → Action Cluster A)
      → ((id : String) → Ensures (Stored p) (f id) Q E)
      → Ensures (Stored p) (fresh api >>= f) Q E
  Ensures-fresh-then f h = Ensures-bind (fresh-Ensures api (λ s h. h)) h

module _ (api : Api) (p q : Pipeline) {E : Cluster → Type 0} where
  -- The new document, and the old one if the update fails.
  pub update-Stored :
      ((s : Cluster) → Stored p s → E s) → Ensures (Stored p) (update api q) (λ _. Stored q) E
  update-Stored stop = update-Ensures api q (λ s h. h) stop (λ s h. refl)
