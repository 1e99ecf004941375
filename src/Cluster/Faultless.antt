-- ===== src/Cluster/Faultless.antt =====
-- What the shared calls do where no outside call fails: each step of a handler as an equation.
use churro.Common.{String, ℕ, suc, ◌≡◌, refl, none, Option, Bool, false, List}
use churro.Common.Action.{
  Action, ◌>>=◌, ◌>>◌, first_refusal, refuse, refuse_all, refuse_with, rescue, read, write,
}
use churro.Cluster.{
  Api, Cluster, Pipeline, Call, kube_client, pipeline_client, get_pipeline, update_pipeline,
  attempt, fetch, update, get_pipeline_or_panic,
}

abbrev pub Faultless : Api → Type 0
Faultless api = (c : Call) (n : ℕ) → api.fails c n ≡ none

module _ {A : Type 0} where
  pub refuse_all-passed :
      (checks : List (Bool × String)) (m : Action Cluster A) (s : Cluster)
      → first_refusal checks ≡ none
      → (refuse_all checks >> m) s ≡ m s
  unfolding refuse_all refuse_with ◌>>=◌
  refuse_all-passed checks m s h = rw h refl

  pub refuse-passed :
      (b : Bool) (x : String) (m : Action Cluster A) (s : Cluster)
      → b ≡ false
      → (refuse b x >> m) s ≡ m s
  unfolding refuse ◌>>=◌
  refuse-passed b x m s h = rw h refl

  pub refuse_with-passed :
      (o : Option String) (m : Action Cluster A) (s : Cluster)
      → o ≡ none
      → (refuse_with o >> m) s ≡ m s
  unfolding refuse_with ◌>>=◌
  refuse_with-passed o m s h = rw h refl

module _ (api : Api) (ok : Faultless api) {A : Type 0} where
  pub attempt-passed :
      (c : Call) (f : Unit {0} → Action Cluster A) (s : Cluster)
      → (attempt api c >>= f) s ≡ f tt (record s { calls = suc s.calls })
  unfolding attempt ◌>>=◌
  attempt-passed c f s = rw (ok c s.calls, attempt) refl

  pub fetch-passed :
      (f : Pipeline → Action Cluster A) (s : Cluster)
      → (fetch api >>= f) s ≡ f s.pipeline (record s { calls = suc (suc (suc s.calls)) })
  unfolding fetch attempt ◌>>=◌ read
  fetch-passed f s =
      rw
        (
          ok kube_client s.calls,
          ok pipeline_client (suc s.calls),
          ok get_pipeline (suc (suc s.calls)),
          attempt,
        )
        refl

  pub update-passed :
      (p : Pipeline) (f : Unit {0} → Action Cluster A) (s : Cluster)
      → (update api p >>= f) s ≡ f tt (record s { pipeline = p; calls = suc s.calls })
  unfolding update attempt ◌>>=◌ write
  update-passed p f s = rw (ok update_pipeline s.calls, attempt) refl

  pub get_pipeline_or_panic-passed :
      (f : Pipeline → Action Cluster A) (s : Cluster)
      → (get_pipeline_or_panic api >>= f) s
        ≡ f s.pipeline (record s { calls = suc (suc (suc s.calls)) })
  unfolding get_pipeline_or_panic attempt ◌>>=◌ read rescue
  get_pipeline_or_panic-passed f s =
      rw
        (
          ok kube_client s.calls,
          ok pipeline_client (suc s.calls),
          ok get_pipeline (suc (suc s.calls)),
          attempt,
        )
        refl
