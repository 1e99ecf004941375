-- ===== src/Jobs/Harvest.antt =====
-- internal/extractsource/harvester.go: the removal of extract pods that ended long ago. Times and
-- durations are nanoseconds; the code compares them as hours in floating point.
pub mod Live
use churro.Common.{
  ℕ, suc, ◌+◌, String, List, [], ◌∷◌, Option, none, some, Bool, true, false, ◌==◌, ◌||◌,
  if◌then◌else◌, ltb,
}
use churro.Common.Int.{ℤ, pos, negsuc}
use churro.Common.Action.{
  Action, Result, returned, failed, give, panic, read, write, of_result, ◌>>=◌, ◌>>◌,
}
use churro.Cluster.{Phase, pending, running, succeeded, broken, unknown}

-- A pod with the label service=churro-extract.
pub record ExtractPod : Type 0 where
  pub name : String
  pub phase : Phase
  pub start_time : Option ℕ

pub data HarvestCall : Type 0 where
  kube_client list_pods delete_pod : HarvestCall

-- What the harvester gets from outside: failing calls, the clock, and `time.ParseDuration`.
pub record Outside : Type 0 where
  pub fails : HarvestCall → ℕ → Option String
  pub now : ℕ → ℕ
  pub parse_duration : String → Result ℤ
  -- `HarvestPodDuration` of the pipeline
  pub harvest_pod_duration : String

pub record Yard : Type 0 where
  pub pods : List ExtractPod
  pub calls : ℕ

-- The cases of the switch that do nothing.
abbrev pub is_live : Phase → Bool
is_live running = true
is_live pending = true
is_live succeeded = false
is_live broken = false
is_live unknown = false

-- difference > 0, for a start time, the duration, and the time of the call
abbrev pub age_exceeds : ℕ → ℤ → ℕ → Bool
age_exceeds now (pos d) start = ltb (start + d) now
age_exceeds now (negsuc d) start = ltb start (now + suc d)

-- `p.Status.StartTime.Time` panics for a pod that never started.
abbrev pub start_of : Option ℕ → Action Yard ℕ
start_of none = panic
start_of (some t) = give t

abbrev pub without_name : String → List ExtractPod → List ExtractPod
without_name name [] = []
without_name name (p ∷ l) =
    let rest = without_name name l in if p.name == name then rest else p ∷ rest

abbrev pub or_default : String → String
or_default duration = if duration == "" then "44h" else duration

module _ (o : Outside) where
  unfoldable pub attempt : HarvestCall → Action Yard (Unit {0})
  attempt c s = elim (o.fails c s.calls) [
    | none ↦ (returned tt, record s { calls = suc s.calls })
    | some e ↦ (failed e, record s { calls = suc s.calls })
  ]

  unfoldable pub delete_extract_pod : String → Action Yard (Unit {0})
  unfolding attempt
  delete_extract_pod name = do
    attempt delete_pod
    write (λ s. record s { pods = without_name name s.pods })

  -- The default case of the switch.
  unfoldable pub harvest_pod : ExtractPod → Action Yard (Unit {0})
  unfolding delete_extract_pod
  harvest_pod p = do
    duration ← of_result (o.parse_duration (or_default o.harvest_pod_duration))
    start ← start_of p.start_time
    now ← read (λ s. o.now s.calls)
    (if age_exceeds now duration start then delete_extract_pod p.name else give tt)

  -- An error ends the loop; the code writes it to the log.
  unfoldable pub harvest_loop : List ExtractPod → Action Yard (Unit {0})
  unfolding harvest_pod
  harvest_loop [] = give tt
  harvest_loop (p ∷ l) = do (if is_live p.phase then give tt else harvest_pod p); harvest_loop l

  unfoldable pub harvest : Action Yard (Unit {0})
  unfolding attempt harvest_loop
  harvest = do attempt kube_client; attempt list_pods; pods ← read (λ s. s.pods); harvest_loop pods
