-- ===== src/Tests/Harvest.antt =====
-- The harvester on a few pods.
use churro.Common.{[], ◌∷◌, some, none, ◌≡◌, refl}
use churro.Common.Int.{pos}
use churro.Common.Action.{ok, returned, panicked, ◌>>=◌}
use churro.Cluster.{running, succeeded, broken}
use churro.Jobs.Harvest.{ExtractPod, Outside, Yard, harvest}
use churro.Jobs.Harvest.Live.{live, harvest_lem}

-- Nothing fails, the clock stands at 100, and pods are kept for 10.
abbrev outside : Outside
outside = record {
  fails = λ c n. none;
  now = λ n. 100;
  parse_duration = λ text. ok (pos 10);
  harvest_pod_duration = "";
}

abbrev busy : ExtractPod
busy = record { name = "busy"; phase = running; start_time = some 1 }

abbrev old : ExtractPod
old = record { name = "old"; phase = succeeded; start_time = some 1 }

abbrev young : ExtractPod
young = record { name = "young"; phase = broken; start_time = some 95 }

abbrev yard : Yard
yard = record { pods = old ∷ busy ∷ young ∷ []; calls = 0 }

harvest_lem_example : live (harvest outside yard).1.pods ≡ busy ∷ []
harvest_lem_example = harvest_lem outside yard (refl, (refl, (refl, tt)))

harvest_run : harvest outside yard ≡ (returned tt, record { pods = busy ∷ young ∷ []; calls = 3 })
unfolding harvest ◌>>=◌
harvest_run = refl

-- A pod that failed before it started has no start time.
harvest_unstarted :
    (harvest outside (record {
      pods = record { name = "evicted"; phase = broken; start_time = none } ∷ [];
      calls = 0;
    })).0
    ≡ panicked
unfolding harvest ◌>>=◌
harvest_unstarted = refl
