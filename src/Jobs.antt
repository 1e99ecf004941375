-- ===== src/Jobs.antt =====
-- internal/extractsource/server.go: the queue of new files and its one consumer, which starts an
-- extract pod for a file unless too many run. The channel has no buffer: a watcher that sends a file
-- waits until the consumer takes it, and the consumer that sends a file back waits as a watcher does.
pub mod Queue
pub mod Limit
pub mod Harvest
pub mod Paths
pub mod Pods
use churro.Common.{
  ℕ, zero, suc, ◌+◌, Bool, true, false, not, String, List, [], ◌∷◌, ◌++◌, if◌then◌else◌, leb, set,
  Option, none, some,
}
use churro.Common.Int.{ℤ, pos, negsuc}
use churro.Cluster.{Phase, pending, running, succeeded, broken, unknown}
use churro.Ctl.Sources.Reads.{is_running_phase}

-- `startQueueConsumer` at the head of its loop, with a file at hand, and in its send of that file.
pub data Consumer : Type 0 where
  receiving : Consumer
  holding requeuing : String → Consumer

-- The senders that wait, in their order, the consumer, the extract pods, and the files that the
-- consumer is done with.
pub record Service : Type 0 where
  pub waiting : List String
  pub consumer : Consumer
  pub pods : List Phase
  pub finished : List String

-- What happens next: a watcher sends a file, the consumer takes one, it counts the pods and goes on
-- from there, where the listing of the pods and the creation of a pod succeed or not, or a pod of
-- that index enters a phase.
pub data Event : Type 0 where
  send : String → Event
  receive : Event
  count_pods : Bool → Bool → Event
  enter : ℕ → Phase → Event

-- `getExtractCount` of the listed pods
abbrev pub running_pods : List Phase → ℕ
running_pods [] = 0
running_pods (p ∷ l) = let rest = running_pods l in if is_running_phase p then suc rest else rest

-- The count is 0 if the listing fails.
abbrev pub get_extract_count : Bool → List Phase → ℕ
get_extract_count listed pods = if listed then running_pods pods else 0

-- podCount >= MaxJobs
abbrev pub max_reached : ℕ → ℤ → Bool
max_reached count (pos m) = leb m count
max_reached count (negsuc m) = true

abbrev pub take_first : List String → Service → Service
take_first [] s = s
take_first (f ∷ l) s = record s { waiting = l; consumer = holding f }

-- The body of the loop behind the receive: the file is sent back, or its pod is created, whose error
-- is only logged.
abbrev pub handle_file : ℤ → Bool → Bool → String → Service → Service
handle_file max_jobs listed created f s =
    if max_reached (get_extract_count listed s.pods) max_jobs
    then record s { consumer = requeuing f }
    else record s {
      consumer = receiving;
      pods = if created then s.pods ++ (pending ∷ []) else s.pods;
      finished = s.finished ++ (f ∷ []);
    }

-- Whether the one receiver of the channel is at its receive. In its own send of a file it is not.
abbrev pub is_receiving : Consumer → Bool
is_receiving receiving = true
is_receiving (holding _) = false
is_receiving (requeuing _) = false

-- The file with which the consumer is in the body of its loop, before its send of that file.
abbrev pub file_at_hand : Consumer → Option String
file_at_hand receiving = none
file_at_hand (holding f) = some f
file_at_hand (requeuing _) = none

-- A send on a channel without a buffer ends when the receiver is at its receive, and not before. The
-- senders wait in their order, the consumer's own send behind them too.
abbrev pub receive_at : Consumer → Service → Service
receive_at c s = if is_receiving c then take_first s.waiting s else s

abbrev pub count_at : ℤ → Bool → Bool → Consumer → Service → Service
count_at max_jobs listed created c s = elim (file_at_hand c) [
  | none ↦ s
  | some f ↦ handle_file max_jobs listed created f s
]

-- An event that cannot happen in a state leaves it.
unfoldable pub step : ℤ → Event → Service → Service
step max_jobs (send f) s = record s { waiting = s.waiting ++ (f ∷ []) }
step max_jobs receive s = receive_at s.consumer s
step max_jobs (count_pods listed created) s = count_at max_jobs listed created s.consumer s
step max_jobs (enter i p) s = record s { pods = set s.pods i p }

unfoldable pub run : ℤ → List Event → Service → Service
unfolding step
run max_jobs [] s = s
run max_jobs (e ∷ l) s = run max_jobs l (step max_jobs e s)
