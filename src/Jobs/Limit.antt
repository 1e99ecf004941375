-- ===== src/Jobs/Limit.antt =====
-- How far the limit of jobs binds: it is compared with the running pods only, so the files that come
-- while the pods are pending start pods without a limit.
use mathlib.Core.List.{append-nil}
use churro.Common.{
  ℕ, zero, suc, ◌+◌, String, List, [], ◌∷◌, ◌++◌, ◌≡◌, refl, ◌∙◌, ap, set, true, arith,
}
use churro.Common.Int.{pos}
use churro.Cluster.{Phase, pending, running}
use churro.Jobs.{
  receiving, Service, Event, send, receive, count_pods, enter, running_pods, step, run,
}

-- A row of pods in one phase.
abbrev all_in : Phase → ℕ → List Phase
all_in p zero = []
all_in p (suc n) = p ∷ all_in p n

abbrev idle_with : List Phase → List String → Service
idle_with pods finished = record {
  waiting = [];
  consumer = receiving;
  pods = pods;
  finished = finished;
}

all_in_snoc : (p : Phase) (n : ℕ) → all_in p n ++ (p ∷ []) ≡ p ∷ all_in p n
all_in_snoc p zero = refl
all_in_snoc p (suc n) = ap (λ l. p ∷ l) (all_in_snoc p n)

running_pods-pending : (n : ℕ) → running_pods (all_in pending n) ≡ 0
running_pods-pending zero = refl
running_pods-pending (suc n) = running_pods-pending n

running_pods-running : (n : ℕ) → running_pods (all_in running n) ≡ n
running_pods-running zero = refl
running_pods-running (suc n) = ap suc (running_pods-running n)

-- A file comes, is taken, and its pod is created.
abbrev round : List Event
round = send "a.csv" ∷ receive ∷ count_pods true true ∷ []

abbrev rounds : ℕ → List Event
rounds zero = []
rounds (suc n) = round ++ rounds n

-- The pods from the index on start to run.
abbrev starts : ℕ → ℕ → List Event
starts i zero = []
starts i (suc n) = enter i running ∷ starts (suc i) n

run-append :
    (l r : List Event) (s : Service) → run (pos 1) (l ++ r) s ≡ run (pos 1) r (run (pos 1) l s)
unfolding run
run-append [] r s = refl
run-append (e ∷ l) r s = run-append l r (step (pos 1) e s)

run-rounds :
    (n m : ℕ) (done : List String)
    → (run (pos 1) (rounds n) (idle_with (all_in pending m) done)).pods ≡ all_in pending (n + m)
unfolding run step
run-rounds zero m done = ap (all_in pending) (omega arith)
run-rounds (suc n) m done = rw (running_pods-pending m) (
    rw (all_in_snoc pending m)
      (run-rounds n (suc m) (done ++ ("a.csv" ∷ [])) ∙ ap (all_in pending) (omega arith)))

set-all_in :
    (before : ℕ) (rest : List Phase)
    → set (all_in running before ++ (pending ∷ rest)) before running
      ≡ all_in running (suc before) ++ rest
set-all_in zero rest = refl
set-all_in (suc before) rest = ap (λ l. running ∷ l) (set-all_in before rest)

run-starts :
    (before : ℕ) (n : ℕ) (s : Service)
    → s.pods ≡ all_in running before ++ all_in pending n
    → (run (pos 1) (starts before n) s).pods ≡ all_in running (before + n)
unfolding run step
run-starts before zero s h =
    h ∙ append-nil (all_in running before) ∙ ap (all_in running) (omega arith)
run-starts before (suc n) s h =
    run-starts (suc before) n (record s { pods = set s.pods before running })
      (ap (λ l. set l before running) h ∙ set-all_in before (all_in pending n))
    ∙ ap (all_in running) (omega arith)

-- With a limit of one job, any number of pods can run at once: for each number there are events that
-- lead from an idle service without pods to that many running pods.
pub running_pods_unbounded :
    (n : ℕ) → (events : List Event) × (running_pods (run (pos 1) events (idle_with [] [])).pods ≡ n)
running_pods_unbounded n = (
  rounds n ++ starts 0 n,
  ap (λ t. running_pods t.pods) (run-append (rounds n) (starts 0 n) (idle_with [] []))
      ∙ ap running_pods (
          run-starts 0 n (run (pos 1) (rounds n) (idle_with [] []))
            (run-rounds n 0 [] ∙ ap (all_in pending) (omega arith)))
      ∙ running_pods-running (0 + n)
      ∙ omega arith,
)
