-- ===== src/Jobs/Queue.antt =====
-- What the queue of new files keeps.
use mathlib.Core.List.{append_assoc, append-nil}
use churro.Common.{Bool, String, List, [], ◌∷◌, ◌++◌, ◌≡◌, refl, ◌∙◌, sym, ap, Bool-cases, inl, inr}
use churro.Common.Int.{ℤ}
use churro.Jobs.{
  Consumer, receiving, holding, requeuing, Service, Event, send, receive, count_pods, enter,
  get_extract_count, max_reached, take_first, receive_at, count_at, step, run,
}

-- The files that the watchers sent, in their order.
abbrev pub sent_files : List Event → List String
sent_files [] = []
sent_files (send f ∷ l) = f ∷ sent_files l
sent_files (receive ∷ l) = sent_files l
sent_files (count_pods _ _ ∷ l) = sent_files l
sent_files (enter _ _ ∷ l) = sent_files l

-- The file that the consumer has at hand.
abbrev pub held : Consumer → List String
held receiving = []
held (holding f) = f ∷ []
held (requeuing f) = f ∷ []

-- The files in the order in which they went in: those that are finished, the one at hand, and those
-- that wait.
abbrev pub files_of : Service → List String
files_of s = s.finished ++ (held s.consumer ++ s.waiting)

take_first-files :
    (l : List String) (s : Service)
    → s.waiting ≡ l
    → s.consumer ≡ receiving
    → files_of (take_first l s) ≡ files_of s
take_first-files [] s e h = refl
take_first-files (f ∷ l) s e h = rw (e, h) refl

receive_at-files :
    (c : Consumer) (s : Service) → s.consumer ≡ c → files_of (receive_at c s) ≡ files_of s
receive_at-files receiving s h = take_first-files s.waiting s refl h
receive_at-files (holding f) s h = refl
receive_at-files (requeuing f) s h = refl

count_at-files :
    (max_jobs : ℤ) (listed created : Bool) (c : Consumer) (s : Service)
    → s.consumer ≡ c
    → files_of (count_at max_jobs listed created c s) ≡ files_of s
count_at-files max_jobs listed created receiving s h = refl
count_at-files max_jobs listed created (holding f) s h =
    elim (Bool-cases (max_reached (get_extract_count listed s.pods) max_jobs)) [
      | inl full ↦ rw (full, h) refl
      | inr free ↦ rw (free, h) (append_assoc s.finished (f ∷ []) s.waiting)
    ]
count_at-files max_jobs listed created (requeuing f) s h = refl

files_of-step :
    (max_jobs : ℤ) (e : Event) (s : Service)
    → files_of (step max_jobs e s) ≡ files_of s ++ sent_files (e ∷ [])
unfolding step
files_of-step max_jobs (send f) s =
    ap (λ l. s.finished ++ l) (sym (append_assoc (held s.consumer) s.waiting (f ∷ [])))
    ∙ sym (append_assoc s.finished (held s.consumer ++ s.waiting) (f ∷ []))
files_of-step max_jobs receive s = receive_at-files s.consumer s refl ∙ sym (append-nil _)
files_of-step max_jobs (count_pods listed created) s =
    count_at-files max_jobs listed created s.consumer s refl ∙ sym (append-nil _)
files_of-step max_jobs (enter i p) s = sym (append-nil _)

sent_files_cons :
    (e : Event) (l : List Event) → sent_files (e ∷ l) ≡ sent_files (e ∷ []) ++ sent_files l
sent_files_cons (send f) l = refl
sent_files_cons receive l = refl
sent_files_cons (count_pods _ _) l = refl
sent_files_cons (enter _ _) l = refl

-- No file is lost, doubled or overtaken: whatever happens, the finished files, the file at hand and
-- the waiting files are together those at first and the sent ones, in this order.
pub files_of-run :
    (max_jobs : ℤ) (events : List Event) (s : Service)
    → files_of (run max_jobs events s) ≡ files_of s ++ sent_files events
unfolding run
files_of-run max_jobs [] s = sym (append-nil _)
files_of-run max_jobs (e ∷ l) s =
    files_of-run max_jobs l (step max_jobs e s)
    ∙ ap (λ f. f ++ sent_files l) (files_of-step max_jobs e s)
    ∙ append_assoc (files_of s) (sent_files (e ∷ [])) (sent_files l)
    ∙ ap (λ f. files_of s ++ f) (sym (sent_files_cons e l))
