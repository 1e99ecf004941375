-- ===== src/Jobs/Harvest/Live.antt =====
-- The harvester and the pods that are pending or running.
use mathlib.Core.Bool.{true≢false}
use mathlib.Core.Path.{subst}
use churro.Common.{
  ℕ, suc, String, List, [], ◌∷◌, map, Option, none, some, true, false, ◌≡◌, ◌⊎◌, refl, sym, ◌∙◌, ap,
  ◌==◌, if◌then◌else◌, contains, Distinct, arith, Bool-cases, inl, inr, eq_iff,
}
use churro.Common.Action.{returned, failed, give}
use churro.Common.Ensures.{
  Ends, Ends-always, Ensures-bind, Ensures-read, Ensures-weaken, Ensures-write,
}
use churro.Common.Keeps.{
  Keeps, Keeps-bind, Keeps-give, Keeps-panic, Keeps-read, Keeps-of_result, Keeps-if,
}
use churro.Jobs.Harvest.{
  ExtractPod, HarvestCall, Outside, Yard, is_live, start_of, without_name, attempt,
  delete_extract_pod, harvest_pod, harvest_loop, harvest, delete_pod, kube_client, list_pods,
}

abbrev pub live : List ExtractPod → List ExtractPod
live [] = []
live (p ∷ l) = let rest = live l in if is_live p.phase then p ∷ rest else rest

abbrev names : List ExtractPod → List String
names l = map (λ p. p.name) l

-- No pod that ended has one of the names.
abbrev Clear : List String → List ExtractPod → Type 0
Clear k [] = Unit
Clear k (p ∷ l) = (is_live p.phase ≡ false → contains k p.name ≡ false) × Clear k l

Clear-cons :
    (n : String) (k : List String) (l : List ExtractPod)
    → contains (names l) n ≡ false
    → Clear k l
    → Clear (n ∷ k) l
Clear-cons n k [] free c = tt
Clear-cons n k (p ∷ l) free (c, cs) = (
  λ ended. ground (arith, c ended, eq_iff p.name n, eq_iff n p.name),
  Clear-cons n k l (ground arith) cs,
)

live_absent :
    (name : String) (l : List ExtractPod)
    → contains (names l) name ≡ false
    → contains (names (live l)) name ≡ false
live_absent name [] free = refl
live_absent name (p ∷ l) free = elim (Bool-cases (is_live p.phase)) [
  | inl on ↦ rw on (ground (arith, live_absent name l))
  | inr off ↦ rw off (live_absent name l (ground arith))
]

Clear-live : (l : List ExtractPod) → Distinct (names l) → Clear (names (live l)) l
Clear-live [] d = tt
Clear-live (p ∷ l) (new, d) = elim (Bool-cases (is_live p.phase)) [
  | inl on ↦
      subst (λ k. Clear k (p ∷ l)) {x = p.name ∷ names (live l)} (rw on refl)
        (
          (λ ended. absurd (true≢false (sym on ∙ ended))),
          Clear-cons p.name (names (live l)) l new (Clear-live l d),
        )
  | inr off ↦
      subst (λ k. Clear k (p ∷ l)) {x = names (live l)} (rw off refl)
        ((λ ended. live_absent p.name l new), Clear-live l d)
]

-- Removing a name that no live pod has.
live-without :
    (name : String) (l : List ExtractPod)
    → contains (names (live l)) name ≡ false
    → live (without_name name l) ≡ live l
live-without name [] free = refl
live-without name (p ∷ l) free = elim (Bool-cases (is_live p.phase)) [
  | inl on ↦ elim (Bool-cases (p.name == name)) [
    | inl same ↦ absurd (true≢false (ground arith))
    | inr other ↦ rw (other, on) (ap (λ k. p ∷ k) (live-without name l (ground arith)))
  ]
  | inr off ↦ elim (Bool-cases (p.name == name)) [
    | inl same ↦ rw (off, same) (live-without name l (ground arith))
    | inr other ↦ rw (other, off) (live-without name l (ground arith))
  ]
]

attempt-Counts :
    (o : Outside) {P : Yard → Type 0}
    → ((s : Yard) → P s → P (record s { calls = suc s.calls }))
    → (c : HarvestCall) → Keeps P (attempt o c)
unfolding attempt
attempt-Counts o {P} called c = record {
  ensures = record { at = λ s h. go s (o.fails c s.calls) (called s h) };
}
  where
    go :
        (s : Yard) (e : Option String)
        → P (record s { calls = suc s.calls })
        → Ends
            (λ (_ : Unit {0}). P)
            P
            (elim e [
              | none ↦ (returned tt, record s { calls = suc s.calls })
              | some x ↦ (failed x, record s { calls = suc s.calls })
            ])
    go s none h = h
    go s (some x) h = h

module _ (o : Outside) (kept : List ExtractPod) where
  abbrev Spared : Yard → Type 0
  Spared s = live s.pods ≡ kept

  start_of-Spared : (t : Option ℕ) → Keeps Spared (start_of t)
  start_of-Spared none = Keeps-panic
  start_of-Spared (some t) = Keeps-give t

  delete-Spared :
      (name : String)
      → contains (names kept) name ≡ false
      → Keeps Spared (delete_extract_pod o name)
  unfolding delete_extract_pod
  delete-Spared name free =
      Keeps-bind _ _ (attempt-Counts o (λ s h. h) delete_pod)
        λ _. record { ensures = Ensures-write _ λ s h. live-without name s.pods (rw h free) ∙ h }

  harvest_pod-Spared :
      (p : ExtractPod) → contains (names kept) p.name ≡ false → Keeps Spared (harvest_pod o p)
  unfolding harvest_pod
  harvest_pod-Spared p free = Keeps-bind _ _ (Keeps-of_result _) λ duration.
      Keeps-bind _ _ (start_of-Spared p.start_time) λ start.
        Keeps-bind _ _ (Keeps-read _)
          λ now. Keeps-if _ _ _ (delete-Spared p.name free) (Keeps-give tt)

  harvest_loop-Spared :
      (l : List ExtractPod) → Clear (names kept) l → Keeps Spared (harvest_loop o l)
  unfolding harvest_loop
  harvest_loop-Spared [] c = Keeps-give tt
  harvest_loop-Spared (p ∷ l) (c, cs) =
      Keeps-bind _ _ (guarded (Bool-cases (is_live p.phase))) λ _. harvest_loop-Spared l cs
    where
      guarded :
          (is_live p.phase ≡ true) ⊎ (is_live p.phase ≡ false)
          → Keeps Spared (if is_live p.phase then give tt else harvest_pod o p)
      guarded (inl e) = rw e (Keeps-give tt)
      guarded (inr e) = rw e (harvest_pod-Spared p (c e))

-- Where no two extract pods share a name, the harvester leaves the pending and the running ones as
-- they are and in their order, whatever calls fail and whatever the clock says.
pub harvest_lem :
    (o : Outside) (s : Yard)
    → Distinct (map (λ p. p.name) s.pods)
    → live (harvest o s).1.pods ≡ live s.pods
unfolding harvest
harvest_lem o s d =
    let call = λ (c : HarvestCall).
      Ensures-weaken (attempt-Counts o {P = Same} (λ t h. h) c).ensures (λ t h. h) (λ a t h. h)
        (λ t h. ap live h) in
    Ends-always (Spared o (live s.pods)) _ (
      (Ensures-bind (call kube_client) λ _. Ensures-bind (call list_pods) λ _.
          Ensures-bind {Q = λ l t. (l ≡ s.pods) × Same t} (Ensures-read _ (λ t h. (h, h))) λ l.
            record {
              at = λ t h.
                  (harvest_loop-Spared o (live s.pods) l (rw h.0 (Clear-live s.pods d))).ensures.at
                    t (ap live h.1);
            }).at
        s refl)
  where
    Same : Yard → Type 0
    Same t = t.pods ≡ s.pods
