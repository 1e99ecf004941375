-- ===== src/Db/Directory/Steps.antt =====
-- How the calls of a database that is understood end: one lemma for each way in which the back ends
-- run a statement and read its rows.
use mathlib.Core.List.{Permᴰ, append-nil}
use mathlib.Core.List.Permᴰ.{length-eq}
use churro.Common.{
  true, String, List, [], ◌∷◌, ◌++◌, map, Option, none, some, ◌≡◌, refl, ◌∙◌, ◌⊎◌, inl, inr,
}
use churro.Common.Action.{
  Result, ok, err, Outcome, returned, failed, panicked, give, of_result, read, refuse_with, ◌>>=◌,
}
use churro.Domain.{UserProfile}
use churro.Db.{
  Terms, Statement, insert_returning, Rows, Engine, no_rows, first_row, scan_text, scan_profile,
  scan_profiles, executed, queried, prepared, run_prepared,
}
use churro.Db.Semantics.{Tables, texts, new_row, after, delivered, inert, Ran, Reads, Understands}
use churro.Db.Directory.{Answer, done, profiles, Refused}
use churro.Db.Directory.Rows.{Permᴰ-map}

-- A scan, with what is made of its value
abbrev pub told : {A B : Type 0} → (A → B) → Result A → Result B
told k (ok a) = ok (k a)
told k (err e) = err e

abbrev pub told_first :
    {A B : Type 0} → (List (Option String) → Result A) → (A → B) → Rows → Result B
told_first scan k [] = err no_rows
told_first scan k (row ∷ _) = told k (scan row)

Reads-Part :
    (cut : Option String) (rows all : Rows)
    → Reads cut rows all
    → (rest : Rows) × Permᴰ (rows ++ rest) all
Reads-Part none rows all h = ([], rw append-nil h)
Reads-Part (some e) rows all h = h

-- A row and the rows behind it, as the loop scans them
abbrev scanned_with : Result UserProfile → Result (List UserProfile) → Result (List UserProfile)
scanned_with x rest = elim x [
  | err e ↦ err e
  | ok u ↦ elim rest [ err e ↦ err e | ok l ↦ ok (u ∷ l) ]
]

scanned_with-err :
    (x : Result UserProfile) (a b : Result (List UserProfile)) (e : String)
    → (a ≡ err e → b ≡ err e)
    → scanned_with x a ≡ err e
    → scanned_with x b ≡ err e
scanned_with-err (err y) a b e f h = h
scanned_with-err (ok u) (ok l) b e f h = cc h
scanned_with-err (ok u) (err y) b e f h = rw (f h) refl

-- A row that cannot be scanned stops the loop, whatever comes behind it.
scan_profiles-append :
    (rows rest : Rows) (e : String)
    → scan_profiles rows ≡ err e
    → scan_profiles (rows ++ rest) ≡ err e
scan_profiles-append [] rest e h = cc h
scan_profiles-append (row ∷ rows) rest e h =
    scanned_with-err (scan_profile row) (scan_profiles rows) (scan_profiles (rows ++ rest)) e
      (scan_profiles-append rows rest e) h

Permᴰ-nil : {A : Type 0} {x : A} → Permᴰ [] (x ∷ []) → ⊥
Permᴰ-nil p = absurd (cc (length-eq p))

module _ (engine : Engine) (u : Understands engine) where
  open engine use {State, exec, prepare, interrupted, closed}
  open u use {tables, plain, same, runs}

  -- How a call ends: with the new tables and an answer from the rows that were delivered, perhaps not
  -- all of them, or with the tables as they were or the new ones and an error of the database or of the
  -- reading of all rows.
  abbrev pub Ended :
      (Tables → Tables)
      → (Tables → Rows)
      → (Rows → Result Answer)
      → State
      → Outcome Answer × State
      → Type 0
  Ended f g h s (returned answer, s') =
      (tables s' ≡ f (tables s))
      × ((rows : Rows) × ((rest : Rows) × (Permᴰ (rows ++ rest) (g (tables s))
              × (h rows ≡ ok answer))))
  Ended f g h s (failed e, s') =
      ((tables s' ≡ tables s) ⊎ (tables s' ≡ f (tables s)))
      × (Refused engine e ⊎ ((rows : Rows) × (Permᴰ rows (g (tables s)) × (h rows ≡ err e))))
  Ended f g h s (panicked, s') = ⊥

  module _ (st : Statement) (quiet : inert plain st ≡ true) (s : State) where
    pub executed-Ended :
        Ended
          (after same st)
          (λ _. [])
          (λ _. ok done)
          s
          (((executed engine st >>= λ _. give tt) >>= λ _. give done) s)
    unfolding executed ◌>>=◌
    executed-Ended = go (exec st s).0 (exec st s).1 refl (runs st s quiet)
      where
        go :
            (r : Result Rows) (t : State)
            → (exec st s).0 ≡ r
            → Ran same st (interrupted st s) (tables s) r (tables t)
            → Ended
                (after same st)
                (λ _. [])
                (λ _. ok done)
                s
                (((of_result r >>= λ _. give tt) >>= λ _. give done) t)
        go (ok rows) t e (p, q) = (p, ([], ([], (Permᴰ.nil, refl))))
        go (err x) t e p = (p, inl (inr (inl (st, (s, e)))))

    pub run_prepared-Ended :
        Ended
          (after same st)
          (λ _. [])
          (λ _. ok done)
          s
          ((run_prepared engine st >>= λ _. give done) s)
    unfolding run_prepared prepared executed ◌>>=◌
    run_prepared-Ended = go (prepare st s) refl
      where
        run :
            (r : Result Rows) (t : State)
            → (exec st s).0 ≡ r
            → Ran same st (interrupted st s) (tables s) r (tables t)
            → Ended
                (after same st)
                (λ _. [])
                (λ _. ok done)
                s
                (((of_result r >>= λ _. give tt) >>= λ _. give done) t)
        run (ok rows) t e (p, q) = (p, ([], ([], (Permᴰ.nil, refl))))
        run (err x) t e p = (p, inl (inr (inl (st, (s, e)))))

        go :
            (r : Result (Unit {0}))
            → prepare st s ≡ r
            → Ended
                (after same st)
                (λ _. [])
                (λ _. ok done)
                s
                (((of_result r >>= λ _. executed engine st >>= λ _. give tt) >>= λ _. give done) s)
        go (ok _) e = run (exec st s).0 (exec st s).1 refl (runs st s quiet)
        go (err x) e = (inl refl, inl (inl (st, (s, e))))

  module _ {A : Type 0} (st : Statement) (quiet : inert plain st ≡ true)
      (scan : List (Option String) → Result A) (k : A → Answer) (s : State)
      (silent : after same st (tables s) ≡ tables s) where
    -- The first row is read, and nothing is changed.
    pub queried-Ended :
        Ended
          (λ t. t)
          (delivered same st)
          (told_first scan k)
          s
          ((queried engine st scan >>= λ a. give (k a)) s)
    unfolding queried executed read refuse_with give ◌>>=◌
    queried-Ended = go (interrupted st s) refl (exec st s).0 (exec st s).1 refl (runs st s quiet)
      where
        scanned :
            (row : List (Option String)) (rows : Rows) (t : State) (r : Result A)
            (c : Option String)
            → scan row ≡ r
            → closed st s ≡ c
            → tables t ≡ tables s
            → Permᴰ (row ∷ rows) (delivered same st (tables s))
            → Ended
                (λ t. t)
                (delivered same st)
                (told_first scan k)
                s
                (((of_result r >>= λ a. refuse_with c >>= λ _. give a) >>= λ a. give (k a)) t)
        scanned row rows t (ok a) none e h p q =
            (p, (row ∷ rows, ([], (rw append-nil q, rw e refl))))
        scanned row rows t (ok a) (some x) e h p q = (inl p, inl (inr (inr (inr (st, (s, h))))))
        scanned row rows t (err x) c e h p q = (inl p, inr (row ∷ rows, (q, rw e refl)))

        go :
            (cut : Option String)
            → interrupted st s ≡ cut
            → (r : Result Rows) (t : State) → (exec st s).0 ≡ r
            → Ran same st cut (tables s) r (tables t)
            → Ended
                (λ t. t)
                (delivered same st)
                (told_first scan k)
                s
                (((of_result r >>= λ rows. of_result (first_row cut rows) >>= λ row.
                      of_result (scan row) >>= λ a. refuse_with (closed st s) >>= λ _. give a)
                    >>= λ a. give (k a))
                  t)
        go none h (ok []) t e (p, q) = (inl (p ∙ silent), inr ([], (q, refl)))
        go (some x) h (ok []) t e (p, q) = (inl (p ∙ silent), inl (inr (inr (inl (st, (s, h))))))
        go none h (ok (row ∷ rows)) t e (p, q) =
            scanned row rows t (scan row) (closed st s) refl refl (p ∙ silent) q
        go (some x) h (ok (row ∷ rows)) t e (p, (rest, q)) =
            scanned row (rows ++ rest) t (scan row) (closed st s) refl refl (p ∙ silent) q
        go cut h (err x) t e (inl p) = (inl p, inl (inr (inl (st, (s, e)))))
        go cut h (err x) t e (inr p) = (inr (p ∙ silent), inl (inr (inl (st, (s, e)))))

  module _ (st : Statement) (quiet : inert plain st ≡ true) (s : State)
      (silent : after same st (tables s) ≡ tables s) where
    abbrev Told : Outcome Answer × State → Type 0
    Told r = Ended (λ t. t) (delivered same st) (λ rows. told profiles (scan_profiles rows)) s r

    -- The rows that come are read, and nothing is changed.
    pub profiles-Ended : Told (
        ((executed engine st >>= λ rows. of_result (scan_profiles rows)) >>= λ l. give (profiles l))
          s)
    unfolding executed ◌>>=◌
    profiles-Ended = go (exec st s).0 (exec st s).1 refl (runs st s quiet)
      where
        read :
            (rows rest : Rows) (t : State) (r : Result (List UserProfile))
            → scan_profiles rows ≡ r
            → tables t ≡ tables s
            → Permᴰ (rows ++ rest) (delivered same st (tables s))
            → Told ((of_result (scan_profiles rows) >>= λ l. give (profiles l)) t)
        read rows rest t (ok l) e p q = rw e (p, (rows, (rest, (q, rw e refl))))
        read rows rest t (err x) e p q =
            rw e (inl p, inr (rows ++ rest, (q, rw (scan_profiles-append rows rest x e) refl)))

        go :
            (r : Result Rows) (t : State)
            → (exec st s).0 ≡ r
            → Ran same st (interrupted st s) (tables s) r (tables t)
            → Told (
                ((of_result r >>= λ rows. of_result (scan_profiles rows)) >>= λ l.
                give (profiles l))
                  t)
        go (ok rows) t e (p, q) =
            let (rest, k) = Reads-Part (interrupted st s) rows _ q in
            read rows rest t (scan_profiles rows) refl (p ∙ silent) k
        go (err x) t e (inl p) = (inl p, inl (inr (inl (st, (s, e)))))
        go (err x) t e (inr p) = (inr (p ∙ silent), inl (inr (inl (st, (s, e)))))

  module _ (table : String) (terms : Terms) (column x : String)
      (quiet : inert plain (insert_returning table terms column) ≡ true)
      (there : new_row (texts terms) column ≡ some x) (s : State) where
    abbrev Inserted : Outcome Answer × State → Type 0
    Inserted r =
        Ended (after same (insert_returning table terms column)) (λ _. []) (λ _. ok done) s r

    -- The column of the new row that comes back can be read.
    pub returning-Ended : Inserted (
        ((queried engine (insert_returning table terms column) scan_text >>= λ _. give tt) >>= λ _.
        give done)
          s)
    unfolding queried executed read refuse_with give ◌>>=◌
    returning-Ended =
        go (interrupted (insert_returning table terms column) s) refl
          (exec (insert_returning table terms column) s).0
          (exec (insert_returning table terms column) s).1 refl
          (runs (insert_returning table terms column) s quiet)
      where
        scanned :
            (row : List (Option String)) (us : List String) (rest : Rows) (t : State)
            (c : Option String)
            → closed (insert_returning table terms column) s ≡ c
            → (row ∷ rest) ≡ map (λ y. some y ∷ []) us
            → tables t ≡ after same (insert_returning table terms column) (tables s)
            → Inserted (
                (((of_result (scan_text row) >>= λ a. refuse_with c >>= λ _. give a) >>= λ _.
                give tt)
                    >>= λ _. give done)
                  t)
        scanned row [] rest t c h e p = absurd (cc e)
        scanned row (y ∷ us) rest t none h e p =
            let f : row ≡ (some y ∷ []) = cc e in rw f (p, ([], ([], (Permᴰ.nil, refl))))
        scanned row (y ∷ us) rest t (some x) h e p =
            let f : row ≡ (some y ∷ []) = cc e in
            rw f (inr p, inl (inr (inr (inr (insert_returning table terms column, (s, h))))))

        go :
            (cut : Option String)
            → interrupted (insert_returning table terms column) s ≡ cut
            → (r : Result Rows) (t : State) → (exec (insert_returning table terms column) s).0 ≡ r
            → Ran same (insert_returning table terms column) cut (tables s) r (tables t)
            → Inserted (
                (((of_result r >>= λ rows. of_result (first_row cut rows) >>= λ row.
                of_result (scan_text row) >>= λ a.
                refuse_with (closed (insert_returning table terms column) s) >>= λ _. give a)
                      >>= λ _. give tt)
                    >>= λ _. give done)
                  t)
        go none h (ok []) t e (p, q) = absurd (Permᴰ-nil q)
        go (some x) h (ok []) t e (p, q) =
            (inr p, inl (inr (inr (inl (insert_returning table terms column, (s, h))))))
        go cut h (ok (row ∷ rows)) t e (p, q) =
            let (rest, m) = Reads-Part cut (row ∷ rows) _ q in
            let (us, (w, k)) =
              Permᴰ-map (λ y. some y ∷ []) (row ∷ (rows ++ rest))
                ((new_row (texts terms) column ∷ []) ∷ []) (x ∷ []) m (rw there refl) in
            scanned row us (rows ++ rest) t (closed (insert_returning table terms column) s) refl w
              p
        go cut h (err z) t e (inl p) =
            (inl p, inl (inr (inl (insert_returning table terms column, (s, e)))))
        go cut h (err z) t e (inr p) =
            (inr p, inl (inr (inl (insert_returning table terms column, (s, e)))))
