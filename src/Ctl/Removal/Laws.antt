-- ===== src/Ctl/Removal/Laws.antt =====
-- What the delete loop leaves.
use mathlib.Core.Path.{ap₂}
use mathlib.Core.List.{append_assoc, append-nil}
use churro.Common.{
  ℕ, zero, suc, ◌≤◌, String, List, [], ◌∷◌, ◌++◌, Option, none, some, ◌==◌, ◌≡◌, refl, ◌∙◌, ap,
  true, false, if◌then◌else◌, length, get_elem?, map, contains, Distinct, arith, eq_iff, eq_refl,
  Bool-cases, inl, inr, length-append, get_elem?-append_cons, take-append_self, drop-append_cons,
}
use churro.Ctl.Removal.{delete_loop, delete_entry, without, find, has}

module _ {A : Type 0} (key : A → String) (id : String) where
  -- What the loop leaves of the entries from the index on: it skips the one behind each removal.
  abbrev pub sweep : List A → List A
  sweep [] = []
  sweep (x ∷ []) = if key x == id then [] else x ∷ []
  sweep (x ∷ y ∷ xs) =
      let rest = sweep xs in let more = sweep (y ∷ xs) in if key x == id then y ∷ rest else x ∷ more

  abbrev removed : List A → Option A → Option A
  removed [] last = last
  removed (x ∷ []) last = if key x == id then some x else last
  removed (x ∷ y ∷ xs) last =
      let rest = removed xs (some x) in
      let more = removed (y ∷ xs) last in if key x == id then rest else more

  get_elem?-length : (xs : List A) → get_elem? xs (length xs) ≡ none
  get_elem?-length [] = refl
  get_elem?-length (x ∷ xs) = get_elem?-length xs

  delete_loop-end :
      (f : ℕ) (pre : List A) (last : Option A)
      → delete_loop key id f (length pre) pre last ≡ (pre, last)
  unfolding delete_loop
  delete_loop-end zero pre last = refl
  delete_loop-end (suc f) pre last = rw (get_elem?-length pre, delete_loop)

  get_elem?-past : (xs : List A) → get_elem? xs (suc (length xs)) ≡ none
  get_elem?-past [] = refl
  get_elem?-past (x ∷ xs) = get_elem?-past xs

  delete_loop-past :
      (f : ℕ) (pre : List A) (last : Option A)
      → delete_loop key id f (suc (length pre)) pre last ≡ (pre, last)
  unfolding delete_loop
  delete_loop-past zero pre last = refl
  delete_loop-past (suc f) pre last = rw (get_elem?-past pre, delete_loop)

  length-snoc : (pre : List A) (x : A) → length (pre ++ (x ∷ [])) ≡ suc (length pre)
  length-snoc pre x = omega (arith, length-append pre (x ∷ []))

  -- The round at an entry of another key, and at an entry of this key.
  delete_loop-keep :
      (f : ℕ) (pre : List A) (x : A) (xs : List A) (last : Option A)
      → (key x == id) ≡ false
      → delete_loop key id (suc f) (length pre) (pre ++ (x ∷ xs)) last
        ≡ delete_loop key id f (length (pre ++ (x ∷ []))) ((pre ++ (x ∷ [])) ++ xs) last
  unfolding delete_loop
  delete_loop-keep f pre x xs last ne =
      rw (get_elem?-append_cons pre x xs, delete_loop)
        (rw ne (rw (length-snoc pre x, append_assoc)))

  delete_loop-cut :
      (f : ℕ) (pre : List A) (x : A) (xs : List A) (last : Option A)
      → (key x == id) ≡ true
      → delete_loop key id (suc f) (length pre) (pre ++ (x ∷ xs)) last
        ≡ delete_loop key id f (suc (length pre)) (pre ++ xs) (some x)
  unfolding delete_loop
  delete_loop-cut f pre x xs last eq =
      rw (get_elem?-append_cons pre x xs, delete_loop)
        (rw eq (rw (take-append_self pre (x ∷ xs), drop-append_cons pre x xs)))

  delete_loop-move :
      (f : ℕ) (pre : List A) (y : A) (xs : List A) (last : Option A)
      → delete_loop key id f (suc (length pre)) (pre ++ (y ∷ xs)) last
        ≡ delete_loop key id f (length (pre ++ (y ∷ []))) ((pre ++ (y ∷ [])) ++ xs) last
  delete_loop-move f pre y xs last = rw (length-snoc pre y, append_assoc)

  -- The loop, from any index, is the structural sweep; the fuel is the number of entries left.
  delete_loop-sweep :
      (f : ℕ) (pre xs : List A) (last : Option A)
      → length xs ≤ f
      → delete_loop key id f (length pre) (pre ++ xs) last ≡ (pre ++ sweep xs, removed xs last)
  delete_loop-sweep f pre [] last h = rw append-nil (delete_loop-end f pre last)
  delete_loop-sweep zero pre (x ∷ xs) last h = elim h [ ]
  delete_loop-sweep (suc f) pre (x ∷ []) last h = elim (Bool-cases (key x == id)) [
    | inl eq ↦
        delete_loop-cut f pre x [] last eq ∙ rw (eq, append-nil) (delete_loop-past f pre (some x))
    | inr ne ↦
        delete_loop-keep f pre x [] last ne
        ∙ rw (ne, append-nil) (delete_loop-end f (pre ++ (x ∷ [])) last)
  ]
  delete_loop-sweep (suc f) pre (x ∷ y ∷ xs) last h = elim (Bool-cases (key x == id)) [
    | inl eq ↦
        delete_loop-cut f pre x (y ∷ xs) last eq
        ∙ rw eq (
            delete_loop-move f pre y xs (some x)
            ∙ delete_loop-sweep f (pre ++ (y ∷ [])) xs (some x) (omega arith)
            ∙ rw append_assoc)
    | inr ne ↦
        delete_loop-keep f pre x (y ∷ xs) last ne
        ∙ rw ne
            (delete_loop-sweep f (pre ++ (x ∷ [])) (y ∷ xs) last (omega arith) ∙ rw append_assoc)
  ]

  pub delete_entry-sweep : (xs : List A) → delete_entry key id xs ≡ (sweep xs, removed xs none)
  unfolding delete_entry
  delete_entry-sweep xs = delete_loop-sweep (length xs) [] xs none (omega arith)

  sweep-absent : (xs : List A) → has key id xs ≡ false → sweep xs ≡ xs
  sweep-absent [] h = refl
  sweep-absent (x ∷ []) h = ground arith
  sweep-absent (x ∷ y ∷ xs) h = ground (arith, sweep-absent (y ∷ xs))

  without-absent : (xs : List A) → has key id xs ≡ false → without key id xs ≡ xs
  without-absent [] h = refl
  without-absent (x ∷ xs) h = ground (arith, without-absent xs)

  pub absent_behind :
      (x : A) (xs : List A)
      → contains (map key xs) (key x) ≡ false
      → (key x == id) ≡ true
      → has key id xs ≡ false
  absent_behind x xs h eq = rw (← (eq_iff (key x) id).0 eq) h

  sweep-without_hit :
      (x y : A) (xs : List A)
      → Distinct (map key (x ∷ y ∷ xs))
      → (key x == id) ≡ true
      → sweep (x ∷ y ∷ xs) ≡ without key id (x ∷ y ∷ xs)
  sweep-without_hit x y xs d eq =
      let gone = absent_behind x (y ∷ xs) d.0 eq in
      ground (arith, sweep-absent xs, without-absent xs)

  sweep-without : (xs : List A) → Distinct (map key xs) → sweep xs ≡ without key id xs
  sweep-without [] d = refl
  sweep-without (x ∷ []) d = refl
  sweep-without (x ∷ y ∷ xs) d = elim (Bool-cases (key x == id)) [
    | inl eq ↦ sweep-without_hit x y xs d eq
    | inr ne ↦ rw ne (ap (λ l. x ∷ l) (sweep-without (y ∷ xs) d.1))
  ]

  removed-absent : (xs : List A) (last : Option A) → has key id xs ≡ false → removed xs last ≡ last
  removed-absent [] last h = refl
  removed-absent (x ∷ []) last h = ground arith
  removed-absent (x ∷ y ∷ xs) last h = ground (arith, removed-absent (y ∷ xs) last)

  removed-find : (xs : List A) → Distinct (map key xs) → removed xs none ≡ find key id xs
  removed-find [] d = refl
  removed-find (x ∷ []) d = refl
  removed-find (x ∷ y ∷ xs) d = elim (Bool-cases (key x == id)) [
    | inl eq ↦
        let gone = absent_behind x (y ∷ xs) d.0 eq in ground (arith, removed-absent xs (some x))
    | inr ne ↦ rw ne (removed-find (y ∷ xs) d.1)
  ]

  -- Where no key occurs twice, the loop takes out the entry of that key and nothing else.
  pub delete_entry-without :
      (xs : List A)
      → Distinct (map key xs)
      → delete_entry key id xs ≡ (without key id xs, find key id xs)
  delete_entry-without xs d =
      delete_entry-sweep xs ∙ ap₂ (λ l o. (l, o)) (sweep-without xs d) (removed-find xs d)

  sweep_twin :
      (pre : List A) (x y : A) (xs : List A)
      → has key id pre ≡ false
      → key x ≡ id
      → key y ≡ id
      → has key id (sweep (pre ++ (x ∷ y ∷ xs))) ≡ true
  sweep_twin [] x y xs h p q = ground (arith, eq_iff (key x) id, eq_iff (key y) id)
  sweep_twin (z ∷ []) x y xs h p q = ground (arith, sweep_twin [] x y xs refl p q)
  sweep_twin (z ∷ w ∷ pre) x y xs h p q = ground (arith, sweep_twin (w ∷ pre) x y xs)

  -- Where two entries of that key stand side by side, one is left.
  pub delete_entry_twin :
      (pre : List A) (x y : A) (xs : List A)
      → has key id pre ≡ false
      → key x ≡ id
      → key y ≡ id
      → has key id (delete_entry key id (pre ++ (x ∷ y ∷ xs))).0 ≡ true
  delete_entry_twin pre x y xs h p q =
      rw (delete_entry-sweep (pre ++ (x ∷ y ∷ xs))) (sweep_twin pre x y xs h p q)

  -- The key of an entry that stands somewhere is there.
  pub has_inside :
      (pre : List A) (x : A) (xs : List A) → key x ≡ id → has key id (pre ++ (x ∷ xs)) ≡ true
  has_inside [] x xs e = ground (arith, eq_iff (key x) id)
  has_inside (z ∷ pre) x xs e = ground (arith, has_inside pre x xs e)

  -- The first entry of a key that only the last entry has.
  pub find_last :
      (xs : List A) (x : A)
      → has key id xs ≡ false
      → key x ≡ id
      → find key id (xs ++ (x ∷ [])) ≡ some x
  find_last [] x h e = rw (e, eq_refl id) refl
  find_last (y ∷ xs) x h e = elim (Bool-cases (key y == id)) [
    | inl same ↦ ground arith
    | inr other ↦ rw other (find_last xs x (ground arith) e)
  ]

  module _ (name : A → String) where
    -- A text that no entry goes by before the removal is none afterwards.
    pub without-fresh :
        (xs : List A) (k : String)
        → contains (map name xs) k ≡ false
        → contains (map name (without key id xs)) k ≡ false
    without-fresh [] k h = h
    without-fresh (x ∷ xs) k h = ground (arith, without-fresh xs k)

    pub without-Distinct :
        (xs : List A) → Distinct (map name xs) → Distinct (map name (without key id xs))
    without-Distinct [] d = d
    without-Distinct (x ∷ xs) d = elim (Bool-cases (key x == id)) [
      | inl eq ↦ rw eq (without-Distinct xs d.1)
      | inr ne ↦ rw ne (without-fresh xs (name x) d.0, without-Distinct xs d.1)
    ]
