-- ===== src/Ctl/Removal.antt =====
-- The loop by which the delete handlers of internal/ctl take an entry out of a slice:
--   for i := 0; i < len(xs); i++ { if xs[i].ID == id { xs = append(xs[:i], xs[i+1:]...) } }
-- The index moves on after a removal too, so the entry that moved into the gap is not looked at.
pub mod Laws
use churro.Common.{ℕ, zero, suc, String, List, [], ◌∷◌, ◌++◌, Option, none, some, ◌==◌}
use churro.Common.{if◌then◌else◌, length, get_elem?, take, drop, map, contains, Bool}

module _ {A : Type 0} (key : A → String) (id : String) where
  -- The rounds left, the index, the slice, and the entry that was removed last.
  unfoldable pub delete_loop : ℕ → ℕ → List A → Option A → List A × Option A
  delete_loop zero i xs last = (xs, last)
  delete_loop (suc f) i xs last = elim (get_elem? xs i) [
    | none ↦ (xs, last)
    | some x ↦
        delete_loop f (suc i) (if key x == id then take i xs ++ drop (suc i) xs else xs)
          (if key x == id then some x else last)
  ]

  -- Each round moves the index on and none makes the slice longer.
  unfoldable pub delete_entry : List A → List A × Option A
  unfolding delete_loop
  delete_entry xs = delete_loop (length xs) 0 xs none

  -- The slice without any entry of that key.
  abbrev pub without : List A → List A
  without [] = []
  without (x ∷ xs) = let rest = without xs in if key x == id then rest else x ∷ rest

  -- The first entry of that key.
  abbrev pub find : List A → Option A
  find [] = none
  find (x ∷ xs) = if key x == id then some x else find xs

  -- An entry of that key is there.
  abbrev pub has : List A → Bool
  has xs = contains (map key xs) id
