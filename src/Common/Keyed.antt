-- ===== src/Common/Keyed.antt =====
-- Lists of values that carry a text as their key: membership, distinct keys, and Go maps as
-- association lists.
use Prim.Native.String.{String}
use mathlib.Core.Path.{◌≡◌, refl}
use mathlib.Core.Bool.{Bool, false, ◌||◌}
use mathlib.Core.List.{List, [], ◌∷◌, ◌++◌}
use native.Mathlib.Omega.{arith}
use text.Mathlib.Text.{◌==◌}
use text.Mathlib.TextEquality.{eq_iff}
use churro.Common.Tests.{if◌then◌else◌}

-- The text occurs in the list.
abbrev pub contains : List String → String → Bool
contains [] k = false
contains (j ∷ l) k = j == k || contains l k

pub ==_comm : (j k : String) → (j == k) ≡ (k == j)
==_comm j k = ground (arith, eq_iff j k, eq_iff k j)

-- No text occurs twice.
abbrev pub Distinct : List String → Type 0
Distinct [] = Unit
Distinct (k ∷ l) = (contains l k ≡ false) × Distinct l

pub contains-append :
    (l r : List String) (k : String) → contains (l ++ r) k ≡ (contains l k || contains r k)
contains-append [] r k = refl
contains-append (j ∷ l) r k = ground (arith, contains-append l r k)

-- A new last entry keeps the entries distinct.
pub Distinct-snoc :
    (l : List String) (k : String) → Distinct l → contains l k ≡ false → Distinct (l ++ (k ∷ []))
Distinct-snoc [] k d fresh = (refl, tt)
Distinct-snoc (j ∷ l) k (new, d) fresh = (
  ground (arith, contains-append l (k ∷ []) j, eq_iff k j, eq_iff j k),
  Distinct-snoc l k d (ground arith),
)

-- `entries[key] = value`: a key that is there keeps its place.
unfoldable pub insert {ℓ} : {A : Type ℓ} → String → A → List (String × A) → List (String × A)
insert key value [] = (key, value) ∷ []
insert key value (entry ∷ entries) =
    let rest = insert key value entries in
    if key == entry.0 then (key, value) ∷ entries else entry ∷ rest
