-- ===== src/Operator/Objects.antt =====
-- The objects of the cluster, which the code only adds to.
pub mod Lasting
use churro.Common.{String, List, [], ◌∷◌, ◌++◌, ◌≡◌, refl, ◌||◌, arith}
use churro.Operator.{Object, taken}

pub taken-append :
    (kind namespace name : String) (l r : List Object)
    → taken kind namespace name (l ++ r)
      ≡ (taken kind namespace name l || taken kind namespace name r)
taken-append kind namespace name [] r = refl
taken-append kind namespace name (o ∷ l) r = ground (arith, taken-append kind namespace name l r)
