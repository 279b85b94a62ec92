-- ===== src/Base/Order.antt =====
-- A list of distinct keys, which records an order: container/list where an element's identity is
-- its key.
use Prim.Native.Nat.{suc, ◌≤◌}
use mathlib.Core.Bool.{Bool, true, false}
use mathlib.Core.List.{List, [], ◌∷◌}
use mathlib.Core.Logic.{ite}
use mathlib.Core.Option.{some}
use mathlib.Core.Path.{◌≡◌, refl}
use native.Mathlib.Omega.{arith}
use imagelet.Base.Lists.{length, back, drop_last, back-cons}

module _ {K : Type 0} (dec : Discrete K) where
  abbrev pub has : K → List K → Bool
  has k [] = false
  has k (j ∷ l) = ite (dec j k) true (has k l)

  unfoldable pub remove : K → List K → List K
  remove k [] = []
  remove k (j ∷ l) = ite (dec j k) (remove k l) (j ∷ remove k l)

  abbrev pub Distinct : List K → Type 0
  Distinct [] = Unit {0}
  Distinct (k ∷ l) = (has k l ≡ false) × Distinct l

  pub has-remove : (k j : K) (l : List K) → has j (remove k l) ≡ ite (dec k j) false (has j l)
  unfolding remove
  has-remove k j [] = ground arith
  has-remove k j (i ∷ l) = ground (arith, has-remove k j l)

  pub remove_absent : (k : K) (l : List K) → has k l ≡ false → remove k l ≡ l
  unfolding remove
  remove_absent k [] h = refl
  remove_absent k (j ∷ l) h = ground (arith, remove_absent k l)

  pub Distinct-remove : (k : K) (l : List K) → Distinct l → Distinct (remove k l)
  unfolding remove
  Distinct-remove k [] d = tt
  Distinct-remove k (j ∷ l) d = ground (arith, Distinct-remove k l d.1, has-remove k j l)

  pub length-remove :
      (k : K) (l : List K) → Distinct l → has k l ≡ true → suc (length (remove k l)) ≡ length l
  unfolding remove
  length-remove k [] d h = ground arith
  length-remove k (j ∷ l) d h = ground (arith, length-remove k l d.1, remove_absent k l)

  pub has-back : (k : K) (l : List K) → back l ≡ some k → has k l ≡ true
  has-back k [] h = ground arith
  has-back k (j ∷ []) h = ground arith
  has-back k (j ∷ i ∷ l) h = ground (arith, has-back k (i ∷ l) h)

  pub has-drop_last :
      (k j : K) (l : List K)
      → Distinct l
      → back l ≡ some k
      → has j (drop_last l) ≡ ite (dec k j) false (has j l)
  has-drop_last k j [] d h = ground arith
  has-drop_last k j (i ∷ []) d h = ground arith
  has-drop_last k j (i ∷ i' ∷ l) d h =
      ground (arith, has-drop_last k j (i' ∷ l) d.1 h, has-back k (i' ∷ l) h)

  pub Distinct-drop_last : (l : List K) → Distinct l → Distinct (drop_last l)
  Distinct-drop_last [] d = tt
  Distinct-drop_last (k ∷ []) d = tt
  Distinct-drop_last (k ∷ j ∷ l) d =
      let (b, e) = back-cons j l in
      (ground (arith, has-drop_last b k (j ∷ l) d.1 e), Distinct-drop_last (j ∷ l) d.1)

  pub length-remove-le : (k : K) (l : List K) → length (remove k l) ≤ length l
  unfolding remove
  length-remove-le k [] = omega arith
  length-remove-le k (j ∷ l) = ground (arith, length-remove-le k l)
