-- ===== src/Base/Lists.antt =====
-- Lists measured by native numbers, under the library's names, and the ends of a list.
use Prim.Native.Nat.{ℕ, zero, suc, ◌≤◌, ◌<◌}
use mathlib.Core.List.{List, [], ◌∷◌, ◌++◌}
use mathlib.Core.Option.{Option, none, some}
use mathlib.Core.Path.{◌≡◌, refl, ap}
use native.Mathlib.Omega.{arith}

module _ {ℓ} {A : Type ℓ} where
  abbrev pub length : List A → ℕ
  length [] = 0
  length (x ∷ xs) = suc (length xs)

  abbrev pub take : ℕ → List A → List A
  take zero xs = []
  take (suc n) [] = []
  take (suc n) (x ∷ xs) = x ∷ take n xs

  -- The last element, and the list without it.
  abbrev pub back : List A → Option A
  back [] = none
  back (x ∷ []) = some x
  back (x ∷ y ∷ xs) = back (y ∷ xs)

  abbrev pub drop_last : List A → List A
  drop_last [] = []
  drop_last (x ∷ []) = []
  drop_last (x ∷ y ∷ xs) = x ∷ drop_last (y ∷ xs)

  -- A list that fits is taken whole.
  pub take_of_length-le : (n : ℕ) (l : List A) → length l ≤ n → take n l ≡ l
  take_of_length-le zero [] fits = refl
  take_of_length-le zero (a ∷ l) fits = absurd (omega arith)
  take_of_length-le (suc n) [] fits = refl
  take_of_length-le (suc n) (a ∷ l) fits = rw (take_of_length-le n l (omega arith))

  pub length-drop_last : (x : A) (xs : List A) → length (drop_last (x ∷ xs)) ≡ length xs
  length-drop_last x [] = refl
  length-drop_last x (y ∷ xs) = omega (arith, length-drop_last y xs)

  pub take-drop_last : (n : ℕ) (xs : List A) → n < length xs → take n (drop_last xs) ≡ take n xs
  take-drop_last n [] h = absurd (omega arith)
  take-drop_last zero (x ∷ xs) h = refl
  take-drop_last (suc n) (x ∷ []) h = absurd (omega arith)
  take-drop_last (suc n) (x ∷ y ∷ xs) h = ap (◌∷◌ x) (take-drop_last n (y ∷ xs) (omega arith))

  pub back-cons : (x : A) (xs : List A) → (y : A) × (back (x ∷ xs) ≡ some y)
  back-cons x [] = (x, refl)
  back-cons x (y ∷ xs) = back-cons y xs

  pub length_of_back : (xs : List A) → back xs ≡ none → length xs ≡ 0
  length_of_back [] h = refl
  length_of_back (x ∷ xs) h = absurd (ground (arith, back-cons x xs))

  pub length-drop_last_of_back :
      (y : A) (xs : List A) → back xs ≡ some y → suc (length (drop_last xs)) ≡ length xs
  length-drop_last_of_back y [] h = absurd (ground arith)
  length-drop_last_of_back y (x ∷ xs) h = omega (arith, length-drop_last x xs)

-- A property of every element.
abbrev pub All {ℓ} : {A : Type ℓ} → (A → Type 0) → List A → Type 0
All P [] = Unit {0}
All P (x ∷ xs) = P x × All P xs

pub All-map {ℓ} :
    {A : Type ℓ} {P Q : A → Type 0} → ((a : A) → P a → Q a) → (xs : List A) → All P xs → All Q xs
All-map f [] h = tt
All-map f (x ∷ xs) h = (f x h.0, All-map f xs h.1)

-- One element and the others.
pub All-pick {ℓ} :
    {A : Type ℓ} (P : A → Type 0) (xs : List A) (x : A) (ys : List A)
    → All P (xs ++ (x ∷ ys))
    → P x × All P (xs ++ ys)
All-pick P [] x ys h = h
All-pick P (y ∷ xs) x ys h = let (p, q) = All-pick P xs x ys h.1 in (p, (h.0, q))
