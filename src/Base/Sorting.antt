-- ===== src/Base/Sorting.antt =====
-- `sort.Slice` over a strict total order: insertion sort, whose result no other sort can differ from.
use mathlib.Core.List.{Perm, Permᴰ}
use mathlib.Core.List.Perm
use mathlib.Core.List.Permᴰ.{nil, cons, swap, trans}
use mathlib.Core.Logic.{∥∥₁_elim}
use mathlib.Core.Bool.{Bool, true, false}
use mathlib.Core.List.{List, [], ◌∷◌}
use mathlib.Core.Path.{◌≡◌, refl, ◌∙◌}
use native.Mathlib.Omega.{arith}
use mathlib.Core.Logic.{inl, inr}
use imagelet.Base.Tests.{if◌then◌else◌, Bool-cases}
use imagelet.Base.Lists.{All, All-map}

-- what makes the `less` of a sort a strict total order
pub record StrictOrder (A : Type 0) (less : A → A → Bool) : Type 0 where
  pub asym : (x y : A) → less x y ≡ true → less y x ≡ false
  pub trans : (x y z : A) → less x y ≡ true → less y z ≡ true → less x z ≡ true
  pub total : (x y : A) → less x y ≡ false → less y x ≡ false → x ≡ y

module _ {A : Type 0} (less : A → A → Bool) where
  unfoldable pub insert_ordered : A → List A → List A
  insert_ordered x [] = x ∷ []
  insert_ordered x (y ∷ l) = if less y x then y ∷ insert_ordered x l else x ∷ y ∷ l

  unfoldable pub sort_slice : List A → List A
  unfolding insert_ordered
  sort_slice [] = []
  sort_slice (x ∷ l) = insert_ordered x (sort_slice l)

  -- Nothing that stands later is less.
  unfoldable pub IsSorted : List A → Type 0
  IsSorted [] = Unit {0}
  IsSorted (x ∷ l) = All (λ y. less y x ≡ false) l × IsSorted l

module _ {A : Type 0} {less : A → A → Bool} (o : StrictOrder A less) where
  insert_ordered_comm :
      (x y : A) (l : List A)
      → insert_ordered less x (insert_ordered less y l)
        ≡ insert_ordered less y (insert_ordered less x l)
  unfolding insert_ordered
  insert_ordered_comm x y [] = ground (arith, o.asym x y, o.total x y)
  insert_ordered_comm x y (z ∷ l) = ground (
    arith,
    insert_ordered_comm x y l,
    o.asym x y,
    o.total x y,
    o.trans x y z,
    o.trans y x z,
    o.trans x z y,
    o.trans y z x,
    o.trans z x y,
    o.trans z y x,
    o.total x z,
    o.total y z,
    o.asym x z,
    o.asym y z,
  )

  sort_slice-Permᴰ : {l m : List A} → Permᴰ l m → sort_slice less l ≡ sort_slice less m
  unfolding sort_slice
  sort_slice-Permᴰ nil = refl
  sort_slice-Permᴰ (cons e p) = cc (sort_slice-Permᴰ p)
  sort_slice-Permᴰ (swap {a} {b} {l = l} e e') = insert_ordered_comm a b (sort_slice less l) ∙ cc
  sort_slice-Permᴰ (trans p q) = sort_slice-Permᴰ p ∙ sort_slice-Permᴰ q

  -- Sorting forgets the order.
  pub sort_slice-perm :
      IsSet (List A) → {l m : List A} → Perm l m → sort_slice less l ≡ sort_slice less m
  sort_slice-perm set p = ∥∥₁_elim p (set _ _) sort_slice-Permᴰ

  insert_ordered-Perm : (x : A) (l : List A) → Perm (insert_ordered less x l) (x ∷ l)
  unfolding insert_ordered
  insert_ordered-Perm x [] = Perm.rfl
  insert_ordered-Perm x (y ∷ l) = elim (Bool-cases (less y x)) [
    | inl e ↦ rw e (Perm.trans (Perm.cons y (insert_ordered-Perm x l)) (Perm.swap x y l))
    | inr e ↦ rw e Perm.rfl
  ]

  pub sort_slice-Perm : (l : List A) → Perm (sort_slice less l) l
  unfolding sort_slice
  sort_slice-Perm [] = Perm.rfl
  sort_slice-Perm (x ∷ l) =
      Perm.trans (insert_ordered-Perm x (sort_slice less l)) (Perm.cons x (sort_slice-Perm l))

  insert_ordered-All :
      (P : A → Type 0) (x : A) (l : List A) → P x → All P l → All P (insert_ordered less x l)
  unfolding insert_ordered
  insert_ordered-All P x [] p q = (p, tt)
  insert_ordered-All P x (y ∷ l) p q = elim (Bool-cases (less y x)) [
    | inl e ↦ rw (e, All) (q.0, insert_ordered-All P x l p q.1)
    | inr e ↦ rw (e, All) (p, q)
  ]

  not_less_trans : (x y z : A) → less y x ≡ false → less z y ≡ false → less z x ≡ false
  not_less_trans x y z p q = ground (arith, o.trans z x y, o.asym z x, o.total x y, o.total z y)

  insert_ordered-IsSorted :
      (x : A) (l : List A) → IsSorted less l → IsSorted less (insert_ordered less x l)
  unfolding insert_ordered IsSorted
  insert_ordered-IsSorted x [] s = (tt, tt)
  insert_ordered-IsSorted x (y ∷ l) s = elim (Bool-cases (less y x)) [
    | inl e ↦
        rw (e, IsSorted)
          (
            insert_ordered-All (λ z. less z y ≡ false) x l (o.asym y x e) s.0,
            insert_ordered-IsSorted x l s.1,
          )
    | inr e ↦ rw (e, IsSorted) ((e, All-map (λ z h. not_less_trans x y z e h) l s.0), s)
  ]

  pub sort_slice-IsSorted : (l : List A) → IsSorted less (sort_slice less l)
  unfolding sort_slice IsSorted
  sort_slice-IsSorted [] = tt
  sort_slice-IsSorted (x ∷ l) =
      insert_ordered-IsSorted x (sort_slice less l) (sort_slice-IsSorted l)
