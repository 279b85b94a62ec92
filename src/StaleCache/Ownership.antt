-- ===== src/StaleCache/Ownership.antt =====
-- service/dns/resolver/cached and service/github/profile/cached: a pointer that a call holds is of
-- the call's key, also after the entry was replaced.
use imagelet.Base.{
  ℕ, ◌≡◌, ◌≢◌, ◌<◌, List, ◌∷◌, ◌++◌, false, Option, none, some, arith, refl, inl, inr, Option-cases,
  All, All-map, All-pick,
}
use imagelet.Base.Assoc.{lookup, lookup-insert}
use imagelet.StaleCache.{
  Cache, Policy, Fetched, is_ok, count_eviction, count_hit, count_miss, publish, keep_error, finish,
}
use imagelet.StaleCache.Invariant.{IsValid}
use imagelet.StaleCache.Answers.{held}
use imagelet.StaleCache.Interleavings.{
  Pending, fresh, judged, asking, Reach, begun, look, hit, judge, reply, miss, finished,
  Reach-IsSafe,
}

module _ {K R E : Type 0} (dec : Discrete K) (policy : Policy R E) where
  -- No other key points to the entry.
  abbrev pub IsOwned : K → Option ℕ → Cache K R E → Type 0
  IsOwned key e c =
      (p : ℕ) → e ≡ some p → (p < c.next) × ((k : K) → lookup dec k c.entries ≡ some p → k ≡ key)

  finish-IsOwned :
      (key : K) (now : ℕ) (e : Option ℕ) (f : Fetched R E) (c : Cache K R E) (q : Pending K)
      → IsOwned q.key q.pointer c
      → IsOwned q.key q.pointer (finish dec policy key now e f c).0
  unfolding finish keep_error publish count_eviction
  finish-IsOwned key now none (Fetched.ok r) c q o p h = (
    ground (arith, (o p h).0),
    λ k g. ground (arith, lookup-insert dec key k c.next c.entries, (o p h).0, (o p h).1 k),
  )
  finish-IsOwned key now (some a) (Fetched.ok r) c q o p h = (
    ground (arith, (o p h).0),
    λ k g. ground (arith, lookup-insert dec key k c.next c.entries, (o p h).0, (o p h).1 k),
  )
  finish-IsOwned key now none (Fetched.fail x) c q o p h = (
    ground (arith, (o p h).0),
    λ k g. ground (arith, lookup-insert dec key k c.next c.entries, (o p h).0, (o p h).1 k),
  )
  finish-IsOwned key now (some a) (Fetched.fail x) c q o p h = (
    ground (arith, (o p h).0),
    λ k g. ground (arith, lookup-insert dec key k c.next c.entries, (o p h).0, (o p h).1 k),
  )

  -- a call goes on and changes no entry
  step-IsOwned :
      (c d : Cache K R E) (xs ys : List (Pending K)) (p q : Pending K)
      → c.entries ≡ d.entries
      → c.next ≡ d.next
      → q.key ≡ p.key
      → q.pointer ≡ p.pointer
      → All (λ x. IsOwned x.key x.pointer c) (xs ++ (p ∷ ys))
      → All (λ x. IsOwned x.key x.pointer d) (q ∷ (xs ++ ys))
  step-IsOwned c d xs ys p q e n k z o =
      let (own, rest) = All-pick (λ x. IsOwned x.key x.pointer d) xs p ys (rw (← e, ← n) o) in
      (rw (k, z) own, rest)

  module _ (upstream : K → Fetched R E → Type 0)
      (honest : (err : E) → is_ok (policy.classify err) ≡ false) where
    Reach-IsOwned :
        {c : Cache K R E} {ps : List (Pending K)}
        → Reach dec policy upstream c ps
        → All (λ q. IsOwned q.key q.pointer c) ps
    unfolding count_hit count_miss
    Reach-IsOwned begun = tt
    Reach-IsOwned (look {c} {ps} r key now) =
        let i = (Reach-IsSafe dec policy upstream honest r).valid in
        ((λ p e. (i.allocated key p e, λ k l. i.unshared k key p l e)), Reach-IsOwned r)
    Reach-IsOwned (hit {c} xs ys p r e h) =
        step-IsOwned c (count_hit c) xs ys p (record p { stage = fresh }) refl refl refl refl
          (Reach-IsOwned r)
    Reach-IsOwned (judge {c} xs ys p a r e h) =
        step-IsOwned c c xs ys p (record p { stage = judged (c.heap a).state }) refl refl refl refl
          (Reach-IsOwned r)
    Reach-IsOwned (reply {c} xs ys p x r e) =
        (All-pick (λ q. IsOwned q.key q.pointer c) xs p ys (Reach-IsOwned r)).1
    Reach-IsOwned (miss {c} xs ys p r e h) =
        step-IsOwned c (count_miss c) xs ys p (record p { stage = asking }) refl refl refl refl
          (Reach-IsOwned r)
    Reach-IsOwned (finished {c} xs ys p r e f u) =
        All-map (λ q. finish-IsOwned p.key p.now p.pointer f c q) (xs ++ ys)
          (All-pick (λ q. IsOwned q.key q.pointer c) xs p ys (Reach-IsOwned r)).1

    finish_elsewhere :
        (key : K) (now : ℕ) (e : Option ℕ) (f : Fetched R E) (k : K) {c : Cache K R E}
        → IsValid dec policy c
        → IsOwned key e c
        → k ≢ key
        → held dec policy k (finish dec policy key now e f c).0 ≡ held dec policy k c
    unfolding finish keep_error publish count_eviction
    finish_elsewhere key now none f k {c} i o n = elim (Option-cases (lookup dec k c.entries)) [
      | inl h ↦ ground (arith, lookup-insert dec key k c.next c.entries)
      | inr (p, h) ↦ ground (arith, lookup-insert dec key k c.next c.entries, i.allocated k p h)
    ]
    finish_elsewhere key now (some a) f k {c} i o n = elim (Option-cases (lookup dec k c.entries)) [
      | inl h ↦ ground (arith, lookup-insert dec key k c.next c.entries)
      | inr (p, h) ↦
          ground
            (arith, lookup-insert dec key k c.next c.entries, i.allocated k p h, (o a refl).1 k)
    ]

    -- If no error is classified as a success: in every interleaving, the end of a call changes no
    -- entry of another key, also where it writes through a pointer to an entry that has been
    -- replaced.
    pub finish_other :
        {c : Cache K R E} (xs ys : List (Pending K)) (p : Pending K) (f : Fetched R E) (k : K)
        → Reach dec policy upstream c (xs ++ (p ∷ ys))
        → k ≢ p.key
        → held dec policy k (finish dec policy p.key p.now p.pointer f c).0 ≡ held dec policy k c
    finish_other {c} xs ys p f k r n =
        finish_elsewhere p.key p.now p.pointer f k (Reach-IsSafe dec policy upstream honest r).valid
          (All-pick (λ q. IsOwned q.key q.pointer c) xs p ys (Reach-IsOwned r)).0 n
