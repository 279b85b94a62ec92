-- ===== src/StaleCache/Invariant.antt =====
-- service/dns/resolver/cached and service/github/profile/cached: what holds of the map and the
-- entries at any time, whatever calls are under way.
use imagelet.Base.{
  ℕ, ◌≡◌, ◌<◌, ◌&&◌, true, false, Option, none, some, arith, is_some, refl, inl, inr, Bool-cases,
}
use imagelet.Base.Assoc.{lookup, lookup-insert}
use imagelet.StaleCache.{
  State, Entry, Cache, Policy, Fetched, missed, is_ok, is_fail, write, new, count_eviction, answer,
  publish, start, keep_error, finish,
}

-- An entry that is not a success is the zero value with an error.
abbrev pub IsSound : {R E : Type 0} → Policy R E → Entry R E → Type 0
IsSound policy e = is_ok e.state ≡ false → (e.records ≡ policy.blank) × (is_some e.err ≡ true)

module _ {K R E : Type 0} (dec : Discrete K) (policy : Policy R E) where
  -- Pointers of the map are in use, no two keys share one, and the entries in use are sound.
  pub record IsValid (c : Cache K R E) : Type 0 where
    pub allocated : (k : K) (p : ℕ) → lookup dec k c.entries ≡ some p → p < c.next
    pub unshared :
        (k j : K) (p : ℕ)
        → lookup dec k c.entries ≡ some p
        → lookup dec j c.entries ≡ some p
        → k ≡ j
    pub sound : (p : ℕ) → p < c.next → IsSound policy (c.heap p)

  -- A pointer that a call holds is in use.
  abbrev pub IsAllocated : Option ℕ → Cache K R E → Type 0
  IsAllocated e c = (p : ℕ) → e ≡ some p → p < c.next

  pub new-IsValid : IsValid (new {K = K} policy)
  unfolding new lookup
  new-IsValid = record {
    allocated = λ k p h. ground arith;
    unshared = λ k j p h h'. ground arith;
    sound = λ p h. ground arith;
  }

  pub publish-IsValid :
      (key : K) (e : Entry R E) {c : Cache K R E}
      → IsSound policy e
      → IsValid c
      → IsValid (publish dec policy key e c)
  unfolding publish
  publish-IsValid key e {c} s i = record {
    allocated = λ k p h. ground (arith, lookup-insert dec key k c.next c.entries, i.allocated k p);
    unshared = λ k j p h h'. ground (
      arith,
      lookup-insert dec key k c.next c.entries,
      lookup-insert dec key j c.next c.entries,
      i.allocated k p,
      i.allocated j p,
      i.unshared k j p,
    );
    sound = λ p h n. ground (arith, i.sound p, s);
  }

  -- what a failed or a stale entry is overwritten with
  write-IsValid :
      (p : ℕ) (e : Entry R E) {c : Cache K R E}
      → IsSound policy e
      → IsValid c
      → IsValid (record c { heap = write p e c.heap })
  write-IsValid p e {c} s i = record {
    allocated = i.allocated;
    unshared = i.unshared;
    sound = λ q h n. ground (arith, i.sound q, s);
  }

  pub count_eviction-IsValid :
      (e : Option ℕ) {c : Cache K R E} → IsValid c → IsValid (count_eviction e c)
  unfolding count_eviction
  count_eviction-IsValid none i = i
  count_eviction-IsValid (some p) i = record {
    allocated = i.allocated;
    unshared = i.unshared;
    sound = i.sound;
  }

  pub start-IsValid :
      (key : K) (now : ℕ) {c : Cache K R E} → IsValid c → IsValid (start dec policy key now c).0
  unfolding start
  start-IsValid key now {c} i = record {
    allocated = λ k p. ground (arith, i.allocated k p);
    unshared = λ k j p. ground (arith, i.unshared k j p);
    sound = λ p h n. ground (arith, i.sound p);
  }

  -- The pointer a call keeps is one of the map.
  pub start-IsAllocated :
      (key : K) (now : ℕ) (e : Option ℕ) {c : Cache K R E}
      → IsValid c
      → (start dec policy key now c).1 ≡ missed e
      → IsAllocated e (start dec policy key now c).0
  unfolding start answer
  start-IsAllocated key now e {c} i h p q = ground (arith, i.allocated key p)

  publish_error-IsValid :
      (key : K) (d : ℕ) (e : Option ℕ) (err : E) (s : State) {c : Cache K R E}
      → IsValid c
      → IsValid (
          publish dec policy key
            (record { records = policy.blank; err = some err; state = s; deadline = d })
            (count_eviction e c))
  publish_error-IsValid key d e err s i =
      publish-IsValid key _ (λ n. (refl, refl)) (count_eviction-IsValid e i)

  keep_error-IsValid :
      (key : K) (now : ℕ) (e : Option ℕ) (err : E) {c : Cache K R E}
      → IsValid c
      → IsValid (keep_error dec policy key now e err c).0
  unfolding keep_error
  keep_error-IsValid key now none err {c} i = publish_error-IsValid key _ none err _ i
  keep_error-IsValid key now (some p) err {c} i =
      elim (Bool-cases (is_ok (c.heap p).state && is_fail (policy.classify err))) [
        | inl stale ↦
            rw (stale, keep_error)
              (count_eviction-IsValid (some p) (write-IsValid p _ (λ n. ground arith) i))
        | inr other ↦ rw (other, keep_error) (publish_error-IsValid key _ (some p) err _ i)
      ]

  -- The second half of a call keeps the cache valid.
  pub finish-IsValid :
      (key : K) (now : ℕ) (e : Option ℕ) (f : Fetched R E) {c : Cache K R E}
      → IsValid c
      → IsValid (finish dec policy key now e f c).0
  unfolding finish
  finish-IsValid key now e (Fetched.ok r) i =
      publish-IsValid key _ (λ n. ground arith) (count_eviction-IsValid e i)
  finish-IsValid key now e (Fetched.fail err) i = elim (Bool-cases (policy.passes err)) [
    | inl passed ↦ rw (passed, finish) i
    | inr kept ↦ rw (kept, finish) (keep_error-IsValid key now e err i)
  ]
