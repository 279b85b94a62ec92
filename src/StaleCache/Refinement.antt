-- ===== src/StaleCache/Refinement.antt =====
-- service/dns/resolver/cached and service/github/profile/cached: a call on the map, the heap and the
-- pointers, against a call on a map from keys to entries.
use imagelet.Base.{
  ℕ, ◌+◌, ◌≡◌, ◌≤◌, ◌<◌, ◌&&◌, Option, none, some, arith, ap, ◌∙◌, refl, Option-cases, inl, inr,
  Bool-cases, ite, if◌then◌else◌,
}
use imagelet.Base.Assoc.{lookup}
use imagelet.StaleCache.{
  State, Entry, Cache, Policy, Fetched, answered, missed, is_ok, is_fail, write, count_eviction,
  answer, publish, start, keep_error, finish, call,
}
use imagelet.StaleCache.Invariant.{IsValid, count_eviction-IsValid, start-IsValid}
use imagelet.StaleCache.Answers.{
  reply, entry_at, held, start-held, entry_at_congr, held-start, held-publish,
}

module _ {K R E : Type 0} (dec : Discrete K) (policy : Policy R E) where
  -- The entry of a key after an upstream answer, and the result of the call, from the entry of
  -- before: the cache as a map to values.
  abbrev pub after_error : ℕ → Option (Entry R E) → E → Option (Entry R E) × R × Option E
  after_error now prev err =
      let s = policy.classify err in
      let replaced : Option (Entry R E) × R × Option E = (
        some (record {
          records = policy.blank;
          err = some err;
          state = s;
          deadline = now + policy.ttl_for s;
        }),
        policy.blank,
        some err,
      ) in
      elim prev [
        | none ↦ replaced
        | some x ↦
            if is_ok x.state && is_fail s
            then (
              some (record x { deadline = now + policy.failure_ttl; err = some err }),
              x.records,
              some err,
            )
            else replaced
      ]

  abbrev pub after : ℕ → Option (Entry R E) → Fetched R E → Option (Entry R E) × R × Option E
  after now prev (Fetched.ok r) = (
    some (record {
      records = r;
      err = none;
      state = State.ok;
      deadline = policy.success_deadline now r;
    }),
    r,
    none,
  )
  after now prev (Fetched.fail err) =
      if policy.passes err then (prev, policy.blank, some err) else after_error now prev err

  stale-held :
      (key k : K) (p : ℕ) (x : Entry R E) {c : Cache K R E}
      → IsValid dec policy c
      → lookup dec key c.entries ≡ some p
      → held dec policy k (count_eviction (some p) (record c { heap = write p x c.heap }))
        ≡ ite (dec key k) (some x) (held dec policy k c)
  unfolding count_eviction
  stale-held key k p x {c} i h = elim (Option-cases (lookup dec k c.entries)) [
    | inl e ↦ ground arith
    | inr (q, e) ↦ ground (arith, i.unshared key k p h)
  ]

  replace-held :
      (key k : K) (e : Option ℕ) (x : Entry R E) {c : Cache K R E}
      → IsValid dec policy c
      → held dec policy k (publish dec policy key x (count_eviction e c))
        ≡ ite (dec key k) (some x) (held dec policy k c)
  unfolding count_eviction
  replace-held key k none x i = held-publish dec policy key k x i
  replace-held key k (some p) x {c} i =
      held-publish dec policy key k x (count_eviction-IsValid dec policy (some p) i)
      ∙ ap (ite (dec key k) (some x))
          (entry_at_congr dec policy (lookup dec k c.entries) (count_eviction (some p) c) c refl)

  abbrev Implements :
      K → K → Cache K R E → Cache K R E × R × Option E → Option (Entry R E) × R × Option E → Type 0
  Implements key k c out spec =
      (held dec policy k out.0 ≡ ite (dec key k) (spec.0) (held dec policy k c))
      × (out.1 ≡ spec.1)
      × (out.2 ≡ spec.2)

  keep_error-after :
      (key k : K) (now : ℕ) (e : Option ℕ) (err : E) {c : Cache K R E}
      → IsValid dec policy c
      → lookup dec key c.entries ≡ e
      → Implements key k c
          (keep_error dec policy key now e err c)
          (after_error now (entry_at dec policy e c) err)
  unfolding keep_error
  keep_error-after key k now none err {c} i h = (replace-held key k none _ i, refl, refl)
  keep_error-after key k now (some p) err {c} i h =
      elim (Bool-cases (is_ok (c.heap p).state && is_fail (policy.classify err))) [
        | inl stale ↦ rw (stale, keep_error) (stale-held key k p _ i h, refl, refl)
        | inr other ↦ rw (other, keep_error) (replace-held key k (some p) _ i, refl, refl)
      ]

  finish-after :
      (key k : K) (now : ℕ) (e : Option ℕ) (f : Fetched R E) {c : Cache K R E}
      → IsValid dec policy c
      → lookup dec key c.entries ≡ e
      → Implements key k c (finish dec policy key now e f c) (after now (entry_at dec policy e c) f)
  unfolding finish
  finish-after key k now e (Fetched.ok r) i h = (replace-held key k e _ i, refl, refl)
  finish-after key k now e (Fetched.fail err) {c} i h = elim (Bool-cases (policy.passes err)) [
    | inl passed ↦ rw (passed, finish) (ground arith, refl, refl)
    | inr kept ↦ rw (kept, finish) (keep_error-after key k now e err i h)
  ]

  -- the map to values: a fresh entry answers, and otherwise the upstream's answer is stored
  abbrev pub after_call : ℕ → Option (Entry R E) → Fetched R E → Option (Entry R E) × R × Option E
  after_call now prev f = elim (reply policy now prev) [
    | none ↦ after now prev f
    | some (answered r err) ↦ (prev, r, err)
    | some (missed _) ↦ after now prev f
  ]

  pub call_answered :
      (key : K) (now : ℕ) (f : Fetched R E) (r : R) (err : Option E) (c : Cache K R E)
      → (start dec policy key now c).1 ≡ answered r err
      → call dec policy key now f c ≡ ((start dec policy key now c).0, r, err)
  unfolding call
  call_answered key now f r err c h = rw (h, call) refl

  pub call_missed :
      (key : K) (now : ℕ) (f : Fetched R E) (e : Option ℕ) (c : Cache K R E)
      → (start dec policy key now c).1 ≡ missed e
      → call dec policy key now f c ≡ finish dec policy key now e f (start dec policy key now c).0
  unfolding call
  call_missed key now f e c h = rw (h, call) refl

  call-hit :
      (key k : K) (now : ℕ) (f : Fetched R E) (r : R) (err : Option E) (e : Entry R E)
      (c : Cache K R E)
      → held dec policy key c ≡ some e
      → now < e.deadline
      → (start dec policy key now c).1 ≡ answered r err
      → answer policy e ≡ answered r err
      → Implements key k c (call dec policy key now f c) (after_call now (held dec policy key c) f)
  call-hit key k now f r err e c h fresh a b =
      let q : after_call now (held dec policy key c) f ≡ (some e, r, err) = ground arith in
      rw (call_answered key now f r err c a, q)
        (ground (arith, held-start dec policy key k now c), refl, refl)

  pub after_call_stale :
      (now : ℕ) (o : Option (Entry R E)) (f : Fetched R E)
      → ((e : Entry R E) → o ≡ some e → e.deadline ≤ now)
      → after_call now o f ≡ after now o f
  after_call_stale now none f stale = refl
  after_call_stale now (some e) f stale = ground (arith, stale e refl)

  call-miss :
      (key k : K) (now : ℕ) (f : Fetched R E) {c : Cache K R E}
      → IsValid dec policy c
      → ((e : Entry R E) → held dec policy key c ≡ some e → e.deadline ≤ now)
      → (start dec policy key now c).1 ≡ missed (lookup dec key c.entries)
      → (start dec policy key now c).0.entries ≡ c.entries
      → (start dec policy key now c).0.heap ≡ c.heap
      → Implements key k c (call dec policy key now f c) (after_call now (held dec policy key c) f)
  call-miss key k now f {c} i stale a b d =
      let e = lookup dec key c.entries in
      let (x, y, z) =
        finish-after key k now e f (start-IsValid dec policy key now i)
          (ap (λ m. lookup dec key m) b) in
      let same = entry_at_congr dec policy e (start dec policy key now c).0 c d in
      rw (call_missed key now f e c a, after_call_stale now (held dec policy key c) f stale)
        (
          x
              ∙ ap
                  (λ o.
                    ite (dec key k) (after now o f).0
                      (held dec policy k (start dec policy key now c).0))
                  same
              ∙ ap (ite (dec key k) (after now (held dec policy key c) f).0)
                  (held-start dec policy key k now c),
          y ∙ ap (λ o. (after now o f).1) same,
          z ∙ ap (λ o. (after now o f).2) same,
        )

  -- On a valid cache, a call that no other call interrupts changes the entry of its key as
  -- `after_call` says and no other, and returns what `after_call` says: a fresh entry's answer, the
  -- new answer, the error with the zero value, or the error with the old records.
  pub call-after :
      (key k : K) (now : ℕ) (f : Fetched R E) {c : Cache K R E}
      → IsValid dec policy c
      → (held dec policy k (call dec policy key now f c).0
          ≡ ite (dec key k) ((after_call now (held dec policy key c) f).0) (held dec policy k c))
        × ((call dec policy key now f c).1 ≡ (after_call now (held dec policy key c) f).1)
        × ((call dec policy key now f c).2 ≡ (after_call now (held dec policy key c) f).2)
  unfolding answer
  call-after key k now f {c} i = elim (start-held dec policy key now c) [
    | inl (e, h, fresh, a, b) ↦ elim (Bool-cases (is_ok e.state)) [
      | inl o ↦ call-hit key k now f e.records none e c h fresh (ground (arith, o)) (ground arith)
      | inr o ↦ call-hit key k now f policy.blank e.err e c h fresh (ground arith) (ground arith)
    ]
    | inr (stale, a, b) ↦
        call-miss key k now f i stale a (ap (λ x. x.entries) b) (ap (λ x. x.heap) b)
  ]
