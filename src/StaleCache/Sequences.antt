-- ===== src/StaleCache/Sequences.antt =====
-- service/dns/resolver/cached and service/github/profile/cached: two calls for one key, the second
-- one before the first one's entry expires.
use imagelet.Base.{
  ℕ, ◌+◌, ◌≡◌, ◌≤◌, ◌<◌, true, false, ◌⊎◌, Option, none, some, arith, ap, ◌∙◌, refl, inl, inr, ite,
}
use imagelet.StaleCache.{
  Entry, Cache, Policy, Fetched, Started, answered, missed, is_ok, is_fail, answer, start, call,
}
use imagelet.StaleCache.Invariant.{IsValid, start-IsValid, finish-IsValid}
use imagelet.StaleCache.Answers.{held}
use imagelet.StaleCache.Refinement.{
  after_call, after, call-after, call_answered, call_missed, after_call_stale,
}

Started-cases :
    {R E : Type 0} (s : Started R E)
    → ((r : R) × (err : Option E) × (s ≡ answered r err)) ⊎ ((e : Option ℕ) × (s ≡ missed e))
Started-cases (answered r err) = inl (r, err, refl)
Started-cases (missed e) = inr (e, refl)

module _ {K R E : Type 0} (dec : Discrete K) (policy : Policy R E) where
  pub call-IsValid :
      (key : K) (now : ℕ) (f : Fetched R E) {c : Cache K R E}
      → IsValid dec policy c
      → IsValid dec policy (call dec policy key now f c).0
  call-IsValid key now f {c} i = elim (Started-cases (start dec policy key now c).1) [
    | inl (r, err, h) ↦
        rw (call_answered dec policy key now f r err c h) (start-IsValid dec policy key now i)
    | inr (e, h) ↦
        rw (call_missed dec policy key now f e c h)
          (finish-IsValid dec policy key now e f (start-IsValid dec policy key now i))
  ]

  -- No fresh entry under the key.
  abbrev pub IsExpired : K → ℕ → Cache K R E → Type 0
  IsExpired key now c = (e : Entry R E) → held dec policy key c ≡ some e → e.deadline ≤ now

  ite_same : {A : Type 0} (k : K) (a b : A) → ite (dec k k) a b ≡ a
  ite_same k a b = ground arith

  ite-held :
      (key k : K) (c : Cache K R E)
      → ite (dec key k) (held dec policy key c) (held dec policy k c) ≡ held dec policy k c
  ite-held key k c = ground arith

  pub held-call :
      (key : K) (now : ℕ) (f : Fetched R E) {c : Cache K R E}
      → IsValid dec policy c
      → IsExpired key now c
      → (held dec policy key (call dec policy key now f c).0
          ≡ (after dec policy now (held dec policy key c) f).0)
        × ((call dec policy key now f c).1 ≡ (after dec policy now (held dec policy key c) f).1)
        × ((call dec policy key now f c).2 ≡ (after dec policy now (held dec policy key c) f).2)
  held-call key now f {c} i stale =
      let (x, y, z) = call-after dec policy key key now f i in
      let q = after_call_stale dec policy now (held dec policy key c) f stale in
      (x ∙ ite_same key _ _ ∙ ap (λ o. o.0) q, y ∙ ap (λ o. o.1) q, z ∙ ap (λ o. o.2) q)

  -- a fresh entry answers
  pub call_fresh :
      (key : K) (now : ℕ) (f : Fetched R E) (e : Entry R E) (r : R) (err : Option E)
      {c : Cache K R E}
      → IsValid dec policy c
      → held dec policy key c ≡ some e
      → now < e.deadline
      → answer policy e ≡ answered r err
      → ((call dec policy key now f c).1 ≡ r) × ((call dec policy key now f c).2 ≡ err)
  call_fresh key now f e r err {c} i h fresh a =
      let (x, y, z) = call-after dec policy key key now f i in
      let q : after_call dec policy now (held dec policy key c) f ≡ (some e, r, err) =
        ground arith in
      (y ∙ ap (λ o. o.1) q, z ∙ ap (λ o. o.2) q)

  after_replaced :
      (now : ℕ) (err : E) (prev : Option (Entry R E))
      → policy.passes err ≡ false
      → (is_fail (policy.classify err) ≡ false)
        ⊎ ((e : Entry R E) → prev ≡ some e → is_ok e.state ≡ false)
      → after dec policy now prev (Fetched.fail err) ≡ (
        some (record {
          records = policy.blank;
          err = some err;
          state = policy.classify err;
          deadline = now + policy.ttl_for (policy.classify err);
        }),
        policy.blank,
        some err,
      )
  after_replaced now err none p why = ground arith
  after_replaced now err (some e) p (inl gone) = ground arith
  after_replaced now err (some e) p (inr bad) = ground (arith, bad e refl)

  -- A success that had to be asked for answers every call for its key until its deadline, without
  -- an error and whatever the upstream would say by then.
  pub call_ok-call :
      (key : K) (now later : ℕ) (r : R) (g : Fetched R E) {c : Cache K R E}
      → IsValid dec policy c
      → IsExpired key now c
      → later < policy.success_deadline now r
      → ((call dec policy key later g (call dec policy key now (Fetched.ok r) c).0).1 ≡ r)
        × ((call dec policy key later g (call dec policy key now (Fetched.ok r) c).0).2 ≡ none)
  unfolding answer
  call_ok-call key now later r g {c} i stale fresh =
      call_fresh key later g _ r none (call-IsValid key now _ i)
        (held-call key now (Fetched.ok r) i stale).0 fresh refl

  -- Stale-serve: after a success has expired, an error that is cached as a failure is returned with
  -- the old records, and until the failure TTL has passed the same records are returned without an
  -- error.
  pub call_fail-call :
      (key : K) (now later : ℕ) (err : E) (g : Fetched R E) (e : Entry R E) {c : Cache K R E}
      → IsValid dec policy c
      → held dec policy key c ≡ some e
      → is_ok e.state ≡ true
      → e.deadline ≤ now
      → policy.passes err ≡ false
      → is_fail (policy.classify err) ≡ true
      → later < now + policy.failure_ttl
      → ((call dec policy key now (Fetched.fail err) c).1 ≡ e.records)
        × ((call dec policy key now (Fetched.fail err) c).2 ≡ some err)
        × ((call dec policy key later g (call dec policy key now (Fetched.fail err) c).0).1
            ≡ e.records)
        × ((call dec policy key later g (call dec policy key now (Fetched.fail err) c).0).2 ≡ none)
  unfolding answer
  call_fail-call key now later err g e {c} i h o old p f fresh =
      let (x, y, z) = held-call key now (Fetched.fail err) i (λ e' h'. ground arith) in
      let q : after dec policy now (held dec policy key c) (Fetched.fail err) ≡ (
        some (record e { deadline = now + policy.failure_ttl; err = some err }),
        e.records,
        some err,
      ) =
        ground arith in
      let (a, b) =
        call_fresh key later g _ e.records none (call-IsValid key now _ i) (x ∙ ap (λ o. o.0) q)
          fresh (ground arith) in
      (y ∙ ap (λ o. o.1) q, z ∙ ap (λ o. o.2) q, a, b)

  -- An error that says that the entity is gone, and a failure where no success was held, is
  -- returned with the zero value, then and in every call until its TTL has passed: a success from
  -- before is not served any more.
  pub call_error-call :
      (key : K) (now later : ℕ) (err : E) (g : Fetched R E) {c : Cache K R E}
      → IsValid dec policy c
      → IsExpired key now c
      → policy.passes err ≡ false
      → is_ok (policy.classify err) ≡ false
      → (is_fail (policy.classify err) ≡ false)
        ⊎ ((e : Entry R E) → held dec policy key c ≡ some e → is_ok e.state ≡ false)
      → later < now + policy.ttl_for (policy.classify err)
      → ((call dec policy key now (Fetched.fail err) c).1 ≡ policy.blank)
        × ((call dec policy key now (Fetched.fail err) c).2 ≡ some err)
        × ((call dec policy key later g (call dec policy key now (Fetched.fail err) c).0).1
            ≡ policy.blank)
        × ((call dec policy key later g (call dec policy key now (Fetched.fail err) c).0).2
            ≡ some err)
  unfolding answer
  call_error-call key now later err g {c} i stale p n why fresh =
      let (x, y, z) = held-call key now (Fetched.fail err) i stale in
      let q = after_replaced now err (held dec policy key c) p why in
      let (a, b) =
        call_fresh key later g _ policy.blank (some err) (call-IsValid key now _ i)
          (x ∙ ap (λ o. o.0) q) fresh (ground arith) in
      (y ∙ ap (λ o. o.1) q, z ∙ ap (λ o. o.2) q, a, b)

  -- An error that is never cached changes no entry of any key, and is returned with the zero value.
  pub call_passes :
      (key k : K) (now : ℕ) (err : E) {c : Cache K R E}
      → IsValid dec policy c
      → IsExpired key now c
      → policy.passes err ≡ true
      → (held dec policy k (call dec policy key now (Fetched.fail err) c).0 ≡ held dec policy k c)
        × ((call dec policy key now (Fetched.fail err) c).1 ≡ policy.blank)
        × ((call dec policy key now (Fetched.fail err) c).2 ≡ some err)
  call_passes key k now err {c} i stale p =
      let (x, y, z) = held-call key now (Fetched.fail err) i stale in
      let q : after dec policy now (held dec policy key c) (Fetched.fail err)
          ≡ (held dec policy key c, policy.blank, some err) =
        ground arith in
      (
        (call-after dec policy key k now (Fetched.fail err) i).0
            ∙ ap (λ o. ite (dec key k) o.0 (held dec policy k c))
                (after_call_stale dec policy now (held dec policy key c) (Fetched.fail err) stale
                  ∙ q)
            ∙ ite-held key k c,
        y ∙ ap (λ o. o.1) q,
        z ∙ ap (λ o. o.2) q,
      )

  -- From its deadline on, a success is asked for again.
  pub call_ok-expired :
      (key : K) (now later : ℕ) (r s : R) {c : Cache K R E}
      → IsValid dec policy c
      → IsExpired key now c
      → policy.success_deadline now r ≤ later
      → ((call dec policy key later (Fetched.ok s) (call dec policy key now (Fetched.ok r) c).0).1
          ≡ s)
        × ((call dec policy key later (Fetched.ok s) (call dec policy key now (Fetched.ok r) c).0).2
            ≡ none)
  call_ok-expired key now later r s {c} i stale old =
      let h = (held-call key now (Fetched.ok r) i stale).0 in
      let (x, y, z) =
        held-call key later (Fetched.ok s) (call-IsValid key now (Fetched.ok r) i)
          (λ e q. ground arith) in
      (y, z)
