-- ===== src/StaleCache/Later.antt =====
-- service/dns/resolver/cached and service/github/profile/cached: any number of calls, for any keys,
-- before the entry of a key expires.
use imagelet.Base.{
  ℕ, ◌+◌, ◌≡◌, ◌≤◌, ◌<◌, true, false, List, [], ◌∷◌, none, some, arith, ap, ◌∙◌, All, ite, inl, inr,
  Bool-cases,
}
use imagelet.StaleCache.{Entry, Cache, Policy, Fetched, is_ok, is_fail, answer, call}
use imagelet.StaleCache.Invariant.{IsValid}
use imagelet.StaleCache.Answers.{held}
use imagelet.StaleCache.Refinement.{after_call, after, call-after}
use imagelet.StaleCache.Sequences.{call-IsValid, call_fresh, held-call}

-- a call: its key, its time, and what the upstream would say
pub record Call (K R E : Type 0) : Type 0 where
  pub key : K
  pub now : ℕ
  pub answer : Fetched R E

module _ {K R E : Type 0} (dec : Discrete K) (policy : Policy R E) where
  -- the cache after these calls
  unfoldable pub calls : List (Call K R E) → Cache K R E → Cache K R E
  calls [] c = c
  calls (x ∷ xs) c = calls xs (call dec policy x.key x.now x.answer c).0

  -- all of them before some time
  abbrev pub AllBefore : ℕ → List (Call K R E) → Type 0
  AllBefore deadline xs = All (λ x. x.now < deadline) xs

  after_call_fresh :
      (now : ℕ) (f : Fetched R E) (e : Entry R E)
      → now < e.deadline
      → (after_call dec policy now (some e) f).0 ≡ some e
  unfolding answer
  after_call_fresh now f e h = elim (Bool-cases (is_ok e.state)) [
    | inl o ↦ ground arith
    | inr o ↦ ground arith
  ]

  ite_yes : {A : Type 0} (k j : K) (a b : A) → k ≡ j → ite (dec k j) a b ≡ a
  ite_yes k j a b e = ground arith

  held-call_before :
      (key : K) (x : Call K R E) (e : Entry R E) {c : Cache K R E}
      → IsValid dec policy c
      → held dec policy key c ≡ some e
      → x.now < e.deadline
      → held dec policy key (call dec policy x.key x.now x.answer c).0 ≡ some e
  held-call_before key x e {c} i h fresh =
      let (kept, y, z) = call-after dec policy x.key key x.now x.answer i in
      elim (dec x.key key) [
        | yes same ↦
            let spec =
              ap (λ o. (after_call dec policy x.now o x.answer).0)
                (ap (λ k. held dec policy k c) same ∙ h)
              ∙ after_call_fresh x.now x.answer e fresh in
            kept ∙ ite_yes x.key key _ _ same ∙ spec
        | no other ↦ ground (arith, kept, h)
      ]

  pub held-calls :
      (key : K) (xs : List (Call K R E)) (e : Entry R E) {c : Cache K R E}
      → IsValid dec policy c
      → held dec policy key c ≡ some e
      → AllBefore e.deadline xs
      → IsValid dec policy (calls xs c) × (held dec policy key (calls xs c) ≡ some e)
  unfolding calls
  held-calls key [] e i h b = (i, h)
  held-calls key (x ∷ xs) e i h b =
      held-calls key xs e (call-IsValid dec policy x.key x.now x.answer i)
        (held-call_before key x e i h b.0) b.1

  -- Stale-serve: after a success has expired, an error that is cached as a failure is returned with
  -- the old records. Until the failure TTL has passed, every call for the key returns the same
  -- records without an error, whatever calls came in between.
  pub call_fail-calls :
      (key : K) (now later : ℕ) (err : E) (g : Fetched R E) (e : Entry R E)
      (between : List (Call K R E)) {c : Cache K R E}
      → IsValid dec policy c
      → held dec policy key c ≡ some e
      → is_ok e.state ≡ true
      → e.deadline ≤ now
      → policy.passes err ≡ false
      → is_fail (policy.classify err) ≡ true
      → AllBefore (now + policy.failure_ttl) between
      → later < now + policy.failure_ttl
      → ((call dec policy key now (Fetched.fail err) c).1 ≡ e.records)
        × ((call dec policy key now (Fetched.fail err) c).2 ≡ some err)
        × ((call dec policy key later g
              (calls between (call dec policy key now (Fetched.fail err) c).0)).1
            ≡ e.records)
        × ((call dec policy key later g
              (calls between (call dec policy key now (Fetched.fail err) c).0)).2
            ≡ none)
  unfolding answer
  call_fail-calls key now later err g e between {c} i h o old p f before fresh =
      let (x, y, z) = held-call dec policy key now (Fetched.fail err) i (λ e' h'. ground arith) in
      let e' : Entry R E = record e { deadline = now + policy.failure_ttl; err = some err } in
      let q : after dec policy now (held dec policy key c) (Fetched.fail err)
          ≡ (some e', e.records, some err) =
        ground arith in
      let (j, kept) =
        held-calls key between e' (call-IsValid dec policy key now (Fetched.fail err) i)
          (x ∙ ap (λ o. o.0) q) before in
      let (a, b) =
        call_fresh dec policy key later g e' e.records none j kept fresh (ground arith) in
      (y ∙ ap (λ o. o.1) q, z ∙ ap (λ o. o.2) q, a, b)
