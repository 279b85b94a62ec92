-- ===== src/QuoteCache/Refresh.antt =====
-- service/stock/quote/cached/cached.go: what a refresh leaves for later calls.
use imagelet.Base.{
  ℕ, ◌+◌, ◌≡◌, ◌≤◌, ◌<◌, true, false, Option, none, some, arith, refl, ap, ◌∙◌, inl, inr,
  Option-cases, if◌then◌else◌,
}
use imagelet.Base.Assoc.{lookup, lookup-insert}
use imagelet.Base.Text.{Text, Text-discrete}
use imagelet.QuoteCache.{Entry, Provider, Fetched, write, publish, start, finish, get}

module _ {Q E : Type 0} (blank : Q) where
  -- The entry of a symbol.
  abbrev pub entry_at : Option ℕ → Provider Q E → Option (Entry Q E)
  entry_at none p = none
  entry_at (some a) p = some (p.heap a)

  abbrev pub held : Text → Provider Q E → Option (Entry Q E)
  held symbol p = entry_at (lookup Text-discrete symbol p.entries) p

  -- Without a fresh entry.
  abbrev pub IsExpired : Text → ℕ → Provider Q E → Type 0
  IsExpired symbol now p = (e : Entry Q E) → held symbol p ≡ some e → e.deadline ≤ now

  pub get-held :
      (symbol : Text) (now : ℕ) (f : Fetched Q E) (e : Entry Q E) (p : Provider Q E)
      → held symbol p ≡ some e
      → now < e.deadline
      → get blank symbol now f p ≡ (if e.has_quote then (p, e.quote, none) else (p, blank, e.err))
  unfolding get start
  get-held symbol now f e p h fresh = elim (Option-cases (lookup Text-discrete symbol p.entries)) [
    | inl n ↦ absurd (ground arith)
    | inr (a, s) ↦ ground arith
  ]

  pub get_refresh :
      (symbol : Text) (now : ℕ) (f : Fetched Q E) (p : Provider Q E)
      → IsExpired symbol now p
      → get blank symbol now f p
        ≡ finish blank symbol now (lookup Text-discrete symbol p.entries) f p
  unfolding get start
  get_refresh symbol now f p stale = elim (Option-cases (lookup Text-discrete symbol p.entries)) [
    | inl n ↦ rw (n, get, start) refl
    | inr (a, s) ↦ ground (arith, stale (p.heap a))
  ]

  -- the entry that a new allocation leaves
  held-publish :
      (symbol : Text) (e : Entry Q E) (p : Provider Q E)
      → held symbol (publish blank symbol e p) ≡ some e
  unfolding publish
  held-publish symbol e p =
      ground (arith, lookup-insert Text-discrete symbol symbol p.next p.entries)

  -- Where a symbol has no fresh entry, a fetched quote answers every call for its symbol until the
  -- success TTL has passed, without an error and whatever the inner provider would say.
  pub get_ok :
      (symbol : Text) (now later : ℕ) (q : Q) (g : Fetched Q E) (p : Provider Q E)
      → IsExpired symbol now p
      → later < now + p.success_ttl
      → ((get blank symbol later g (get blank symbol now (Fetched.ok q) p).0).1 ≡ q)
        × ((get blank symbol later g (get blank symbol now (Fetched.ok q) p).0).2 ≡ none)
  unfolding finish
  get_ok symbol now later q g p stale fresh =
      let h =
        held-publish symbol
          (record { quote = q; err = none; deadline = now + p.success_ttl; has_quote = true }) p in
      rw (get_refresh symbol now (Fetched.ok q) p stale)
        (rw (get-held symbol later g _ _ h fresh) (refl, refl))

  -- what a failed refresh leaves behind a pointer
  abbrev stale_of : ℕ → E → ℕ → Provider Q E → Provider Q E
  stale_of now err a p = record p {
    heap = write a (record (p.heap a) { deadline = now + p.failure_ttl; err = some err }) p.heap;
  }

  pub finish_stale :
      (symbol : Text) (now : ℕ) (err : E) (a : ℕ) (p : Provider Q E)
      → (p.heap a).has_quote ≡ true
      → finish blank symbol now (some a) (Fetched.fail err) p
        ≡ (stale_of now err a p, (p.heap a).quote, some err)
  unfolding finish
  finish_stale symbol now err a p h = rw (h, finish) refl

  finish_error :
      (symbol : Text) (now : ℕ) (err : E) (o : Option ℕ) (p : Provider Q E)
      → ((e : Entry Q E) → entry_at o p ≡ some e → e.has_quote ≡ false)
      → finish blank symbol now o (Fetched.fail err) p ≡ (
        publish blank symbol
            (record {
              quote = blank;
              err = some err;
              deadline = now + p.failure_ttl;
              has_quote = false;
            })
            p,
        blank,
        some err,
      )
  unfolding finish
  finish_error symbol now err none p h = refl
  finish_error symbol now err (some a) p h = rw (h (p.heap a) refl, finish) refl

  get_fail_at :
      (symbol : Text) (now later : ℕ) (err : E) (g : Fetched Q E) (a : ℕ) (p : Provider Q E)
      → lookup Text-discrete symbol p.entries ≡ some a
      → (p.heap a).has_quote ≡ true
      → (p.heap a).deadline ≤ now
      → later < now + p.failure_ttl
      → ((get blank symbol now (Fetched.fail err) p).1 ≡ (p.heap a).quote)
        × ((get blank symbol now (Fetched.fail err) p).2 ≡ some err)
        × ((get blank symbol later g (get blank symbol now (Fetched.fail err) p).0).1
            ≡ (p.heap a).quote)
        × ((get blank symbol later g (get blank symbol now (Fetched.fail err) p).0).2 ≡ none)
  get_fail_at symbol now later err g a p s has old fresh =
      let out =
        get_refresh symbol now (Fetched.fail err) p (λ e' h'. ground arith)
        ∙ ap (λ o. finish blank symbol now o (Fetched.fail err) p) s
        ∙ finish_stale symbol now err a p has in
      let e' = record (p.heap a) { deadline = now + p.failure_ttl; err = some err } in
      let x : held symbol (stale_of now err a p) ≡ some e' = ground arith in
      let y = get-held symbol later g e' (stale_of now err a p) x fresh in
      rw (out) (refl, refl, ground arith, ground arith)

  -- the entry that a failed refresh leaves
  pub held-get_fail :
      (symbol : Text) (now : ℕ) (err : E) (e : Entry Q E) (p : Provider Q E)
      → held symbol p ≡ some e
      → e.has_quote ≡ true
      → e.deadline ≤ now
      → held symbol (get blank symbol now (Fetched.fail err) p).0
        ≡ some (record e { deadline = now + p.failure_ttl; err = some err })
  held-get_fail symbol now err e p h has old =
      elim (Option-cases (lookup Text-discrete symbol p.entries)) [
        | inl n ↦ absurd (ground arith)
        | inr (a, s) ↦
            let same : e ≡ p.heap a = ground arith in
            let out =
              get_refresh symbol now (Fetched.fail err) p (λ x k. ground arith)
              ∙ ap (λ o. finish blank symbol now o (Fetched.fail err) p) s
              ∙ finish_stale symbol now err a p (ground arith) in
            rw (out) (ground (arith, same))
      ]

  -- When a held quote has expired and its refresh fails, the old quote is returned with the error,
  -- once: until the failure TTL has passed, later calls return it without an error.
  pub get_fail :
      (symbol : Text) (now later : ℕ) (err : E) (g : Fetched Q E) (e : Entry Q E) (p : Provider Q E)
      → held symbol p ≡ some e
      → e.has_quote ≡ true
      → e.deadline ≤ now
      → later < now + p.failure_ttl
      → ((get blank symbol now (Fetched.fail err) p).1 ≡ e.quote)
        × ((get blank symbol now (Fetched.fail err) p).2 ≡ some err)
        × ((get blank symbol later g (get blank symbol now (Fetched.fail err) p).0).1 ≡ e.quote)
        × ((get blank symbol later g (get blank symbol now (Fetched.fail err) p).0).2 ≡ none)
  get_fail symbol now later err g e p h has old fresh =
      elim (Option-cases (lookup Text-discrete symbol p.entries)) [
        | inl n ↦ absurd (ground arith)
        | inr (a, s) ↦
            let same : e ≡ p.heap a = ground arith in
            rw (same) (get_fail_at symbol now later err g a p s (ground arith) (ground arith) fresh)
      ]

  -- Where a symbol has no fresh entry and no quote is held, a failed refresh returns the zero
  -- quote and the error, then and in every call until the failure TTL has passed.
  pub get_error :
      (symbol : Text) (now later : ℕ) (err : E) (g : Fetched Q E) (p : Provider Q E)
      → IsExpired symbol now p
      → ((e : Entry Q E) → held symbol p ≡ some e → e.has_quote ≡ false)
      → later < now + p.failure_ttl
      → ((get blank symbol now (Fetched.fail err) p).1 ≡ blank)
        × ((get blank symbol now (Fetched.fail err) p).2 ≡ some err)
        × ((get blank symbol later g (get blank symbol now (Fetched.fail err) p).0).1 ≡ blank)
        × ((get blank symbol later g (get blank symbol now (Fetched.fail err) p).0).2 ≡ some err)
  unfolding finish
  get_error symbol now later err g p stale none_held fresh =
      let e : Entry Q E = record {
        quote = blank;
        err = some err;
        deadline = now + p.failure_ttl;
        has_quote = false;
      } in
      let out =
        get_refresh symbol now (Fetched.fail err) p stale
        ∙ finish_error symbol now err (lookup Text-discrete symbol p.entries) p none_held in
      let y =
        get-held symbol later g e (publish blank symbol e p) (held-publish symbol e p)
          (unfold publish in fresh) in
      rw (out) (refl, refl, ap (λ o. o.1) y, ap (λ o. o.2) y)
