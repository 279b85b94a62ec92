-- ===== src/QuoteCache/Later.antt =====
-- service/stock/quote/cached/cached.go: any number of calls, for any symbols, before the entry of a
-- symbol expires.
use imagelet.Base.{
  ℕ, ◌+◌, ◌≡◌, ◌≤◌, ◌<◌, true, List, [], ◌∷◌, Option, none, some, arith, ap, ◌∙◌, inl, inr,
  Option-cases, Bool-cases, All, ltb, ◌≢◌,
}
use imagelet.Base.Assoc.{lookup, lookup-insert}
use imagelet.Base.Text.{Text, Text-discrete}
use imagelet.QuoteCache.{Entry, Provider, Fetched, write, new_with_ttl, publish, start, finish, get}
use imagelet.QuoteCache.Refresh.{held, get-held, get_fail, held-get_fail}

-- a call: its symbol, its time, and what the inner provider would say
pub record Call (Q E : Type 0) : Type 0 where
  pub symbol : Text
  pub now : ℕ
  pub answer : Fetched Q E

module _ {Q E : Type 0} (blank : Q) where
  -- Entries are in use, and no two symbols share one.
  pub record IsValid (p : Provider Q E) : Type 0 where
    pub allocated : (s : Text) (a : ℕ) → lookup Text-discrete s p.entries ≡ some a → a < p.next
    pub unshared :
        (s t : Text) (a : ℕ)
        → lookup Text-discrete s p.entries ≡ some a
        → lookup Text-discrete t p.entries ≡ some a
        → s ≡ t

  pub new_with_ttl-IsValid : (success failure : ℕ) → IsValid (new_with_ttl blank success failure)
  unfolding new_with_ttl lookup
  new_with_ttl-IsValid success failure = record {
    allocated = λ s a h. ground arith;
    unshared = λ s t a h k. ground arith;
  }

  publish-IsValid :
      (symbol : Text) (e : Entry Q E) {p : Provider Q E}
      → IsValid p
      → IsValid (publish blank symbol e p)
  unfolding publish
  publish-IsValid symbol e {p} i = record {
    allocated = λ s a h.
        ground (arith, lookup-insert Text-discrete symbol s p.next p.entries, i.allocated s a);
    unshared = λ s t a h k. ground (
      arith,
      lookup-insert Text-discrete symbol s p.next p.entries,
      lookup-insert Text-discrete symbol t p.next p.entries,
      i.allocated s a,
      i.allocated t a,
      i.unshared s t a,
    );
  }

  written-IsValid :
      (a : ℕ) (e : Entry Q E) {p : Provider Q E}
      → IsValid p
      → IsValid (record p { heap = write a e p.heap })
  written-IsValid a e i = record { allocated = i.allocated; unshared = i.unshared }

  finish-IsValid :
      (symbol : Text) (now : ℕ) (o : Option ℕ) (f : Fetched Q E) {p : Provider Q E}
      → IsValid p
      → IsValid (finish blank symbol now o f p).0
  unfolding finish
  finish-IsValid symbol now o (Fetched.ok q) i = publish-IsValid symbol _ i
  finish-IsValid symbol now none (Fetched.fail err) i = publish-IsValid symbol _ i
  finish-IsValid symbol now (some a) (Fetched.fail err) {p} i =
      elim (Bool-cases (p.heap a).has_quote) [
        | inl h ↦ rw (h, finish) (written-IsValid a _ i)
        | inr h ↦ rw (h, finish) (publish-IsValid symbol _ i)
      ]

  pub get-IsValid :
      (symbol : Text) (now : ℕ) (f : Fetched Q E) {p : Provider Q E}
      → IsValid p
      → IsValid (get blank symbol now f p).0
  unfolding get start
  get-IsValid symbol now f {p} i = elim (Option-cases (lookup Text-discrete symbol p.entries)) [
    | inl n ↦ rw (n, get, start) (finish-IsValid symbol now none f i)
    | inr (a, s) ↦ elim (Bool-cases (ltb now (p.heap a).deadline)) [
      | inl fresh ↦ elim (Bool-cases (p.heap a).has_quote) [
        | inl h ↦ rw (s, fresh, h, get, start) i
        | inr h ↦ rw (s, fresh, h, get, start) i
      ]
      | inr stale ↦ rw (s, stale, get, start) (finish-IsValid symbol now (some a) f i)
    ]
  ]

  held-publish_other :
      (symbol other : Text) (x e : Entry Q E) {p : Provider Q E}
      → IsValid p
      → symbol ≢ other
      → held blank other p ≡ some e
      → held blank other (publish blank symbol x p) ≡ some e
  unfolding publish
  held-publish_other symbol other x e {p} i ne h =
      elim (Option-cases (lookup Text-discrete other p.entries)) [
        | inl n ↦ absurd (ground arith)
        | inr (b, s) ↦ ground (
          arith,
          lookup-insert Text-discrete symbol other p.next p.entries,
          i.allocated other b s,
        )
      ]

  held-written :
      (symbol other : Text) (a : ℕ) (x e : Entry Q E) {p : Provider Q E}
      → IsValid p
      → symbol ≢ other
      → lookup Text-discrete symbol p.entries ≡ some a
      → held blank other p ≡ some e
      → held blank other (record p { heap = write a x p.heap }) ≡ some e
  held-written symbol other a x e {p} i ne s h =
      elim (Option-cases (lookup Text-discrete other p.entries)) [
        | inl n ↦ absurd (ground arith)
        | inr (b, t) ↦ ground (arith, i.unshared symbol other a s)
      ]

  finish_other :
      (symbol other : Text) (now : ℕ) (f : Fetched Q E) (e : Entry Q E) (o : Option ℕ)
      {p : Provider Q E}
      → IsValid p
      → symbol ≢ other
      → lookup Text-discrete symbol p.entries ≡ o
      → held blank other p ≡ some e
      → held blank other (finish blank symbol now o f p).0 ≡ some e
  unfolding finish
  finish_other symbol other now (Fetched.ok q) e o i ne s h =
      held-publish_other symbol other _ e i ne h
  finish_other symbol other now (Fetched.fail err) e none i ne s h =
      held-publish_other symbol other _ e i ne h
  finish_other symbol other now (Fetched.fail err) e (some a) {p} i ne s h =
      elim (Bool-cases (p.heap a).has_quote) [
        | inl q ↦ rw (q, finish) (held-written symbol other a _ e i ne s h)
        | inr q ↦ rw (q, finish) (held-publish_other symbol other _ e i ne h)
      ]

  get_other :
      (symbol other : Text) (now : ℕ) (f : Fetched Q E) (e : Entry Q E) {p : Provider Q E}
      → IsValid p
      → symbol ≢ other
      → held blank other p ≡ some e
      → held blank other (get blank symbol now f p).0 ≡ some e
  unfolding get start
  get_other symbol other now f e {p} i ne h =
      elim (Option-cases (lookup Text-discrete symbol p.entries)) [
        | inl n ↦ rw (n, get, start) (finish_other symbol other now f e none i ne n h)
        | inr (a, s) ↦ elim (Bool-cases (ltb now (p.heap a).deadline)) [
          | inl fresh ↦ elim (Bool-cases (p.heap a).has_quote) [
            | inl q ↦ rw (s, fresh, q, get, start) h
            | inr q ↦ rw (s, fresh, q, get, start) h
          ]
          | inr stale ↦
              rw (s, stale, get, start) (finish_other symbol other now f e (some a) i ne s h)
        ]
      ]

  -- the provider after these calls
  unfoldable pub gets : List (Call Q E) → Provider Q E → Provider Q E
  gets [] p = p
  gets (x ∷ xs) p = gets xs (get blank x.symbol x.now x.answer p).0

  get_same :
      (symbol : Text) (now : ℕ) (f : Fetched Q E) (e : Entry Q E) (p : Provider Q E)
      → held blank symbol p ≡ some e
      → now < e.deadline
      → (get blank symbol now f p).0 ≡ p
  get_same symbol now f e p h fresh = ground (arith, get-held blank symbol now f e p h fresh)

  held-get :
      (symbol : Text) (x : Call Q E) (e : Entry Q E) {p : Provider Q E}
      → IsValid p
      → held blank symbol p ≡ some e
      → x.now < e.deadline
      → held blank symbol (get blank x.symbol x.now x.answer p).0 ≡ some e
  held-get symbol x e {p} i h fresh = elim (Text-discrete x.symbol symbol) [
    | yes same ↦
        ap (held blank symbol)
          (get_same x.symbol x.now x.answer e p (ap (λ s. held blank s p) same ∙ h) fresh)
        ∙ h
    | no other ↦ get_other x.symbol symbol x.now x.answer e i other h
  ]

  pub held-gets :
      (symbol : Text) (xs : List (Call Q E)) (e : Entry Q E) {p : Provider Q E}
      → IsValid p
      → held blank symbol p ≡ some e
      → All (λ x. x.now < e.deadline) xs
      → held blank symbol (gets xs p) ≡ some e
  unfolding gets
  held-gets symbol [] e i h b = h
  held-gets symbol (x ∷ xs) e i h b =
      held-gets symbol xs e (get-IsValid x.symbol x.now x.answer i) (held-get symbol x e i h b.0)
        b.1

  -- On a valid provider, when a held quote has expired and its refresh fails, the old quote is
  -- returned with the error, once: until the failure TTL has passed, every call for the symbol
  -- returns it without an error, whatever calls for this and other symbols came in between.
  pub gets_fail :
      (symbol : Text) (now later : ℕ) (err : E) (g : Fetched Q E) (e : Entry Q E)
      (between : List (Call Q E)) (p : Provider Q E)
      → IsValid p
      → held blank symbol p ≡ some e
      → e.has_quote ≡ true
      → e.deadline ≤ now
      → All (λ x. x.now < now + p.failure_ttl) between
      → later < now + p.failure_ttl
      → ((get blank symbol now (Fetched.fail err) p).1 ≡ e.quote)
        × ((get blank symbol now (Fetched.fail err) p).2 ≡ some err)
        × ((get blank symbol later g (gets between (get blank symbol now (Fetched.fail err) p).0)).1
            ≡ e.quote)
        × ((get blank symbol later g (gets between (get blank symbol now (Fetched.fail err) p).0)).2
            ≡ none)
  gets_fail symbol now later err g e between p i h has old before fresh =
      let (q, x, y, z) = get_fail blank symbol now later err g e p h has old fresh in
      let e' : Entry Q E = record e { deadline = now + p.failure_ttl; err = some err } in
      let kept =
        held-gets symbol between e' (get-IsValid symbol now (Fetched.fail err) i)
          (held-get_fail blank symbol now err e p h has old) before in
      let at =
        get-held blank symbol later g e'
          (gets between (get blank symbol now (Fetched.fail err) p).0) kept fresh in
      (q, x, ground (arith, at), ground (arith, at))
