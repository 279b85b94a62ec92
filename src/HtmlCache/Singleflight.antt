-- ===== src/HtmlCache/Singleflight.antt =====
-- internal/htmlcache/htmlcache.go: each step keeps the channels in order.
use imagelet.Base.{
  ℕ, ◌≡◌, ◌≢◌, ◌<◌, ◌+◌, ◌⊎◌, refl, ap, sym, ◌∙◌, true, false, Option, none, some, ◌==◌, ite,
  is_some, arith, inl, inr, Bool-cases, Option-cases,
}
use imagelet.Base.Assoc
use imagelet.Base.Assoc.{lookup-insert, lookup-delete}
use imagelet.HtmlCache.{Cache, lookup, store, acquire_flight, release_flight}
use imagelet.HtmlCache.Flight.{
  Phase, idle, missed, waiting, leading, storing, closing, alone, finished, Machine, update,
  Rendered, on_request, on_acquire, on_wake, keep, on_render, on_release, on_close, on_alone, leads,
}

module _ {K : Type 0} (dec : Discrete K) where
  -- a request is about to close the channel
  abbrev pub WillClose : Machine K → ℕ → Type 0
  WillClose m ch = (j : ℕ) × (m.phase j ≡ closing (some ch))

  -- a channel that is closed, in flight for the key, or about to be closed
  abbrev pub IsServed : Machine K → K → ℕ → Type 0
  IsServed m key ch =
      (m.closed ch ≡ true) ⊎ (Assoc.lookup dec key m.cache.flight ≡ some ch) ⊎ WillClose m ch

  pub record IsOrderly (m : Machine K) : Type 0 where
    -- at most one leader for a key
    pub unique :
        (i j : ℕ) (key : K)
        → leads dec (m.phase i) key ≡ true
        → leads dec (m.phase j) key ≡ true
        → i ≡ j
    -- a leader's key has a channel, and a key with a channel has a leader
    pub owned :
        (i : ℕ) (key : K)
        → leads dec (m.phase i) key ≡ true
        → is_some (Assoc.lookup dec key m.cache.flight) ≡ true
    pub led :
        (key : K) (ch : ℕ)
        → Assoc.lookup dec key m.cache.flight ≡ some ch
        → (i : ℕ) × (leads dec (m.phase i) key ≡ true)
    -- a channel that is waited for is closed, belongs to the key's leader, or is being closed
    pub waited : (i : ℕ) (key : K) (ch : ℕ) → m.phase i ≡ waiting key ch → IsServed m key ch
    -- channels are not shared, and one that is in flight is open
    pub below : (key : K) (ch : ℕ) → Assoc.lookup dec key m.cache.flight ≡ some ch → ch < m.fresh
    pub closed_below : (ch : ℕ) → m.closed ch ≡ true → ch < m.fresh
    pub apart :
        (key key' : K) (ch : ℕ)
        → Assoc.lookup dec key m.cache.flight ≡ some ch
        → Assoc.lookup dec key' m.cache.flight ≡ some ch
        → key ≡ key'
    pub open_in_flight :
        (key : K) (ch : ℕ) → Assoc.lookup dec key m.cache.flight ≡ some ch → m.closed ch ≡ false
    -- a channel that is being closed is open, no longer in flight, and closed by one request
    pub closing_below : (i ch : ℕ) → m.phase i ≡ closing (some ch) → ch < m.fresh
    pub closing_open : (i ch : ℕ) → m.phase i ≡ closing (some ch) → m.closed ch ≡ false
    pub closing_once :
        (i j ch : ℕ) → m.phase i ≡ closing (some ch) → m.phase j ≡ closing (some ch) → i ≡ j
    pub closing_gone :
        (i ch : ℕ) (key : K)
        → m.phase i ≡ closing (some ch)
        → Assoc.lookup dec key m.cache.flight ≢ some ch

  -- a step that leaves the channels alone, by a request that waits for none in vain, leads what it
  -- led, and closes none
  quiet :
      (m : Machine K) (i : ℕ) (p : Phase K) (c : Cache K)
      → c.flight ≡ m.cache.flight
      → ((key : K) → leads dec p key ≡ leads dec (m.phase i) key)
      → ((n : Option ℕ) → (p ≢ closing n) × (m.phase i ≢ closing n))
      → ((key : K) (ch : ℕ) → p ≡ waiting key ch → IsServed m key ch)
      → IsOrderly m
      → IsOrderly (record m { cache = c; phase = update i p m.phase })
  quiet m i p c same role idler awake o = record {
    unique = λ j k key h h'. o.unique j k key (sym (at j key) ∙ h) (sym (at k key) ∙ h');
    owned = λ j key h. rw same (o.owned j key (sym (at j key) ∙ h));
    led = λ key ch h. let (x, l) = o.led key ch (rw (← same) h) in (x, at x key ∙ l);
    waited = λ j key ch h. still key ch (awaited j key ch h);
    below = λ key ch h. o.below key ch (rw (← same) h);
    closed_below = o.closed_below;
    apart = λ key key' ch h h'. o.apart key key' ch (rw (← same) h) (rw (← same) h');
    open_in_flight = λ key ch h. o.open_in_flight key ch (rw (← same) h);
    closing_below = λ j ch h. o.closing_below j ch (back j ch h);
    closing_open = λ j ch h. o.closing_open j ch (back j ch h);
    closing_once = λ j k ch h h'. o.closing_once j k ch (back j ch h) (back k ch h');
    closing_gone = λ j ch key h f. o.closing_gone j ch key (back j ch h) (rw (← same) f);
  }
    where
      at : (j : ℕ) (key : K) → leads dec (update i p m.phase j) key ≡ leads dec (m.phase j) key
      at j key = elim (Bool-cases (j == i)) [
        | inr other ↦ rw other
        | inl here' ↦ let e : j ≡ i = ground arith in rw (here', e) (role key)
      ]

      back : (j ch : ℕ) → update i p m.phase j ≡ closing (some ch) → m.phase j ≡ closing (some ch)
      back j ch h = elim (Bool-cases (j == i)) [
        | inr other ↦ rw other at h
        | inl here' ↦ absurd ((idler (some ch)).0 (rw here' at h))
      ]

      awaited :
          (j : ℕ) (key : K) (ch : ℕ) → update i p m.phase j ≡ waiting key ch → IsServed m key ch
      awaited j key ch h = elim (Bool-cases (j == i)) [
        | inr other ↦ o.waited j key ch (rw other at h)
        | inl here' ↦ awake key ch (rw here' at h)
      ]

      still :
          (key : K) (ch : ℕ)
          → IsServed m key ch
          → IsServed (record m { cache = c; phase = update i p m.phase }) key ch
      still key ch (inl shut) = inl shut
      still key ch (inr (inl found)) = inr (inl (rw same found))
      still key ch (inr (inr (j, e))) = elim (Bool-cases (j == i)) [
        | inr other ↦ inr (inr (j, rw other e))
        | inl here' ↦
            let q : j ≡ i = ground arith in absurd ((idler (some ch)).1 (sym (ap m.phase q) ∙ e))
      ]

  lookup-flight : (key : K) (now : ℕ) (c : Cache K) → (lookup dec key now c).0.flight ≡ c.flight
  unfolding lookup
  lookup-flight key now c = ground arith

  keep-flight :
      (key : K) (now : ℕ) (r : Rendered) (c : Cache K) → (keep dec key now r c).flight ≡ c.flight
  unfolding keep store
  keep-flight key now r c = ground arith

  pub request-IsOrderly :
      (i : ℕ) (key : K) (now : ℕ) (m : Machine K)
      → m.phase i ≡ idle
      → IsOrderly m
      → IsOrderly (on_request dec i key now m)
  unfolding on_request
  request-IsOrderly i key now m e o = elim (Option-cases (lookup dec key now m.cache).1) [
    | inl miss ↦
        rw (miss, on_request)
          (quiet m i (missed key now) _ (lookup-flight key now m.cache) (λ k. rw e)
            (λ n. (λ z. cc, λ z. cc)) (λ k ch z. cc) o)
    | inr (x, hit) ↦
        rw (hit, on_request)
          (quiet m i finished _ (lookup-flight key now m.cache) (λ k. rw e)
            (λ n. (λ z. cc, λ z. cc)) (λ k ch z. cc) o)
  ]

  pub wake-IsOrderly :
      (i : ℕ) (key : K) (ch now : ℕ) (m : Machine K)
      → m.phase i ≡ waiting key ch
      → IsOrderly m
      → IsOrderly (on_wake dec i key now m)
  unfolding on_wake
  wake-IsOrderly i key ch now m e o = elim (Option-cases (lookup dec key now m.cache).1) [
    | inl miss ↦
        rw (miss, on_wake)
          (quiet m i (alone key) _ (lookup-flight key now m.cache) (λ k. rw e)
            (λ n. (λ z. cc, λ z. cc)) (λ k ch z. cc) o)
    | inr (x, hit) ↦
        rw (hit, on_wake)
          (quiet m i finished _ (lookup-flight key now m.cache) (λ k. rw e)
            (λ n. (λ z. cc, λ z. cc)) (λ k ch z. cc) o)
  ]

  pub render-IsOrderly :
      (i : ℕ) (key : K) (now : ℕ) (r : Rendered) (m : Machine K)
      → m.phase i ≡ leading key now
      → IsOrderly m
      → IsOrderly (on_render dec i key now r m)
  unfolding on_render
  render-IsOrderly i key now r m e o =
      quiet m i (storing key) _ (keep-flight key now r m.cache) (λ k. rw e)
        (λ n. (λ z. cc, λ z. cc)) (λ k ch z. cc) o

  pub alone-IsOrderly :
      (i : ℕ) (key : K) (m : Machine K)
      → m.phase i ≡ alone key
      → IsOrderly m
      → IsOrderly (on_alone dec i m)
  unfolding on_alone
  alone-IsOrderly i key m e o =
      quiet m i finished m.cache refl (λ k. rw e) (λ n. (λ z. cc, λ z. cc)) (λ k ch z. cc) o

  follow-IsOrderly :
      (i : ℕ) (key : K) (now ch : ℕ) (m : Machine K)
      → m.phase i ≡ missed key now
      → Assoc.lookup dec key m.cache.flight ≡ some ch
      → IsOrderly m
      → IsOrderly (record m { phase = update i (waiting key ch) m.phase })
  follow-IsOrderly i key now ch m e h o =
      quiet m i (waiting key ch) m.cache refl (λ k. rw e) (λ n. (λ z. cc, λ z. cc))
        (λ k n z. inr (inl cc)) o

  -- the slot is free: the request takes it
  lead-IsOrderly :
      (i : ℕ) (key : K) (now : ℕ) (m : Machine K)
      → m.phase i ≡ missed key now
      → Assoc.lookup dec key m.cache.flight ≡ none
      → IsOrderly m
      → IsOrderly (record m {
        cache = record m.cache { flight = Assoc.insert dec key m.fresh m.cache.flight };
        fresh = m.fresh + 1;
        phase = update i (leading key now) m.phase;
      })
  lead-IsOrderly i key now m e free o = record {
    unique = λ j k q h h'. ground (arith, o.unique j k q, nobody j, nobody k);
    owned = λ j q h. ground (arith, o.owned j q, after q);
    led = λ q ch h. elim (dec key q) [
      | yes same ↦ (i, ground arith)
      | no other ↦ let (x, l) = o.led q ch (ground (arith, after q)) in (x, ground arith)
    ];
    waited = λ j q ch h. elim (o.waited j q ch (ground arith)) [
      | inl shut ↦ inl shut
      | inr (inl found) ↦ inr (inl (ground (arith, after q)))
      | inr (inr (k, z)) ↦ inr (inr (k, ground arith))
    ];
    closing_below = λ j ch h. ground (arith, o.closing_below j ch);
    closing_open = λ j ch h. ground (arith, o.closing_open j ch);
    closing_once = λ j k ch h h'. ground (arith, o.closing_once j k ch);
    closing_gone =
        λ j ch q h f. ground (arith, o.closing_gone j ch q, o.closing_below j ch, after q);
    below = λ q ch h. ground (arith, o.below q ch, after q);
    closed_below = λ ch h. omega (arith, o.closed_below ch h);
    apart = λ q q' ch h h'.
        ground (arith, o.apart q q' ch, o.below q ch, o.below q' ch, after q, after q');
    open_in_flight = λ q ch h. ground (arith, o.open_in_flight q ch, o.closed_below ch, after q);
  }
    where
      after :
          (q : K)
          → Assoc.lookup dec q (Assoc.insert dec key m.fresh m.cache.flight)
            ≡ ite (dec key q) (some m.fresh) (Assoc.lookup dec q m.cache.flight)
      after q = lookup-insert dec key q m.fresh m.cache.flight

      nobody : (j : ℕ) → leads dec (m.phase j) key ≡ false
      nobody j = ground (arith, o.owned j key)

  pub acquire-IsOrderly :
      (i : ℕ) (key : K) (now : ℕ) (m : Machine K)
      → m.phase i ≡ missed key now
      → IsOrderly m
      → IsOrderly (on_acquire dec i key now m)
  unfolding on_acquire acquire_flight
  acquire-IsOrderly i key now m e o = elim (Option-cases (Assoc.lookup dec key m.cache.flight)) [
    | inl free ↦ rw (free, on_acquire, acquire_flight) (lead-IsOrderly i key now m e free o)
    | inr (ch, taken) ↦
        rw (taken, on_acquire, acquire_flight) (follow-IsOrderly i key now ch m e taken o)
  ]

  -- the leader gives its slot back
  give-IsOrderly :
      (i : ℕ) (key : K) (n : ℕ) (m : Machine K)
      → ((q : K) → leads dec (m.phase i) q ≡ ite (dec key q) true false)
      → ((ch : Option ℕ) → m.phase i ≢ closing ch)
      → Assoc.lookup dec key m.cache.flight ≡ some n
      → IsOrderly m
      → IsOrderly (record m {
        cache = record m.cache { flight = Assoc.delete dec key m.cache.flight };
        phase = update i (closing (some n)) m.phase;
      })
  give-IsOrderly i key n m role idler mine o = record {
    unique = λ j k q h h'. ground (arith, o.unique j k q);
    owned = λ j q h. ground (arith, o.owned j q, o.unique j i key, role key, after q);
    led = λ q ch h.
        let (x, l) = o.led q ch (ground (arith, after q)) in (x, ground (arith, role q, after q));
    waited = λ j q ch h. elim (o.waited j q ch (ground arith)) [
      | inl shut ↦ inl shut
      | inr (inl found) ↦ elim (dec key q) [
        | yes same ↦ inr (inr (i, ground arith))
        | no other ↦ inr (inl (ground (arith, after q)))
      ]
      | inr (inr (k, z)) ↦ inr (inr (k, ground (arith, idler (some ch))))
    ];
    below = λ q ch h. ground (arith, o.below q ch, after q);
    closed_below = o.closed_below;
    apart = λ q q' ch h h'. ground (arith, o.apart q q' ch, after q, after q');
    open_in_flight = λ q ch h. ground (arith, o.open_in_flight q ch, after q);
    closing_below = λ j ch h. ground (arith, o.closing_below j ch, o.below key n);
    closing_open = λ j ch h. ground (arith, o.closing_open j ch, o.open_in_flight key n);
    closing_once = λ j k ch h h'.
        ground (arith, o.closing_once j k ch, o.closing_gone j ch key, o.closing_gone k ch key);
    closing_gone = λ j ch q h f. ground (arith, o.closing_gone j ch q, o.apart q key ch, after q);
  }
    where
      after :
          (q : K)
          → Assoc.lookup dec q (Assoc.delete dec key m.cache.flight)
            ≡ ite (dec key q) none (Assoc.lookup dec q m.cache.flight)
      after q = lookup-delete dec key q m.cache.flight

  pub release-IsOrderly :
      (i : ℕ) (key : K) (m : Machine K)
      → ((q : K) → leads dec (m.phase i) q ≡ ite (dec key q) true false)
      → ((ch : Option ℕ) → m.phase i ≢ closing ch)
      → IsOrderly m
      → IsOrderly (on_release dec i key m)
  unfolding on_release release_flight
  release-IsOrderly i key m role idler o =
      elim (Option-cases (Assoc.lookup dec key m.cache.flight)) [
        | inl z ↦ absurd (ground (arith, o.owned i key, role key))
        | inr (n, z) ↦ rw (z, on_release, release_flight) (give-IsOrderly i key n m role idler z o)
      ]

  -- the channel is closed
  shut-IsOrderly :
      (i n : ℕ) (m : Machine K)
      → m.phase i ≡ closing (some n)
      → IsOrderly m
      → IsOrderly (record m { closed = update n true m.closed; phase = update i finished m.phase })
  shut-IsOrderly i n m e o = record {
    unique = λ j k q h h'. ground (arith, o.unique j k q);
    owned = λ j q h. ground (arith, o.owned j q);
    led = λ q ch h. let (x, l) = o.led q ch h in (x, ground arith);
    waited = λ j q ch h. elim (o.waited j q ch (ground arith)) [
      | inl shut ↦ inl (ground arith)
      | inr (inl found) ↦ inr (inl found)
      | inr (inr (k, z)) ↦ elim (Bool-cases (k == i)) [
        | inl here' ↦ inl (ground arith)
        | inr other ↦ inr (inr (k, ground arith))
      ]
    ];
    below = o.below;
    closed_below = λ ch h. ground (arith, o.closed_below ch, o.closing_below i n);
    apart = o.apart;
    open_in_flight = λ q ch h. ground (arith, o.open_in_flight q ch, o.closing_gone i ch q);
    closing_below = λ j ch h. ground (arith, o.closing_below j ch);
    closing_open = λ j ch h. ground (arith, o.closing_open j ch, o.closing_once j i ch);
    closing_once = λ j k ch h h'. ground (arith, o.closing_once j k ch);
    closing_gone = λ j ch q h. o.closing_gone j ch q (ground arith);
  }

  -- A release always finds a channel, so this step of the code has nothing to close.
  none-IsOrderly :
      (i : ℕ) (m : Machine K)
      → m.phase i ≡ closing none
      → IsOrderly m
      → IsOrderly (record m { phase = update i finished m.phase })
  none-IsOrderly i m e o = record {
    unique = λ j k q h h'. ground (arith, o.unique j k q);
    owned = λ j q h. ground (arith, o.owned j q);
    led = λ q ch h. let (x, l) = o.led q ch h in (x, ground arith);
    waited = λ j q ch h. elim (o.waited j q ch (ground arith)) [
      | inl shut ↦ inl shut
      | inr (inl found) ↦ inr (inl found)
      | inr (inr (k, z)) ↦ inr (inr (k, ground arith))
    ];
    below = o.below;
    closed_below = o.closed_below;
    apart = o.apart;
    open_in_flight = o.open_in_flight;
    closing_below = λ j ch h. o.closing_below j ch (ground arith);
    closing_open = λ j ch h. o.closing_open j ch (ground arith);
    closing_once = λ j k ch h h'. o.closing_once j k ch (ground arith) (ground arith);
    closing_gone = λ j ch q h. o.closing_gone j ch q (ground arith);
  }

  pub close-IsOrderly :
      (i : ℕ) (ch : Option ℕ) (m : Machine K)
      → m.phase i ≡ closing ch
      → IsOrderly m
      → IsOrderly (on_close dec i ch m)
  unfolding on_close
  close-IsOrderly i none m e o = none-IsOrderly i m e o
  close-IsOrderly i (some n) m e o = shut-IsOrderly i n m e o
