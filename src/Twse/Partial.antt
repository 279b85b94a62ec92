-- ===== src/Twse/Partial.antt =====
-- service/stock/twse/cached_walkback.go: how long a partial answer of `CachedRetailFutures` is kept.
use imagelet.Base.{ℕ, ◌+◌, ◌≡◌, ◌≤◌, Bool, true, none, some, refl, arith, ap, ◌∙◌}
use imagelet.Base.Assoc.{lookup}
use imagelet.Base.Text.{Text, Text-discrete}
use imagelet.TtlCache.{Cache, Outcome, ok, led, get, set, load, get_or_fetch}
use imagelet.TtlCache.Fetch.{get-live_entry, live_entry, live_entry_mono, lookup-set_self}
use imagelet.TtlCache.Invariant.{IsValid, get-IsValid, set-IsValid}
use imagelet.Twse.Calendar.{ttl_for_as_of, format_date, min_today_ttl}
use imagelet.Twse.Fetching.{ran_fetch}
use imagelet.Twse.Futures.{FuturesTurn, probe_futures, restamp, settle, least, partial_entry_ttl}

module _ {E V : Type 0} (unavailable : E) (blank : V) (is_partial : V → Bool) where
  get-miss :
      (key : Text) (now : ℕ) (c : Cache Text V)
      → live_entry now (lookup Text-discrete key c.store.items) ≡ none
      → (get Text-discrete key now c).1 ≡ none
  get-miss key now c miss = (get-live_entry Text-discrete key now c).0 ∙ miss

  ran_fetch-miss :
      (key : Text) (now again stored : ℕ) (fetched : Outcome E V) (c : Cache Text V)
      → (get Text-discrete key now c).1 ≡ none
      → (get Text-discrete key again (get Text-discrete key now c).0).1 ≡ none
      → ran_fetch Text-discrete key now (led again stored fetched) c ≡ some fetched
  unfolding ran_fetch
  ran_fetch-miss key now again stored fetched c m m' = rw (m, m', ran_fetch) refl

  get_or_fetch-miss :
      (key : Text) (ttl now again stored : ℕ) (v : V) (found : Bool) (c : Cache Text V)
      → (get Text-discrete key now c).1 ≡ none
      → (get Text-discrete key again (get Text-discrete key now c).0).1 ≡ none
      → get_or_fetch Text-discrete {E = E} key ttl now (led again stored (ok v found)) c ≡ (
        set Text-discrete key
            (record { value = v; found = found; expires_at = stored + ttl })
            (get Text-discrete key again (get Text-discrete key now c).0).0,
        ok v found,
      )
  unfolding get_or_fetch load
  get_or_fetch-miss key ttl now again stored v found c m m' = rw (m, m', get_or_fetch, load) refl

  restamp-partial :
      (key : Text) (ttl at : ℕ) (fetched : Outcome E V) (v : V) (c : Cache Text V)
      → is_partial v ≡ true
      → restamp unavailable blank is_partial key ttl at (some fetched) v true c
        ≡ set Text-discrete key
            (record { value = v; found = true; expires_at = at + least ttl partial_entry_ttl })
            c
  unfolding restamp
  restamp-partial key ttl at fetched v c p = rw (p, restamp) refl

  -- On a valid cache without a live entry for the day, a partial answer that a probe fetched is
  -- kept, from the time at which it is stored, for 30 minutes at most, and for no longer than a
  -- complete answer would have been.
  pub probe_futures-partial :
      (turns : ℕ → FuturesTurn E V) (probe again stored : ℕ) (v : V) (c : Cache Text V) (out : V)
      → (turns probe).turn.flight ≡ led again stored (ok v true)
      → (turns probe).turn.now ≤ again
      → IsValid Text-discrete c
      → live_entry (turns probe).turn.now (lookup Text-discrete (format_date probe) c.store.items)
        ≡ none
      → is_partial v ≡ true
      → (ttl : ℕ) × (ttl ≤ min_today_ttl)
        × (ttl ≤ ttl_for_as_of probe (turns probe).turn.chosen_at)
        × (lookup Text-discrete
              (format_date probe)
              (probe_futures unavailable blank is_partial turns probe (c, out)).0.0.store.items
            ≡ some
                (record { value = v; found = true; expires_at = (turns probe).restamped_at + ttl }))
  unfolding probe_futures settle
  probe_futures-partial turns probe again stored v c out f le i miss p =
      let t = (turns probe).turn in
      let key = format_date probe in
      let at = (turns probe).restamped_at in
      let ttl = ttl_for_as_of probe t.chosen_at in
      let m = get-miss key t.now c miss in
      let c1 = (get Text-discrete key t.now c).0 in
      let m' : (get Text-discrete key again c1).1 ≡ none = get-miss key again c1 (
        ap (λ l. live_entry again (lookup Text-discrete key l))
          (get-live_entry Text-discrete key t.now c).1
        ∙ live_entry_mono Text-discrete t.now again (lookup Text-discrete key c.store.items) le
            miss) in
      let c2 =
        set Text-discrete key (record { value = v; found = true; expires_at = stored + ttl })
          (get Text-discrete key again c1).0 in
      let i2 : IsValid Text-discrete c2 =
        set-IsValid Text-discrete key _
          (get-IsValid Text-discrete key again (get-IsValid Text-discrete key t.now i)) in
      let g =
        ap (λ x. get_or_fetch Text-discrete key ttl t.now x c) f
        ∙ get_or_fetch-miss key ttl t.now again stored v true c m m' in
      let r =
        ap (λ x. ran_fetch Text-discrete key t.now x c) f
        ∙ ran_fetch-miss key t.now again stored (ok v true) c m m' in
      (
        least ttl partial_entry_ttl,
        ground arith,
        ground arith,
        ap
              (λ x.
                lookup Text-discrete key
                  (settle unavailable blank is_partial key ttl at x
                    (get_or_fetch Text-discrete key ttl t.now t.flight c) out).0.0.store.items)
              r
            ∙ ap
                (λ x.
                  lookup Text-discrete key
                    (settle unavailable blank is_partial key ttl at (some (ok v true)) x
                      out).0.0.store.items)
                g
            ∙ ap (λ x. lookup Text-discrete key x.store.items)
                (restamp-partial key ttl at (ok v true) v c2 p)
            ∙ lookup-set_self Text-discrete key _ i2,
      )
