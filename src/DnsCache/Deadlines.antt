-- ===== src/DnsCache/Deadlines.antt =====
-- service/dns/resolver/cached/cached.go: how long an answer is served.
use imagelet.Base.{ℕ, List, ◌+◌, ◌*◌, ◌≡◌, ◌≤◌, ◌<◌, ◌⊎◌, true, none, some, arith, refl, inl}
use imagelet.Base.Text.{Text, Text-discrete}
use imagelet.StaleCache.{Entry, Fetched, is_ok}
use imagelet.StaleCache.Answers.{held}
use imagelet.StaleCache.Invariant.{IsValid}
use imagelet.StaleCache.Sequences.{
  IsExpired, call_ok-call, call_error-call, call_passes, call_ok-expired,
}
use imagelet.StaleCache.Later.{Call, calls, AllBefore, call_fail-calls}
use imagelet.DnsCache.{
  Hosts, LookupError, Records, Config, policy, lookup_host, second, success_deadline, classify,
  is_throttled, ttl_for,
}

-- A success is kept for its least TTL, but for no less than 60 and no more than 600 seconds.
pub success_deadline_bounds :
    (now min_ttl : ℕ)
    → (now + 60 * second ≤ success_deadline now min_ttl)
      × (success_deadline now min_ttl ≤ now + 600 * second)
      × ((min_ttl < 60 * second)
          ⊎ (600 * second < min_ttl)
          ⊎ (success_deadline now min_ttl ≡ now + min_ttl))
unfolding success_deadline
success_deadline_bounds now min_ttl = (ground arith, ground arith, ground arith)

module _ {D : Type 0} (no_sets : D) (config : Config) where
  -- On a valid cache without a fresh entry for the host, a success answers every lookup of the
  -- host for the next 60 seconds at least, without an error and whatever the upstream would say.
  pub lookup_host_ok :
      (host : Text) (now later : ℕ) (r : Records D) (g : Fetched (Records D) LookupError)
      (c : Hosts D)
      → IsValid Text-discrete (policy no_sets config) c
      → IsExpired Text-discrete (policy no_sets config) host now c
      → later < now + 60 * second
      → ((lookup_host no_sets config host later g
            (lookup_host no_sets config host now (Fetched.ok r) c).0).1
          ≡ r)
        × ((lookup_host no_sets config host later g
              (lookup_host no_sets config host now (Fetched.ok r) c).0).2
            ≡ none)
  unfolding lookup_host
  lookup_host_ok host now later r g c i stale h =
      call_ok-call Text-discrete (policy no_sets config) host now later r g i stale
        (omega (arith, (success_deadline_bounds now r.min_ttl).0))

  -- On a valid cache without a fresh entry for the host: 600 seconds after a success the upstream
  -- is asked again, and its new success is the answer.
  pub lookup_host_expired :
      (host : Text) (now later : ℕ) (r s : Records D) (c : Hosts D)
      → IsValid Text-discrete (policy no_sets config) c
      → IsExpired Text-discrete (policy no_sets config) host now c
      → now + 600 * second ≤ later
      → ((lookup_host no_sets config host later
            (Fetched.ok s)
            (lookup_host no_sets config host now (Fetched.ok r) c).0).1
          ≡ s)
        × ((lookup_host no_sets config host later
              (Fetched.ok s)
              (lookup_host no_sets config host now (Fetched.ok r) c).0).2
            ≡ none)
  unfolding lookup_host
  lookup_host_expired host now later r s c i stale h =
      call_ok-expired Text-discrete (policy no_sets config) host now later r s i stale
        (omega (arith, (success_deadline_bounds now r.min_ttl).1))

  -- On a valid cache without a fresh entry for the host, a lookup that the process's own rate
  -- limiter refuses changes no entry of any host; its caller gets the refusal and no records.
  pub lookup_host_throttled :
      (host other : Text) (now : ℕ) (c : Hosts D)
      → IsValid Text-discrete (policy no_sets config) c
      → IsExpired Text-discrete (policy no_sets config) host now c
      → (held Text-discrete
            (policy no_sets config)
            other
            (lookup_host no_sets config host now (Fetched.fail LookupError.self_throttled) c).0
          ≡ held Text-discrete (policy no_sets config) other c)
        × ((lookup_host no_sets config host now (Fetched.fail LookupError.self_throttled) c).1
            ≡ (policy no_sets config).blank)
        × ((lookup_host no_sets config host now (Fetched.fail LookupError.self_throttled) c).2
            ≡ some LookupError.self_throttled)
  unfolding lookup_host is_throttled
  lookup_host_throttled host other now c i stale =
      call_passes Text-discrete (policy no_sets config) host other now LookupError.self_throttled i
        stale refl

  -- On a valid cache, when the held success of a host has expired and the upstream is unavailable,
  -- the old records are returned with the error, once: until the failure TTL has passed, every
  -- lookup of the host returns them without an error, whatever lookups came in between.
  pub lookup_host_unavailable :
      (host : Text) (now later : ℕ) (g : Fetched (Records D) LookupError)
      (e : Entry (Records D) LookupError) (between : List (Call Text (Records D) LookupError))
      (c : Hosts D)
      → IsValid Text-discrete (policy no_sets config) c
      → held Text-discrete (policy no_sets config) host c ≡ some e
      → is_ok e.state ≡ true
      → e.deadline ≤ now
      → AllBefore Text-discrete (policy no_sets config) (now + config.failure) between
      → later < now + config.failure
      → ((lookup_host no_sets config host now (Fetched.fail LookupError.unavailable) c).1
          ≡ e.records)
        × ((lookup_host no_sets config host now (Fetched.fail LookupError.unavailable) c).2
            ≡ some LookupError.unavailable)
        × ((lookup_host no_sets config host later g (
              calls Text-discrete
                (policy no_sets config)
                between
                (lookup_host no_sets config host now (Fetched.fail LookupError.unavailable) c).0)).1
            ≡ e.records)
        × ((lookup_host no_sets config host later g (
              calls Text-discrete
                (policy no_sets config)
                between
                (lookup_host no_sets config host now (Fetched.fail LookupError.unavailable) c).0)).2
            ≡ none)
  unfolding lookup_host is_throttled classify
  lookup_host_unavailable host now later g e between c i h o old before fresh =
      call_fail-calls Text-discrete (policy no_sets config) host now later LookupError.unavailable g
        e between i h o old refl refl before fresh

  -- On a valid cache without a fresh entry for the host, a host that is gone is reported as not
  -- found, without records even if a success was held, then and in every lookup until the
  -- not-found TTL has passed.
  pub lookup_host_not_found :
      (host : Text) (now later : ℕ) (g : Fetched (Records D) LookupError) (c : Hosts D)
      → IsValid Text-discrete (policy no_sets config) c
      → IsExpired Text-discrete (policy no_sets config) host now c
      → later < now + config.not_found
      → ((lookup_host no_sets config host now (Fetched.fail LookupError.not_found) c).1
          ≡ (policy no_sets config).blank)
        × ((lookup_host no_sets config host now (Fetched.fail LookupError.not_found) c).2
            ≡ some LookupError.not_found)
        × ((lookup_host no_sets config host later g
              (lookup_host no_sets config host now (Fetched.fail LookupError.not_found) c).0).1
            ≡ (policy no_sets config).blank)
        × ((lookup_host no_sets config host later g
              (lookup_host no_sets config host now (Fetched.fail LookupError.not_found) c).0).2
            ≡ some LookupError.not_found)
  unfolding lookup_host is_throttled classify ttl_for
  lookup_host_not_found host now later g c i stale fresh =
      call_error-call Text-discrete (policy no_sets config) host now later LookupError.not_found g i
        stale refl refl (inl refl) fresh
