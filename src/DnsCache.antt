-- ===== src/DnsCache.antt =====
-- service/dns/resolver/cached/cached.go: the DNS cache, an instance of `StaleCache`. A
-- time.Duration is a number of nanoseconds.
pub mod Deadlines
mod Tests
use imagelet.Base.{ℕ, [], ◌+◌, ◌*◌, ◌^◌, Bool, true, false, Option, none, some, ltb, if◌then◌else◌}
use imagelet.Base.Text.{Text, Text-discrete}
use imagelet.StaleCache
use imagelet.StaleCache.{State, Cache, Policy, Fetched}

abbrev pub second : ℕ
second = 10 ^ 9

abbrev pub default_failure_ttl : ℕ
default_failure_ttl = 60 * second

abbrev pub default_not_found_ttl : ℕ
default_not_found_ttl = 3600 * second

abbrev pub success_ttl_min : ℕ
success_ttl_min = 60 * second

abbrev pub success_ttl_max : ℕ
success_ttl_max = 600 * second

-- the sentinels of service/dns/resolver, by what `errors.Is` says of an error
pub data LookupError : Type 0 where
  not_found : LookupError
  unavailable : LookupError
  self_throttled : LookupError
  other : ℕ → LookupError

-- `resolver.Records`: the host, the record sets, which the cache passes on, and the least TTL
pub record Records (D : Type 0) : Type 0 where
  pub hostname : Text
  pub sets : D
  pub min_ttl : ℕ

unfoldable pub classify : Option LookupError → State
classify none = State.ok
classify (some LookupError.not_found) = State.not_found
classify (some LookupError.unavailable) = State.fail
classify (some LookupError.self_throttled) = State.fail
classify (some (LookupError.other _)) = State.fail

-- `errors.Is(err, resolver.ErrSelfThrottled)`
unfoldable pub is_throttled : LookupError → Bool
is_throttled LookupError.self_throttled = true
is_throttled LookupError.not_found = false
is_throttled LookupError.unavailable = false
is_throttled (LookupError.other _) = false

unfoldable pub success_deadline : ℕ → ℕ → ℕ
success_deadline now min_ttl =
    let ttl = if ltb min_ttl success_ttl_min then success_ttl_min else min_ttl in
    let ttl' = if ltb success_ttl_max ttl then success_ttl_max else ttl in now + ttl'

-- the TTLs of `NewWithTTL`
pub record Config : Type 0 where
  pub failure : ℕ
  pub not_found : ℕ

unfoldable pub ttl_for : Config → State → ℕ
ttl_for config State.not_found = config.not_found
ttl_for config State.ok = config.failure
ttl_for config State.fail = config.failure

abbrev pub Hosts : Type 0 → Type 0
Hosts D = Cache Text (Records D) LookupError

module _ {D : Type 0} (no_sets : D) (config : Config) where
  abbrev pub policy : Policy (Records D) LookupError
  policy = record {
    blank = record { hostname = []; sets = no_sets; min_ttl = 0 };
    passes = is_throttled;
    classify = λ err. classify (some err);
    success_deadline = λ now r. success_deadline now r.min_ttl;
    failure_ttl = config.failure;
    ttl_for = ttl_for config;
  }

  -- `Lookup`, up to its singleflight call and from there on
  unfoldable pub start_lookup :
      Text → ℕ → Hosts D → Hosts D × StaleCache.Started (Records D) LookupError
  start_lookup = StaleCache.start Text-discrete policy

  unfoldable pub finish_lookup :
      Text
      → ℕ
      → Option ℕ
      → Fetched (Records D) LookupError
      → Hosts D
      → Hosts D × Records D × Option LookupError
  finish_lookup = StaleCache.finish Text-discrete policy

  unfoldable pub lookup_host :
      Text
      → ℕ
      → Fetched (Records D) LookupError
      → Hosts D
      → Hosts D × Records D × Option LookupError
  lookup_host = StaleCache.call Text-discrete policy
