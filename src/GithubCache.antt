-- ===== src/GithubCache.antt =====
-- service/github/profile/cached/cached.go: `UserCached` and `RepoCached`, two instances of
-- `StaleCache`. A time.Duration is a number of nanoseconds.
pub mod Keys
mod Staleness
mod Tests
use imagelet.Base.{ℕ, [], ◌∷◌, ◌+◌, ◌*◌, ◌^◌, ◌++◌, Bool, true, false, Option, none, some}
use imagelet.Base.Text.{Text, Text-discrete}
use imagelet.StaleCache
use imagelet.StaleCache.{State, Cache, Policy, Fetched, Started}

abbrev pub second : ℕ
second = 10 ^ 9

abbrev pub default_success_ttl : ℕ
default_success_ttl = 300 * second

abbrev pub default_failure_ttl : ℕ
default_failure_ttl = 60 * second

abbrev pub default_not_found_ttl : ℕ
default_not_found_ttl = 3600 * second

-- the sentinels of service/github/profile, by what `errors.Is` says of an error
pub data ProfileError : Type 0 where
  not_found : ProfileError
  rate_limited : ProfileError
  unavailable : ProfileError
  other : ℕ → ProfileError

unfoldable pub classify : Option ProfileError → State
classify none = State.ok
classify (some ProfileError.not_found) = State.not_found
classify (some ProfileError.rate_limited) = State.fail
classify (some ProfileError.unavailable) = State.fail
classify (some (ProfileError.other _)) = State.fail

pub record Config : Type 0 where
  pub success : ℕ
  pub failure : ℕ
  pub not_found : ℕ

unfoldable pub ttl_for : Config → State → ℕ
ttl_for config State.ok = config.success
ttl_for config State.not_found = config.not_found
ttl_for config State.fail = config.failure

-- `NewUser` and `NewRepo`
unfoldable pub default_config : Config
default_config = record {
  success = default_success_ttl;
  failure = default_failure_ttl;
  not_found = default_not_found_ttl;
}

-- `owner + "/" + name`
unfoldable pub repo_key : Text → Text → Text
repo_key owner name = owner ++ (b'/' ∷ []) ++ name

-- `A` is `profile.Profile` or `profile.Repo`, and `blank` its zero value.
module _ {A : Type 0} (blank : A) (config : Config) where
  abbrev pub policy : Policy A ProfileError
  policy = record {
    blank = blank;
    passes = λ err. false;
    classify = λ err. classify (some err);
    success_deadline = λ now p. now + config.success;
    failure_ttl = config.failure;
    ttl_for = ttl_for config;
  }

  -- `User`, up to its singleflight call, from there on, and as a whole
  unfoldable pub start_user :
      Text → ℕ → Cache Text A ProfileError → Cache Text A ProfileError × Started A ProfileError
  start_user = StaleCache.start Text-discrete policy

  unfoldable pub finish_user :
      Text
      → ℕ
      → Option ℕ
      → Fetched A ProfileError
      → Cache Text A ProfileError
      → Cache Text A ProfileError × A × Option ProfileError
  finish_user = StaleCache.finish Text-discrete policy

  unfoldable pub user :
      Text
      → ℕ
      → Fetched A ProfileError
      → Cache Text A ProfileError
      → Cache Text A ProfileError × A × Option ProfileError
  user = StaleCache.call Text-discrete policy

  -- `Repo`
  unfoldable pub repo :
      Text
      → Text
      → ℕ
      → Fetched A ProfileError
      → Cache Text A ProfileError
      → Cache Text A ProfileError × A × Option ProfileError
  repo owner name = StaleCache.call Text-discrete policy (repo_key owner name)
