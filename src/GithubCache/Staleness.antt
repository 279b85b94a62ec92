-- ===== src/GithubCache/Staleness.antt =====
-- service/github/profile/cached/cached.go: what a failing upstream leaves of a user or repository.
use imagelet.Base.{ℕ, ◌+◌, ◌≡◌, ◌≢◌, ◌≤◌, ◌<◌, true, none, some, refl, inl}
use imagelet.Base.Text.{Text, Text-discrete}
use imagelet.StaleCache.{Entry, Cache, Fetched, is_ok, is_fail}
use imagelet.StaleCache.Answers.{held}
use imagelet.StaleCache.Invariant.{IsValid}
use imagelet.StaleCache.Sequences.{IsExpired, call_fail-call, call_error-call}
use imagelet.GithubCache.{ProfileError, Config, policy, user, repo, repo_key, classify, ttl_for}

-- only a missing entity is not a failure
classify_fail :
    (err : ProfileError) → err ≢ ProfileError.not_found → is_fail (classify (some err)) ≡ true
unfolding classify
classify_fail ProfileError.not_found n = absurd (n refl)
classify_fail ProfileError.rate_limited n = refl
classify_fail ProfileError.unavailable n = refl
classify_fail (ProfileError.other x) n = refl

module _ {A : Type 0} (blank : A) (config : Config) where
  -- On a valid cache, when a held profile has expired, any error but "not found" returns the old
  -- profile with the error, once: until the failure TTL has passed, later calls return it without
  -- an error.
  pub user_fail :
      (login : Text) (now later : ℕ) (err : ProfileError) (g : Fetched A ProfileError)
      (e : Entry A ProfileError) (c : Cache Text A ProfileError)
      → IsValid Text-discrete (policy blank config) c
      → held Text-discrete (policy blank config) login c ≡ some e
      → is_ok e.state ≡ true
      → e.deadline ≤ now
      → err ≢ ProfileError.not_found
      → later < now + config.failure
      → ((user blank config login now (Fetched.fail err) c).1 ≡ e.records)
        × ((user blank config login now (Fetched.fail err) c).2 ≡ some err)
        × ((user blank config login later g (user blank config login now (Fetched.fail err) c).0).1
            ≡ e.records)
        × ((user blank config login later g (user blank config login now (Fetched.fail err) c).0).2
            ≡ none)
  unfolding user
  user_fail login now later err g e c i h o old n fresh =
      call_fail-call Text-discrete (policy blank config) login now later err g e i h o old refl
        (classify_fail err n) fresh

  -- A repository that is gone, or has become private, is reported as not found without its old
  -- entry, then and in every call until the not-found TTL has passed.
  pub repo_not_found :
      (owner name : Text) (now later : ℕ) (g : Fetched A ProfileError)
      (c : Cache Text A ProfileError)
      → IsValid Text-discrete (policy blank config) c
      → IsExpired Text-discrete (policy blank config) (repo_key owner name) now c
      → later < now + config.not_found
      → ((repo blank config owner name now (Fetched.fail ProfileError.not_found) c).1 ≡ blank)
        × ((repo blank config owner name now (Fetched.fail ProfileError.not_found) c).2
            ≡ some ProfileError.not_found)
        × ((repo blank config owner name later g
              (repo blank config owner name now (Fetched.fail ProfileError.not_found) c).0).1
            ≡ blank)
        × ((repo blank config owner name later g
              (repo blank config owner name now (Fetched.fail ProfileError.not_found) c).0).2
            ≡ some ProfileError.not_found)
  unfolding repo classify ttl_for
  repo_not_found owner name now later g c i stale fresh =
      call_error-call Text-discrete (policy blank config) (repo_key owner name) now later
        ProfileError.not_found g i stale refl refl (inl refl) fresh
