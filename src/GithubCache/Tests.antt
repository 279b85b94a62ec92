-- ===== src/GithubCache/Tests.antt =====
-- Runs of service/github/profile/cached, and each theorem at an input that meets its hypotheses.
use imagelet.Base.{ℕ, [], ◌∷◌, ◌*◌, ◌≡◌, none, some, refl, ℕ_discrete}
use imagelet.Base.Assoc.{lookup, insert}
use imagelet.Base.Text.{Text, Text-discrete}
use imagelet.StaleCache
use imagelet.StaleCache.{State, Entry, Cache, Policy, Fetched, new}
use imagelet.StaleCache.Answers.{held}
use imagelet.StaleCache.Invariant
use imagelet.StaleCache.Invariant.{IsValid}
use imagelet.StaleCache.Sequences
use imagelet.GithubCache.{
  ProfileError, default_config, policy, user, repo, repo_key, second, classify, ttl_for,
}

program : Unit {0}
unfolding StaleCache.publish StaleCache.start StaleCache.keep_error StaleCache.finish
    StaleCache.call StaleCache.answer StaleCache.count_eviction new lookup insert user repo repo_key
    classify ttl_for Text-discrete default_config ℕ_discrete
program = tt

abbrev login : Text
login = b'a' ∷ []

abbrev rules : Policy ℕ ProfileError
rules = policy 0 default_config

abbrev limited : Fetched ℕ ProfileError
limited = Fetched.fail ProfileError.rate_limited

abbrev empty : Cache Text ℕ ProfileError
empty = new rules

empty-IsValid : IsValid Text-discrete rules empty
empty-IsValid = Invariant.new-IsValid Text-discrete rules

-- the user was asked for at time 0
abbrev one : Cache Text ℕ ProfileError
one = (user 0 default_config login 0 (Fetched.ok 7) empty).0

one-IsValid : IsValid Text-discrete rules one
unfolding user
one-IsValid = Sequences.call-IsValid Text-discrete rules login 0 (Fetched.ok 7) empty-IsValid

abbrev entry : Entry ℕ ProfileError
entry = record { records = 7; err = none; state = State.ok; deadline = 300 * second }

one-held : held Text-discrete rules login one ≡ some entry
unfolding program
one-held = refl

fresh_for_five_minutes : (user 0 default_config login (299 * second) limited one).1 ≡ 7
unfolding program
fresh_for_five_minutes = refl
