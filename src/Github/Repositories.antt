-- ===== src/Github/Repositories.antt =====
-- service/github/github.go in front of service/github/profile/cached/cached.go: the repositories that
-- a request of /github/:user/:repo can reach.
use imagelet.Base.{
  ℕ, ◌≡◌, ◌≢◌, ◌⊎◌, inl, inr, refl, arith, true, false, [], ◌∷◌, Bool-cases, ℕ_discrete,
}
use imagelet.Base.Order.{has}
use imagelet.Base.Text.{Text, trim_space, Text-discrete}
use imagelet.StaleCache.{Cache, Fetched}
use imagelet.StaleCache.Answers.{held}
use imagelet.StaleCache.Invariant.{IsValid}
use imagelet.GithubCache.{ProfileError, Config, policy, repo, repo_key}
use imagelet.GithubCache.Keys.{repo_other}
use imagelet.Render.{Mode}
use imagelet.Dns.Hosts.{is_alnum, is_digit}
use imagelet.Dns.Page.{Renderer}
use imagelet.Github.Names.{
  LoginPlace, outset, letter, dash, off, next_login_place, login_from, matches_login_re,
  is_bad_login, is_bad_path,
}
use imagelet.Github.Cards.{Repo}
use imagelet.Github.Page.{CardRequest, serve_path, serve_repo}

login_from-off : (s : Text) → login_from off s ≡ false
unfolding login_from next_login_place
login_from-off [] = refl
login_from-off (c ∷ s) = login_from-off s

slash_off : (p : LoginPlace) → next_login_place p b'/' ≡ off
unfolding next_login_place is_alnum is_digit
slash_off outset = refl
slash_off letter = refl
slash_off dash = refl
slash_off off = refl

login_from-has : (p : LoginPlace) (s : Text) → login_from p s ≡ true → has ℕ_discrete b'/' s ≡ false
unfolding login_from
login_from-has p [] h = refl
login_from-has p (c ∷ s) h = elim (ℕ_discrete c b'/') [
  | yes e ↦ absurd (ground (arith, slash_off p, login_from-off s, e))
  | no n ↦ ground (arith, login_from-has (next_login_place p c) s h)
]

is_bad_login-has : (s : Text) → is_bad_login s ≡ false → has ℕ_discrete b'/' s ≡ false
unfolding is_bad_login matches_login_re
is_bad_login-has s h = login_from-has outset s (ground arith)

good_owner : (owner name : Text) → is_bad_path owner name ≡ false → is_bad_login owner ≡ false
unfolding is_bad_path
good_owner owner name h = ground arith

module _ (renderer : Renderer) (blank : Repo) (config : Config) where
  serve_path_other :
      (mode : Mode) (clock now : ℕ) (f : Fetched Repo ProfileError) (owner name other name' : Text)
      (s : Cache Text Repo ProfileError)
      → IsValid Text-discrete (policy blank config) s
      → is_bad_login other ≡ false
      → (owner ≢ other) ⊎ (name ≢ name')
      → held Text-discrete
          (policy blank config)
          (repo_key other name')
          (serve_path renderer (λ o n. repo blank config o n now f) mode clock owner name s).0
        ≡ held Text-discrete (policy blank config) (repo_key other name') s
  unfolding serve_path
  serve_path_other mode clock now f owner name other name' s i good n =
      elim (Bool-cases (is_bad_path owner name)) [
        | inl e ↦ rw e refl
        | inr e ↦ rw e (
            repo_other blank config owner other name name' now f s i
              (is_bad_login-has owner (good_owner owner name e)) (is_bad_login-has other good) n)
      ]

  -- On a valid cache, a request for a repository changes no entry of another repository whose owner
  -- is a login that the handlers take, whatever the request and the upstream say.
  pub serve_repo_other :
      (c : CardRequest) (clock now : ℕ) (f : Fetched Repo ProfileError) (other name' : Text)
      (s : Cache Text Repo ProfileError)
      → IsValid Text-discrete (policy blank config) s
      → is_bad_login other ≡ false
      → (trim_space c.user_param ≢ other) ⊎ (trim_space c.repo_param ≢ name')
      → held Text-discrete
          (policy blank config)
          (repo_key other name')
          (serve_repo renderer (λ o n. repo blank config o n now f) c clock s).0
        ≡ held Text-discrete (policy blank config) (repo_key other name') s
  unfolding serve_repo
  serve_repo_other c clock now f other name' s i good n = elim (Bool-cases c.wants_pylon) [
    | inl e ↦ rw e refl
    | inr e ↦ rw e (
        serve_path_other c.mode clock now f (trim_space c.user_param) (trim_space c.repo_param)
          other name' s i good n)
  ]
