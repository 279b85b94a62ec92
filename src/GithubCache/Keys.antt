-- ===== src/GithubCache/Keys.antt =====
-- service/github/profile/cached/cached.go: the keys of `RepoCached`.
use imagelet.Base.{ℕ, ◌≡◌, ◌≢◌, ◌∷◌, [], ◌⊎◌, false, arith, ◌∙◌, ite, ℕ_discrete}
use imagelet.Base.Order.{has}
use imagelet.Base.Text.{Text, Text-discrete}
use imagelet.StaleCache.{Cache, Fetched}
use imagelet.StaleCache.Answers.{held}
use imagelet.StaleCache.Refinement.{call-after}
use imagelet.StaleCache.Invariant.{IsValid}
use imagelet.GithubCache.{ProfileError, Config, policy, repo, repo_key}

-- Owners, which hold no slash, and names are told apart by the key.
pub repo_key_injective :
    (owner other name name' : Text)
    → has ℕ_discrete b'/' owner ≡ false
    → has ℕ_discrete b'/' other ≡ false
    → repo_key owner name ≡ repo_key other name'
    → (owner ≡ other) × (name ≡ name')
unfolding repo_key
repo_key_injective [] [] name name' h h' e = ground arith
repo_key_injective [] (d ∷ t) name name' h h' e = absurd (ground arith)
repo_key_injective (c ∷ s) [] name name' h h' e = absurd (ground arith)
repo_key_injective (c ∷ s) (d ∷ t) name name' h h' e =
    let (a, b) = repo_key_injective s t name name' (ground arith) (ground arith) (ground arith) in
    (ground arith, b)

ite_no : {B : Type 0} (k j : Text) (a b : B) → k ≢ j → ite (Text-discrete k j) a b ≡ b
ite_no k j a b n = ground arith

module _ {A : Type 0} (blank : A) (config : Config) where
  -- On a valid cache, and for owners without a slash, a call for one repository changes no entry
  -- of another, whatever the upstream answers.
  pub repo_other :
      (owner other name name' : Text) (now : ℕ) (f : Fetched A ProfileError)
      (c : Cache Text A ProfileError)
      → IsValid Text-discrete (policy blank config) c
      → has ℕ_discrete b'/' owner ≡ false
      → has ℕ_discrete b'/' other ≡ false
      → (owner ≢ other) ⊎ (name ≢ name')
      → held Text-discrete
          (policy blank config)
          (repo_key other name')
          (repo blank config owner name now f c).0
        ≡ held Text-discrete (policy blank config) (repo_key other name') c
  unfolding repo
  repo_other owner other name name' now f c i h h' n =
      let (x, y, z) =
        call-after Text-discrete (policy blank config) (repo_key owner name) (repo_key other name')
          now f i in
      let ne : repo_key owner name ≢ repo_key other name' =
        λ e. ground (arith, repo_key_injective owner other name name' h h' e) in
      x ∙ ite_no (repo_key owner name) (repo_key other name') _ _ ne
