-- ===== src/Github/Upstream.antt =====
-- service/github/profile: client.go, user.go and repo.go. Sending a request, decoding JSON and reading
-- an instant in RFC 3339 are parameters; an instant is its nanoseconds since the zero time.
use imagelet.Base.{ℕ, Bool, ◌&&◌, [], ◌∷◌, ◌++◌, Option, none, some, ◌==◌, not, if◌then◌else◌}
use imagelet.Base.Int.{ℤ}
use imagelet.Base.Text.{Text, codes, text_eq}
use imagelet.StaleCache.{Fetched}
use imagelet.Dns.Names.{is_empty}
use imagelet.GithubCache.{ProfileError}
use imagelet.Github.Cards.{Profile, Repo}

-- the request that `do` builds
pub record HttpGet : Type 0 where
  pub url : Text
  pub authorization : Option Text

-- what the client reads of a response
pub record HttpReply : Type 0 where
  pub status_code : ℕ
  pub rate_remaining : Text
  pub reply_body : Text

-- how sending ends: the address is malformed, the transport fails, or there is a response
pub data Sent : Type 0 where
  malformed : ℕ → Sent
  broken : Sent
  replied : HttpReply → Sent

-- the `switch` over the status
unfoldable pub reduce_status : HttpReply → Fetched HttpReply ProfileError
reduce_status r =
    if r.status_code == 200
    then Fetched.ok r
    else if r.status_code == 404
    then Fetched.fail ProfileError.not_found
    else if r.status_code == 403 && text_eq r.rate_remaining (codes "0")
    then Fetched.fail ProfileError.rate_limited
    else if r.status_code == 429
    then Fetched.fail ProfileError.rate_limited
    else Fetched.fail ProfileError.unavailable

unfoldable pub deref_string : Option Text → Text
deref_string none = []
deref_string (some s) = s

pub record LicenseObject : Type 0 where
  pub spdx_id : Option Text
  pub license_name : Option Text

unfoldable pub pick_license : Option LicenseObject → Text
unfolding deref_string
pick_license none = []
pick_license (some l) =
    let v = deref_string l.spdx_id in
    if not (is_empty v) && not (text_eq v (codes "NOASSERTION"))
    then v
    else deref_string l.license_name

pub record UserResponse : Type 0 where
  pub raw_login : Text
  pub raw_type : Text
  pub raw_name : Option Text
  pub raw_bio : Option Text
  pub raw_company : Option Text
  pub raw_blog : Option Text
  pub raw_location : Option Text
  pub raw_twitter : Option Text
  pub raw_repos : ℤ
  pub raw_gists : ℤ
  pub raw_followers : ℤ
  pub raw_following : ℤ
  pub created_at : Text

pub record RepoResponse : Type 0 where
  pub raw_full_name : Text
  pub private : Bool
  pub raw_description : Option Text
  pub raw_stars : ℤ
  pub raw_forks : ℤ
  pub raw_issues : ℤ
  pub raw_language : Option Text
  pub raw_license : Option LicenseObject
  pub raw_branch : Text
  pub raw_pushed : Text

unfoldable pub user_path : Text → Text
user_path login = codes "/users/" ++ login

unfoldable pub repo_path : Text → Text → Text
repo_path owner name = codes "/repos/" ++ owner ++ b'/' ∷ name

unfoldable pub release_path : Text → Text → Text
release_path owner name = codes "/repos/" ++ owner ++ b'/' ∷ name ++ codes "/releases/latest"

module _ (endpoint token : Text) (send : HttpGet → Sent) where
  unfoldable pub new_get : Text → HttpGet
  unfolding is_empty
  new_get path = record {
    url = endpoint ++ path;
    authorization = if is_empty token then none else some (codes "Bearer " ++ token);
  }

  unfoldable pub received : Sent → Fetched HttpReply ProfileError
  unfolding reduce_status
  received (malformed n) = Fetched.fail (ProfileError.other n)
  received broken = Fetched.fail ProfileError.unavailable
  received (replied r) = reduce_status r

  -- `do`
  unfoldable pub do_get : Text → Fetched HttpReply ProfileError
  unfolding received new_get
  do_get path = received (send (new_get path))

  module _ (parse_time : Text → Option ℕ) where
    -- an instant, or the zero time if it is blank or does not parse
    unfoldable pub instant : Text → ℕ
    instant [] = 0
    instant (c ∷ s) = elim (parse_time (c ∷ s)) [ none ↦ 0 | some t ↦ t ]

    unfoldable pub to_profile : UserResponse → Profile
    unfolding deref_string instant
    to_profile raw = record {
      login = raw.raw_login;
      name = deref_string raw.raw_name;
      bio = deref_string raw.raw_bio;
      company = deref_string raw.raw_company;
      blog = deref_string raw.raw_blog;
      location = deref_string raw.raw_location;
      twitter_username = deref_string raw.raw_twitter;
      public_repos = raw.raw_repos;
      public_gists = raw.raw_gists;
      followers = raw.raw_followers;
      following = raw.raw_following;
      is_organization = text_eq raw.raw_type (codes "Organization");
      joined_at = instant raw.created_at;
    }

    module _ (decode_user : Text → Option UserResponse) where
      unfoldable pub decoded_user : Option UserResponse → Fetched Profile ProfileError
      unfolding is_empty to_profile
      decoded_user none = Fetched.fail ProfileError.unavailable
      decoded_user (some raw) =
          if is_empty raw.raw_login
          then Fetched.fail ProfileError.unavailable
          else Fetched.ok (to_profile raw)

      unfoldable pub read_user : Fetched HttpReply ProfileError → Fetched Profile ProfileError
      unfolding decoded_user
      read_user (Fetched.fail err) = Fetched.fail err
      read_user (Fetched.ok r) = decoded_user (decode_user r.reply_body)

      -- `UserProviderImpl.User`
      unfoldable pub fetch_user : Text → Fetched Profile ProfileError
      unfolding read_user do_get user_path
      fetch_user login = read_user (do_get (user_path login))

    module _ (decode_repo : Text → Option RepoResponse) (decode_release : Text → Option Text) where
      unfoldable pub read_release : Fetched HttpReply ProfileError → Fetched Text ProfileError
      read_release (Fetched.fail ProfileError.not_found) = Fetched.ok []
      read_release (Fetched.fail err) = Fetched.fail err
      read_release (Fetched.ok r) = elim (decode_release r.reply_body) [
        | none ↦ Fetched.fail ProfileError.unavailable
        | some tag ↦ Fetched.ok tag
      ]

      unfoldable pub fetch_latest_release : Text → Text → Fetched Text ProfileError
      unfolding read_release do_get release_path
      fetch_latest_release owner name = read_release (do_get (release_path owner name))

      unfoldable pub tag_or_blank : Fetched Text ProfileError → Text
      tag_or_blank (Fetched.ok tag) = tag
      tag_or_blank (Fetched.fail err) = []

      unfoldable pub to_repo : RepoResponse → Text → Repo
      unfolding deref_string pick_license instant
      to_repo raw tag = record {
        full_name = raw.raw_full_name;
        description = deref_string raw.raw_description;
        stars = raw.raw_stars;
        forks = raw.raw_forks;
        open_issues = raw.raw_issues;
        language = deref_string raw.raw_language;
        license = pick_license raw.raw_license;
        default_branch = raw.raw_branch;
        pushed_at = instant raw.raw_pushed;
        latest_release = tag;
      }

      unfoldable pub decoded_repo : Text → Text → Option RepoResponse → Fetched Repo ProfileError
      unfolding is_empty to_repo tag_or_blank fetch_latest_release
      decoded_repo owner name none = Fetched.fail ProfileError.unavailable
      decoded_repo owner name (some raw) =
          if raw.private
          then Fetched.fail ProfileError.not_found
          else if is_empty raw.raw_full_name
          then Fetched.fail ProfileError.unavailable
          else Fetched.ok (to_repo raw (tag_or_blank (fetch_latest_release owner name)))

      unfoldable pub read_repo :
          Text → Text → Fetched HttpReply ProfileError → Fetched Repo ProfileError
      unfolding decoded_repo
      read_repo owner name (Fetched.fail err) = Fetched.fail err
      read_repo owner name (Fetched.ok r) = decoded_repo owner name (decode_repo r.reply_body)

      -- `RepoProviderImpl.Repo`
      unfoldable pub fetch_repo : Text → Text → Fetched Repo ProfileError
      unfolding read_repo do_get repo_path
      fetch_repo owner name = read_repo owner name (do_get (repo_path owner name))
