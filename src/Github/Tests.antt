-- ===== src/Github/Tests.antt =====
-- Runs of service/github, and each theorem at an input that meets its hypotheses.
use imagelet.Base.{
  ℕ, ◌+◌, ◌-◌, ◌*◌, ◌≡◌, ◌≢◌, ◌⊎◌, inl, refl, arith, Bool, true, false, [], ◌∷◌, ◌++◌, none, some,
  ltb,
}
use imagelet.Base.Int.{pos}
use imagelet.Base.Assoc.{insert}
use imagelet.Base.Assoc
use imagelet.Base.Text.{Text, codes, Text-discrete, trim_space, trim_left, to_upper, join}
use imagelet.HtmlCache.{Cache, Entry, lookup, new_with_capacity}
use imagelet.HtmlCache.Flight.{keep}
use imagelet.HtmlCache.Policy.{should_store, parse_max_age, seconds}
use imagelet.HtmlCache.Store
use imagelet.IpLimit.{Limiter, collect, take_token, allow, middleware}
use imagelet.Render.{Mode}
use imagelet.StaleCache
use imagelet.StaleCache.{Fetched}
use imagelet.StaleCache.Answers.{held}
use imagelet.StaleCache.Invariant
use imagelet.StaleCache.Invariant.{IsValid}
use imagelet.Dns.Names.{is_empty}
use imagelet.Dns.Page.{PageResponse, Renderer, drawn, bad_gateway}
use imagelet.Dns.Pages.{captured_response}
use imagelet.GithubCache.{ProfileError, default_config, policy, repo, repo_key}
use imagelet.Github.Names.{matches_login_re, matches_repo_re, is_bad_login, is_bad_path}
use imagelet.Github.Cards.{
  Profile, Repo, humanize_pushed, repo_captions, user_captions, minute, day,
}
use imagelet.Github.Page.{
  CardRequest, write_banner, render_rate_limited, render_unavailable, render_user, serve_repo,
  serve_user,
}
use imagelet.Github.Pages
use imagelet.Github.Pages.{written}
use imagelet.Github.Repositories

program : Unit {0}
unfolding matches_login_re matches_repo_re is_bad_login is_bad_path humanize_pushed repo_captions
    user_captions render_user render_unavailable write_banner drawn captured_response should_store
    parse_max_age serve_repo serve_user is_empty trim_space trim_left to_upper join collect
    take_token allow Text-discrete Assoc.lookup
program = tt

logins :
    (matches_login_re (codes "octo-cat") ≡ true)
    × (matches_login_re (codes "-octocat") ≡ false)
    × (matches_login_re (codes "octo--cat") ≡ false)
    × (matches_login_re (codes "octocat-") ≡ false)
    × (matches_login_re (codes "a/b") ≡ false)
    × (matches_login_re [] ≡ false)
unfolding program
logins = (refl, refl, refl, refl, refl, refl)

repo_names :
    (matches_repo_re (codes "Hello-World_1.x") ≡ true)
    × (matches_repo_re [] ≡ false)
    × (matches_repo_re (codes "a b") ≡ false)
unfolding program
repo_names = (refl, refl, refl)

ago :
    (humanize_pushed (100 * day) 0 ≡ [])
    × (humanize_pushed day (2 * day) ≡ codes "just now")
    × (humanize_pushed (day + 90 * minute) day ≡ codes "1h ago")
    × (humanize_pushed (100 * day) day ≡ codes "3mo ago")
    × (humanize_pushed (800 * day) day ≡ codes "2y ago")
unfolding program
ago = (refl, refl, refl, refl, refl)

abbrev blank : Repo
blank = record {
  full_name = [];
  description = [];
  stars = pos 0;
  forks = pos 0;
  open_issues = pos 0;
  language = [];
  license = [];
  default_branch = [];
  pushed_at = 0;
  latest_release = [];
}

abbrev shown : Repo
shown = record blank { stars = pos 12; language = codes "Go"; default_branch = codes "main" }

rows :
    repo_captions 0 shown
    ≡ (0x2605 ∷ codes " 12  " ++ 0x2387 ∷ codes " 0  " ++ 0x26a0 ∷ codes " 0")
      ∷ (codes "Go " ++ 0xb7 ∷ codes " main")
      ∷ []
unfolding program
rows = refl

abbrev octocat : Profile
octocat = record {
  login = codes "octocat";
  name = codes "The Octocat";
  bio = [];
  company = codes " @github";
  blog = codes "https://github.blog";
  location = [];
  twitter_username = [];
  public_repos = pos 8;
  public_gists = pos 8;
  followers = pos 100;
  following = pos 9;
  is_organization = false;
  joined_at = 0;
}

abbrev draw : Renderer
draw = record {
  banner_multi = λ headline rows mode. some headline;
  banner_boxes = λ headline rows mode. some headline;
  inject_og_meta = λ headline body. body;
}

-- an old profile, shown when GitHub cannot be reached
stale_is_stored :
    should_store (
      captured_response (
        render_user draw
          (λ t. [])
          Mode.html
          (codes "octocat")
          octocat
          (some ProfileError.unavailable)))
    ≡ some (seconds 60)
unfolding program
stale_is_stored = refl

render_user-should_store_example :
    ((some ProfileError.unavailable ≡ none) × (seconds 60 ≡ seconds 600))
    ⊎ ((some ProfileError.unavailable ≢ none)
        × (some ProfileError.unavailable ≢ some ProfileError.not_found)
        × ((some ProfileError.unavailable ≡ some ProfileError.rate_limited)
            ⊎ (is_empty octocat.login ≡ false))
        × (seconds 60 ≡ seconds 60))
render_user-should_store_example =
    Pages.render_user-should_store draw (λ t. []) Mode.html (codes "octocat") octocat
      (some ProfileError.unavailable) stale_is_stored

abbrev request : CardRequest
request = record {
  wants_pylon = false;
  mode = Mode.html;
  user_param = codes " octocat";
  repo_param = codes "Hello-World";
}

good : is_bad_login (codes "octo") ≡ false
unfolding program
good = refl

other_owner : trim_space request.user_param ≢ codes "octo"
unfolding program
other_owner = λ e. ground arith

serve_repo_other_example :
    held Text-discrete
      (policy blank default_config)
      (repo_key (codes "octo") (codes "cat"))
      (serve_repo draw
        (λ o n. repo blank default_config o n 5 (Fetched.ok shown))
        request
        5
        (StaleCache.new (policy blank default_config))).0
    ≡ held Text-discrete
        (policy blank default_config)
        (repo_key (codes "octo") (codes "cat"))
        (StaleCache.new (policy blank default_config))
serve_repo_other_example =
    Repositories.serve_repo_other draw blank default_config request 5 5 (Fetched.ok shown)
      (codes "octo") (codes "cat") (StaleCache.new (policy blank default_config))
      (Invariant.new-IsValid Text-discrete (policy blank default_config)) good (inl other_owner)

-- one token, never refilled
abbrev allow_n : ℕ → ℕ → ℕ × Bool
allow_n now tokens = (tokens - 1, ltb 0 tokens)

abbrev spent : Limiter ℕ
spent = record {
  cleanup = 300;
  buckets = (codes "192.0.2.1", record { lim = 0; last_seen = 1000 }) ∷ [];
}

refused : (allow 1 allow_n (codes "192.0.2.1") 1001 spent).1 ≡ false
unfolding program
refused = refl

abbrev page : PageResponse
page = bad_gateway draw

abbrev empty : Cache Text
empty = new_with_capacity (pos 2)

middleware-lookup_example :
    (e : Entry Text) × ((lookup Text-discrete (codes "GET /github/octocat") 2000 (
        keep Text-discrete
          (codes "GET /github/octocat")
          1001
          (written []
            (middleware 1 allow_n
              (render_rate_limited draw Mode.html)
              page
              (codes "192.0.2.1")
              1001
              spent).1)
          empty)).1
      ≡ some e)
    × (e.status ≡ 200)
    × (e.body ≡ codes "RATE LIMITED")
middleware-lookup_example =
    Pages.middleware-lookup draw Text-discrete (codes "GET /github/octocat") 1 allow_n page
      (codes "192.0.2.1") 1001 1001 2000 spent [] empty
      (Store.new_with_capacity-IsValid Text-discrete (pos 2)) refused refl (omega arith)
