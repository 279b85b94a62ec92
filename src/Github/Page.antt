-- ===== src/Github/Page.antt =====
-- service/github/github.go: the handlers of /github/:user and /github/:user/:repo. The drawing and
-- the response are those of Dns/Page.
use imagelet.Base.{ℕ, Bool, List, [], ◌∷◌, ◌++◌, Option, none, some, ◌==◌, if◌then◌else◌}
use imagelet.Base.Text.{Text, codes, trim_space, to_upper}
use imagelet.Render.{Mode}
use imagelet.Dns.Names.{is_empty}
use imagelet.Dns.Page.{PageResponse, Renderer, vary_user_agent, drawn, bad_gateway}
use imagelet.GithubCache.{ProfileError, repo_key}
use imagelet.Github.Names.{is_bad_login, is_bad_path}
use imagelet.Github.Cards.{Profile, Repo, user_captions, repo_captions}

abbrev pub user_max_age : ℕ
user_max_age = 600

abbrev pub repo_max_age : ℕ
repo_max_age = 120

abbrev pub not_found_max_age : ℕ
not_found_max_age = 3600

abbrev pub rate_limit_max_age : ℕ
rate_limit_max_age = 60

abbrev pub pylon_unsupported_msg : Text
pylon_unsupported_msg =
    codes "pylon source is not supported on /github; try ?format=png|svg|html|ascii"

-- what a handler reads of a request: `WantsPylonSource`, `ResolveMode` and the route's parameters
pub record CardRequest : Type 0 where
  pub wants_pylon : Bool
  pub mode : Mode
  pub user_param : Text
  pub repo_param : Text

abbrev pub plain : ℕ → Option Text → Text → PageResponse
plain status cache_control body = record {
  status = status;
  vary = vary_user_agent;
  cache_control = cache_control;
  content_type = some (codes "text/plain; charset=utf-8");
  body = body;
}

abbrev pub unsupported : PageResponse
unsupported = plain 415 none pylon_unsupported_msg

abbrev pub invalid : Text → PageResponse
invalid text = plain 400 (some (codes "no-store")) text

-- the name behind the first slash, or the text if it has none
unfoldable pub after_slash : Text → Option Text
after_slash [] = none
after_slash (c ∷ s) = let rest = after_slash s in if c == b'/' then some s else rest

unfoldable pub repo_headline : Text → Text
unfolding after_slash to_upper
repo_headline full_name = elim (after_slash full_name) [
  | none ↦ to_upper full_name
  | some name ↦ to_upper name
]

module _ (renderer : Renderer) where
  unfoldable pub write_banner : Mode → Text → List Text → ℕ → ℕ → PageResponse
  unfolding drawn
  write_banner mode headline captions status max_age =
      drawn renderer mode headline status max_age (renderer.banner_multi headline captions mode)

  unfoldable pub render_not_found : Mode → Text → PageResponse
  unfolding write_banner
  render_not_found mode target =
      write_banner mode (codes "NOT FOUND") (target ∷ []) 404 not_found_max_age

  -- `renderRateLimited`, which `RateLimitedHandler` exports
  unfoldable pub render_rate_limited : Mode → PageResponse
  unfolding write_banner
  render_rate_limited mode =
      write_banner mode (codes "RATE LIMITED") (codes "try again later" ∷ []) 200 rate_limit_max_age

  -- the `default` of `renderUser` and of `renderRepo`, by the name in the record and its rows
  unfoldable pub render_unavailable : Mode → Text → Text → List Text → PageResponse
  unfolding is_empty write_banner
  render_unavailable mode headline named captions =
      if is_empty named
      then bad_gateway renderer
      else write_banner mode headline (captions ++ (codes "( stale data )" ∷ [])) 200
          rate_limit_max_age

  module _ (format_month : ℕ → Text) where
    unfoldable pub render_user : Mode → Text → Profile → Option ProfileError → PageResponse
    unfolding render_unavailable render_not_found render_rate_limited write_banner user_captions
        to_upper
    render_user mode login p none =
        write_banner mode (to_upper login) (user_captions format_month p) 200 user_max_age
    render_user mode login p (some ProfileError.not_found) = render_not_found mode login
    render_user mode login p (some ProfileError.rate_limited) = render_rate_limited mode
    render_user mode login p (some ProfileError.unavailable) =
        render_unavailable mode (to_upper login) p.login (user_captions format_month p)
    render_user mode login p (some (ProfileError.other n)) =
        render_unavailable mode (to_upper login) p.login (user_captions format_month p)

    module _ {S : Type 0} (look : Text → S → S × Profile × Option ProfileError) where
      -- `serveUser`, with the state of the provider it calls
      unfoldable pub serve_login : Mode → Text → S → S × PageResponse
      unfolding is_bad_login render_user
      serve_login mode login s =
          if is_bad_login login
          then (s, invalid (codes "invalid login\n"))
          else let (s', p, err) = look login s in (s', render_user mode login p err)

      unfoldable pub serve_user : CardRequest → S → S × PageResponse
      unfolding serve_login trim_space
      serve_user c s =
          if c.wants_pylon then (s, unsupported) else serve_login c.mode (trim_space c.user_param) s

  unfoldable pub render_repo : Mode → ℕ → Text → Repo → Option ProfileError → PageResponse
  unfolding render_unavailable render_not_found render_rate_limited write_banner repo_captions
      repo_headline
  render_repo mode now full_name r none =
      write_banner mode (repo_headline full_name) (repo_captions now r) 200 repo_max_age
  render_repo mode now full_name r (some ProfileError.not_found) = render_not_found mode full_name
  render_repo mode now full_name r (some ProfileError.rate_limited) = render_rate_limited mode
  render_repo mode now full_name r (some ProfileError.unavailable) =
      render_unavailable mode (repo_headline full_name) r.full_name (repo_captions now r)
  render_repo mode now full_name r (some (ProfileError.other n)) =
      render_unavailable mode (repo_headline full_name) r.full_name (repo_captions now r)

  module _ {S : Type 0} (look : Text → Text → S → S × Repo × Option ProfileError) where
    unfoldable pub serve_path : Mode → ℕ → Text → Text → S → S × PageResponse
    unfolding is_bad_path render_repo repo_key
    serve_path mode now owner name s =
        if is_bad_path owner name
        then (s, invalid (codes "invalid path\n"))
        else let (s', r, err) = look owner name s in
          (s', render_repo mode now (repo_key owner name) r err)

    -- `serveRepo`; `now` is the reading of `humanizePushed`
    unfoldable pub serve_repo : CardRequest → ℕ → S → S × PageResponse
    unfolding serve_path trim_space
    serve_repo c now s =
        if c.wants_pylon
        then (s, unsupported)
        else serve_path c.mode now (trim_space c.user_param) (trim_space c.repo_param) s
