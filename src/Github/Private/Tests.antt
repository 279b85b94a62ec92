-- ===== src/Github/Private/Tests.antt =====
-- Runs of service/github/profile, and the theorem on private repositories at an input that meets its
-- hypotheses.
use imagelet.Base.{ℕ, ◌≡◌, refl, true, false, [], Option, none, some, if◌then◌else◌}
use imagelet.Base.Int.{pos}
use imagelet.Base.Text.{Text, codes, text_eq, trim_space, trim_left}
use imagelet.Render.{Mode}
use imagelet.StaleCache
use imagelet.StaleCache.{Cache, Fetched}
use imagelet.Dns.Names.{is_empty}
use imagelet.Dns.Page.{Renderer}
use imagelet.GithubCache.{ProfileError, default_config, policy, repo}
use imagelet.Github.Cards.{Repo}
use imagelet.Github.Page.{CardRequest, serve_repo}
use imagelet.Github.Upstream.{
  HttpGet, HttpReply, Sent, replied, RepoResponse, new_get, received, reduce_status, do_get,
  repo_path, release_path, read_repo, read_release, decoded_repo, fetch_latest_release,
  tag_or_blank, to_repo, deref_string, pick_license, instant, fetch_repo,
}
use imagelet.Github.Private
use imagelet.Github.Private.{Shows, Lacks}

program : Unit {0}
unfolding new_get received reduce_status do_get repo_path release_path read_repo read_release
    decoded_repo fetch_latest_release tag_or_blank to_repo deref_string pick_license instant
    fetch_repo is_empty trim_space trim_left Shows Lacks
program = tt

abbrev payload : RepoResponse
payload = record {
  raw_full_name = codes "octo/x";
  private = false;
  raw_description = none;
  raw_stars = pos 12;
  raw_forks = pos 0;
  raw_issues = pos 3;
  raw_language = some (codes "Go");
  raw_license =
      some (record { spdx_id = some (codes "NOASSERTION"); license_name = some (codes "Own") });
  raw_branch = codes "main";
  raw_pushed = [];
}

abbrev hidden : RepoResponse
hidden = record payload { private = true }

abbrev reply : ℕ → Text → HttpReply
reply status body = record { status_code = status; rate_remaining = codes "0"; reply_body = body }

-- a repository "octo/x" with the body "b", and a release
abbrev send : HttpGet → Sent
send g =
    if text_eq g.url (codes "/repos/octo/x")
    then replied (reply 200 (codes "b"))
    else replied (reply 200 (codes "v1"))

abbrev nothing_there : HttpGet → Sent
nothing_there g = replied (reply 404 [])

abbrev parse_time : Text → Option ℕ
parse_time s = none

shows_a_release :
    fetch_repo [] [] send parse_time (λ b. some payload) (λ b. some b) (codes "octo") (codes "x")
    ≡ Fetched.ok (record {
      full_name = codes "octo/x";
      description = [];
      stars = pos 12;
      forks = pos 0;
      open_issues = pos 3;
      language = codes "Go";
      license = codes "Own";
      default_branch = codes "main";
      pushed_at = 0;
      latest_release = codes "v1";
    })
unfolding program
shows_a_release = refl

over_the_limit :
    received [] [] send (replied (reply 403 [])) ≡ Fetched.fail ProfileError.rate_limited
unfolding program
over_the_limit = refl

abbrev draw : Renderer
draw = record {
  banner_multi = λ headline rows mode. some headline;
  banner_boxes = λ headline rows mode. some headline;
  inject_og_meta = λ headline body. body;
}

abbrev blank : Repo
blank = to_repo [] [] send parse_time (λ b. some payload) (λ b. some b) payload []

abbrev request : CardRequest
request = record {
  wants_pylon = false;
  mode = Mode.png;
  user_param = codes "octo ";
  repo_param = codes "x";
}

abbrev empty : Cache Text Repo ProfileError
empty = StaleCache.new (policy blank default_config)

is_shown :
    Shows [] [] send parse_time
      (λ b. some hidden)
      (λ b. some b)
      (trim_space request.user_param)
      (trim_space request.repo_param)
      hidden
unfolding program
is_shown = (reply 200 (codes "b"), refl, refl, refl)

is_lacking :
    Lacks [] [] nothing_there parse_time
      (λ b. some hidden)
      (λ b. some b)
      (trim_space request.user_param)
      (trim_space request.repo_param)
unfolding program
is_lacking = (reply 404 [], refl, refl)

serve_repo-private_example :
    serve_repo draw
      (λ o n.
        repo blank default_config o n 7
          (fetch_repo [] [] send parse_time (λ b. some hidden) (λ b. some b) o n))
      request
      7
      empty
    ≡ serve_repo draw
        (λ o n.
          repo blank default_config o n 7
            (fetch_repo [] [] nothing_there parse_time (λ b. some hidden) (λ b. some b) o n))
        request
        7
        empty
serve_repo-private_example =
    Private.serve_repo-private draw [] [] send nothing_there parse_time (λ b. some hidden)
      (λ b. some b) blank default_config request 7 7 empty hidden is_shown refl is_lacking
