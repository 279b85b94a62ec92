-- ===== src/Github/Private.antt =====
-- service/github, its provider and its cache together: what the pages show of private repositories.
mod Tests
use imagelet.Base.{
  ℕ, ◌≡◌, inl, inr, refl, ap, sym, ◌∙◌, arith, Bool, true, false, [], ◌∷◌, ◌++◌, ◌==◌, Option, none,
  some, Bool-cases, Option-cases,
}
use imagelet.Base.Text.{Text, trim_space}
use imagelet.StaleCache.{Cache, Fetched}
use imagelet.GithubCache.{ProfileError, Config, repo, repo_key}
use imagelet.Render.{Mode}
use imagelet.Dns.Names.{is_empty}
use imagelet.Dns.Page.{Renderer}
use imagelet.Github.Cards.{Repo}
use imagelet.Github.Names.{is_bad_path}
use imagelet.Github.Page.{CardRequest, render_repo, serve_path, serve_repo}
use imagelet.Github.Upstream.{
  HttpGet, HttpReply, Sent, broken, malformed, replied, RepoResponse, reduce_status, received,
  new_get, do_get, repo_path, read_repo, decoded_repo, fetch_repo, fetch_latest_release,
  tag_or_blank, to_repo,
}

module _ (endpoint token : Text) (send : HttpGet → Sent) (parse_time : Text → Option ℕ)
    (decode_repo : Text → Option RepoResponse) (decode_release : Text → Option Text) where
  -- what GitHub says of a repository: a payload, or that there is none
  unfoldable pub Shows : Text → Text → RepoResponse → Type 0
  Shows owner name raw =
      (r : HttpReply) × (send (new_get endpoint token send (repo_path owner name)) ≡ replied r)
      × (r.status_code ≡ 200)
      × (decode_repo r.reply_body ≡ some raw)

  unfoldable pub Lacks : Text → Text → Type 0
  Lacks owner name =
      (r : HttpReply) × (send (new_get endpoint token send (repo_path owner name)) ≡ replied r)
      × (r.status_code ≡ 404)

  fetch_repo-Shows :
      (owner name : Text) (raw : RepoResponse)
      → Shows owner name raw
      → fetch_repo endpoint token send parse_time decode_repo decode_release owner name
        ≡ decoded_repo endpoint token send parse_time decode_repo decode_release owner name
            (some raw)
  unfolding Shows fetch_repo do_get received reduce_status read_repo
  fetch_repo-Shows owner name raw (r, sent, status, json) = rw (sent, status, json) refl

  fetch_repo-private :
      (owner name : Text) (raw : RepoResponse)
      → Shows owner name raw
      → raw.private ≡ true
      → fetch_repo endpoint token send parse_time decode_repo decode_release owner name
        ≡ Fetched.fail ProfileError.not_found
  unfolding decoded_repo
  fetch_repo-private owner name raw s h = fetch_repo-Shows owner name raw s ∙ rw h refl

  fetch_repo-Lacks :
      (owner name : Text)
      → Lacks owner name
      → fetch_repo endpoint token send parse_time decode_repo decode_release owner name
        ≡ Fetched.fail ProfileError.not_found
  unfolding Lacks fetch_repo do_get received reduce_status read_repo
  fetch_repo-Lacks owner name (r, sent, status) = rw (sent, status) refl

module _ (renderer : Renderer) where
  serve_path_agree :
      {S : Type 0} (look look' : Text → Text → S → S × Repo × Option ProfileError) (mode : Mode)
      (clock : ℕ) (owner name : Text) (s : S)
      → look owner name s ≡ look' owner name s
      → serve_path renderer look mode clock owner name s
        ≡ serve_path renderer look' mode clock owner name s
  unfolding serve_path
  serve_path_agree look look' mode clock owner name s p =
      elim (Bool-cases (is_bad_path owner name)) [
        | inl e ↦ rw e refl
        | inr e ↦
            rw e (ap (λ x. (x.0, render_repo renderer mode clock (repo_key owner name) x.1 x.2)) p)
      ]

  serve_repo_agree :
      {S : Type 0} (look look' : Text → Text → S → S × Repo × Option ProfileError) (c : CardRequest)
      (clock : ℕ) (s : S)
      → look (trim_space c.user_param) (trim_space c.repo_param) s
        ≡ look' (trim_space c.user_param) (trim_space c.repo_param) s
      → serve_repo renderer look c clock s ≡ serve_repo renderer look' c clock s
  unfolding serve_repo
  serve_repo_agree look look' c clock s p = elim (Bool-cases c.wants_pylon) [
    | inl e ↦ rw e refl
    | inr e ↦ rw e (
        serve_path_agree look look' c.mode clock (trim_space c.user_param) (trim_space c.repo_param)
          s p)
  ]

  -- When GitHub shows the server, with its token, a repository that is private, the handler and the
  -- cache do what they do where GitHub says that there is no such repository: the response and the
  -- state of the cache are the same, whatever the cache held.
  pub serve_repo-private :
      (endpoint token : Text) (send send' : HttpGet → Sent) (parse_time : Text → Option ℕ)
      (decode_repo : Text → Option RepoResponse) (decode_release : Text → Option Text)
      (blank : Repo) (config : Config) (c : CardRequest) (clock now : ℕ)
      (s : Cache Text Repo ProfileError) (raw : RepoResponse)
      → Shows endpoint token send parse_time decode_repo decode_release
          (trim_space c.user_param)
          (trim_space c.repo_param)
          raw
      → raw.private ≡ true
      → Lacks endpoint token send' parse_time decode_repo decode_release
          (trim_space c.user_param)
          (trim_space c.repo_param)
      → serve_repo renderer
          (λ o n.
            repo blank config o n now
              (fetch_repo endpoint token send parse_time decode_repo decode_release o n))
          c
          clock
          s
        ≡ serve_repo renderer
            (λ o n.
              repo blank config o n now
                (fetch_repo endpoint token send' parse_time decode_repo decode_release o n))
            c
            clock
            s
  serve_repo-private endpoint token send send' parse_time decode_repo decode_release blank config c
        clock now s raw shows h lacks =
      let owner = trim_space c.user_param in
      let name = trim_space c.repo_param in
      serve_repo_agree _ _ c clock s (
        ap (λ f. repo blank config owner name now f s)
          (fetch_repo-private endpoint token send parse_time decode_repo decode_release owner name
              raw shows h
            ∙ sym (
                fetch_repo-Lacks endpoint token send' parse_time decode_repo decode_release owner
                  name lacks)))
