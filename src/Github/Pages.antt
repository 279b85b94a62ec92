-- ===== src/Github/Pages.antt =====
-- service/github/github.go behind internal/htmlcache/htmlcache.go and middleware/iplimit/iplimit.go:
-- which pages of /github are stored and served to other clients.
use imagelet.Base.{
  ℕ, ◌+◌, ◌*◌, ◌^◌, ◌<◌, ◌≡◌, ◌≢◌, ◌⊎◌, inl, inr, refl, ap, ◌∙◌, arith, Bool, false, List, [], ◌∷◌,
  Option, none, some, Bool-cases,
}
use imagelet.Base.Text.{Text, codes, to_upper}
use imagelet.HtmlCache.Policy.{add_duration, should_store, parse_max_age, seconds}
use imagelet.HtmlCache.{Header, Entry, Cache, lookup, store}
use imagelet.HtmlCache.Flight.{Rendered, keep}
use imagelet.HtmlCache.Store.{IsValid, lookup-store}
use imagelet.IpLimit.{Limiter, allow, middleware}
use imagelet.Render.{Mode}
use imagelet.Dns.Names.{is_empty}
use imagelet.Dns.Page.{PageResponse, Renderer, bad_gateway, public_max_age, drawn}
use imagelet.Dns.Pages.{
  captured_response, store_refused, none-some, same_age, drawn_refused, drawn_lifetime, parse_60,
}
use imagelet.GithubCache.{ProfileError}
use imagelet.Github.Cards.{Profile}
use imagelet.Github.Page.{
  write_banner, render_not_found, render_rate_limited, render_unavailable, render_user,
}

parse_600 : parse_max_age (public_max_age 600) ≡ some (seconds 600)
unfolding parse_max_age public_max_age
parse_600 = refl

-- what the writer of the response cache has of a page
unfoldable pub written : Header → PageResponse → Rendered
unfolding captured_response
written headers r = record { captured = captured_response r; headers = headers; body = r.body }

-- an entry that was stored with a lifetime of 60 seconds, at a time within them
stored_served :
    {K : Type 0} (dec : Discrete K) (now later : ℕ) (e : Entry K) (c : Cache K)
    → IsValid dec c
    → e.deadline ≡ add_duration now (seconds 60)
    → later < now + 60 * 10 ^ 9
    → (lookup dec e.key later (store dec e c)).1 ≡ some e
unfolding add_duration
stored_served dec now later e c i d soon = (lookup-store dec e later i).0 ∙ ground arith

-- A page that is stored for 60 seconds is served from the cache within them.
keep_served :
    {K : Type 0} (dec : Discrete K) (key : K) (now later : ℕ) (headers : Header) (r : PageResponse)
    (c : Cache K)
    → IsValid dec c
    → should_store (captured_response r) ≡ some (seconds 60)
    → later < now + 60 * 10 ^ 9
    → (e : Entry K) × ((lookup dec key later (keep dec key now (written headers r) c)).1 ≡ some e)
      × (e.status ≡ r.status)
      × (e.body ≡ r.body)
unfolding keep written
keep_served dec key now later headers r c i h soon =
    rw (h, keep) (_, stored_served dec now later _ c i refl soon, refl, refl)

module _ (renderer : Renderer) where
  render_unavailable-should_store :
      (mode : Mode) (headline named : Text) (captions : List Text) {d : ℕ}
      → should_store (captured_response (render_unavailable renderer mode headline named captions))
        ≡ some d
      → (is_empty named ≡ false) × (d ≡ seconds 60)
  unfolding render_unavailable write_banner captured_response
  render_unavailable-should_store mode headline named captions h =
      elim (Bool-cases (is_empty named)) [
        | inl e ↦ absurd (
            ground (
              arith,
              store_refused (captured_response (bad_gateway renderer)) (omega arith),
              rw e at h,
            ))
        | inr e ↦
            (e, same_age (drawn_lifetime renderer mode headline 200 60 _ (rw e at h)) parse_60)
      ]

  -- Of what the handler renders after it has asked for a user, the response cache stores a page only
  -- if the profile was had, and then for 600 seconds, or if GitHub refused the server, or if asking
  -- failed otherwise and there was an old profile to show, and then for 60 seconds; it never stores
  -- that a user is not found. The refusal of the limiter per client is no such page.
  pub render_user-should_store :
      (format_month : ℕ → Text) (mode : Mode) (login : Text) (p : Profile)
      (err : Option ProfileError) {d : ℕ}
      → should_store (captured_response (render_user renderer format_month mode login p err))
        ≡ some d
      → ((err ≡ none) × (d ≡ seconds 600))
        ⊎ ((err ≢ none)
            × (err ≢ some ProfileError.not_found)
            × ((err ≡ some ProfileError.rate_limited) ⊎ (is_empty p.login ≡ false))
            × (d ≡ seconds 60))
  unfolding render_user render_not_found render_rate_limited write_banner
  render_user-should_store format_month mode login p none h =
      inl (refl, same_age (drawn_lifetime renderer mode (to_upper login) 200 600 _ h) parse_600)
  render_user-should_store format_month mode login p (some ProfileError.not_found) h =
      absurd
        (none-some (drawn_refused renderer mode (codes "NOT FOUND") 404 3600 _ (omega arith)) h)
  render_user-should_store format_month mode login p (some ProfileError.rate_limited) h = inr (
    λ e. ground arith,
    λ e. ground arith,
    inl refl,
    same_age (drawn_lifetime renderer mode (codes "RATE LIMITED") 200 60 _ h) parse_60,
  )
  render_user-should_store format_month mode login p (some ProfileError.unavailable) h =
      let (kept, age) = render_unavailable-should_store mode (to_upper login) p.login _ h in
      inr (λ e. ground arith, λ e. ground arith, inr kept, age)
  render_user-should_store format_month mode login p (some (ProfileError.other n)) h =
      let (kept, age) = render_unavailable-should_store mode (to_upper login) p.login _ h in
      inr (λ e. ground arith, λ e. ground arith, inr kept, age)

  refusal_status :
      {body : Text}
      → renderer.banner_multi (codes "RATE LIMITED") (codes "try again later" ∷ []) Mode.html
        ≡ some body
      → (render_rate_limited renderer Mode.html).status ≡ 200
  unfolding render_rate_limited write_banner drawn
  refusal_status e = rw e refl

  refusal_text :
      {body : Text}
      → renderer.banner_multi (codes "RATE LIMITED") (codes "try again later" ∷ []) Mode.html
        ≡ some body
      → (render_rate_limited renderer Mode.html).body
        ≡ renderer.inject_og_meta (codes "RATE LIMITED") body
  unfolding render_rate_limited write_banner drawn
  refusal_text e = rw e refl

  limited_page :
      {body : Text}
      → renderer.banner_multi (codes "RATE LIMITED") (codes "try again later" ∷ []) Mode.html
        ≡ some body
      → should_store (captured_response (render_rate_limited renderer Mode.html))
        ≡ some (seconds 60)
  unfolding render_rate_limited write_banner captured_response should_store drawn
  limited_page e = rw e parse_60

  middleware_refused :
      {L : Type 0} (fresh : L) (allow_n : ℕ → L → L × Bool) (next : PageResponse) (ip : Text)
      (now : ℕ) (l : Limiter L)
      → (allow fresh allow_n ip now l).1 ≡ false
      → (middleware fresh allow_n (render_rate_limited renderer Mode.html) next ip now l).1
        ≡ render_rate_limited renderer Mode.html
  unfolding middleware
  middleware_refused fresh allow_n next ip now l refused = rw refused refl

  -- When the limiter of one client refuses a request for a page in HTML and the refusal can be drawn,
  -- a valid response cache keeps the refusal under the key of the page: the next lookup of that key,
  -- whoever makes it, finds the refusal if less than 60 seconds have passed since the cache
  -- first read the clock, with the status 200.
  pub middleware-lookup :
      {K L : Type 0} (dec : Discrete K) (key : K) (fresh : L) (allow_n : ℕ → L → L × Bool)
      (next : PageResponse) (ip : Text) (now asked later : ℕ) (l : Limiter L) (headers : Header)
      (c : Cache K) {body : Text}
      → IsValid dec c
      → (allow fresh allow_n ip asked l).1 ≡ false
      → renderer.banner_multi (codes "RATE LIMITED") (codes "try again later" ∷ []) Mode.html
        ≡ some body
      → later < now + 60 * 10 ^ 9
      → (e : Entry K) × ((lookup dec key later (
            keep dec key now
              (written headers
                (middleware fresh allow_n
                  (render_rate_limited renderer Mode.html)
                  next
                  ip
                  asked
                  l).1)
              c)).1
          ≡ some e)
        × (e.status ≡ 200)
        × (e.body ≡ renderer.inject_og_meta (codes "RATE LIMITED") body)
  middleware-lookup dec key fresh allow_n next ip now asked later l headers c i refused e soon =
      let p = middleware_refused fresh allow_n next ip asked l refused in
      let (x, hit, status, text) =
        keep_served dec key now later headers
          (middleware fresh allow_n (render_rate_limited renderer Mode.html) next ip asked l).1 c i
          (ap (λ r. should_store (captured_response r)) p ∙ limited_page e) soon in
      (
        x,
        hit,
        status ∙ ap (λ r. r.status) p ∙ refusal_status e,
        text ∙ ap (λ r. r.body) p ∙ refusal_text e,
      )
