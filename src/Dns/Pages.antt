-- ===== src/Dns/Pages.antt =====
-- service/dns/dns.go: what the handler of /dns answers, alone, behind the response cache of
-- internal/htmlcache and in front of the DNS cache of service/dns/resolver/cached.
use imagelet.Base.{
  ℕ, ◌+◌, ◌≡◌, ◌≢◌, ◌⊎◌, ◌≤◌, ◌<◌, refl, ap, ◌∙◌, arith, Bool, true, false, List, [], ◌∷◌, ◌++◌,
  Option, none, some, Bool-cases, inl, inr,
}
use imagelet.Base.Text.{Text, codes, trim_space, Text-discrete}
use imagelet.HtmlCache.Policy.{Captured, should_store, parse_max_age, seconds}
use imagelet.StaleCache.{Entry, Fetched, is_ok}
use imagelet.StaleCache.Answers.{held}
use imagelet.StaleCache.Invariant.{IsValid}
use imagelet.StaleCache.Later.{Call, calls, AllBefore}
use imagelet.DnsCache.{Hosts, LookupError, Records, Config, policy, lookup_host}
use imagelet.DnsCache.Deadlines.{lookup_host_unavailable}
use imagelet.Render.{Mode}
use imagelet.Dns.Addresses.{Addr}
use imagelet.Dns.Records.{Sets}
use imagelet.Dns.Names.{is_empty}
use imagelet.Dns.Lookup.{no_sets}
use imagelet.Dns.HostNames.{if_none}
use imagelet.Dns.Hosts.{validate_and_canonicalize}
use imagelet.Dns.Captions.{dns_captions, dns_headline}
use imagelet.Dns.Page.{
  PageResponse, PageRequest, Renderer, vary_user_agent, bad_gateway, public_max_age, drawn,
  write_banner, write_banner_left, render_not_found, render_self_throttled, render_unavailable,
  render_page, serve_valid, serve_dns,
}

-- `headersOf` for a header that is not set
abbrev header_value : Option Text → Text
header_value none = []
header_value (some s) = s

-- what the response cache's writer records of a response
unfoldable pub captured_response : PageResponse → Captured
captured_response r = record {
  status_code = r.status;
  content_type = header_value r.content_type;
  cache_control = header_value r.cache_control;
}

pub store_refused : (w : Captured) → 300 ≤ w.status_code → should_store w ≡ none
unfolding should_store
store_refused w h = ground arith

store_age :
    (w : Captured) {d : ℕ} → should_store w ≡ some d → parse_max_age w.cache_control ≡ some d
unfolding should_store
store_age w {d} h = (if_none _ _ d (if_none _ _ d h).1).1

pub none-some : {o : Option ℕ} {d : ℕ} → o ≡ none → o ≡ some d → ⊥
none-some e f = ground arith

pub same_age : {o : Option ℕ} {d e : ℕ} → o ≡ some d → o ≡ some e → d ≡ e
same_age p q = ground arith

parse_300 : parse_max_age (public_max_age 300) ≡ some (seconds 300)
unfolding parse_max_age public_max_age
parse_300 = refl

pub parse_60 : parse_max_age (public_max_age 60) ≡ some (seconds 60)
unfolding parse_max_age public_max_age
parse_60 = refl

module _ (renderer : Renderer) where
  pub drawn_refused :
      (mode : Mode) (headline : Text) (status max_age : ℕ) (body : Option Text)
      → 300 ≤ status
      → should_store (captured_response (drawn renderer mode headline status max_age body)) ≡ none
  unfolding drawn captured_response
  drawn_refused mode headline status max_age none h = store_refused _ (omega arith)
  drawn_refused mode headline status max_age (some body) h = store_refused _ h

  pub drawn_lifetime :
      (mode : Mode) (headline : Text) (status max_age : ℕ) (body : Option Text) {d : ℕ}
      → should_store (captured_response (drawn renderer mode headline status max_age body)) ≡ some d
      → parse_max_age (public_max_age max_age) ≡ some d
  unfolding drawn captured_response
  drawn_lifetime mode headline status max_age none h = store_age _ h
  drawn_lifetime mode headline status max_age (some body) h = store_age _ h

module _ (renderer : Renderer) (addr_string : Addr → Text) where
  drawn-vary :
      (mode : Mode) (headline : Text) (status max_age : ℕ) (body : Option Text)
      → (drawn renderer mode headline status max_age body).vary ≡ vary_user_agent
  unfolding drawn
  drawn-vary mode headline status max_age none = refl
  drawn-vary mode headline status max_age (some body) = refl

  render_unavailable-vary :
      (mode : Mode) (host : Text) (recs : Records Sets)
      → (render_unavailable renderer addr_string mode host recs).vary ≡ vary_user_agent
  unfolding render_unavailable write_banner_left
  render_unavailable-vary mode host recs = elim (Bool-cases (is_empty recs.hostname)) [
    | inl e ↦ rw e refl
    | inr e ↦ rw e (drawn-vary mode (dns_headline host) 200 60 _)
  ]

  render_page-vary :
      (mode : Mode) (host : Text) (recs : Records Sets) (err : Option LookupError)
      → (render_page renderer addr_string mode host recs err).vary ≡ vary_user_agent
  unfolding render_page write_banner_left render_not_found render_self_throttled write_banner
  render_page-vary mode host recs none = drawn-vary mode (dns_headline host) 200 300 _
  render_page-vary mode host recs (some LookupError.not_found) =
      drawn-vary mode (codes "NOT FOUND") 404 3600 _
  render_page-vary mode host recs (some LookupError.self_throttled) =
      drawn-vary mode (codes "RATE LIMITED") 503 60 _
  render_page-vary mode host recs (some LookupError.unavailable) =
      render_unavailable-vary mode host recs
  render_page-vary mode host recs (some (LookupError.other n)) =
      render_unavailable-vary mode host recs

  module _ {S : Type 0} (look : Text → S → S × Records Sets × Option LookupError) where
    serve_valid-vary :
        (mode : Mode) (host : Option Text) (s : S)
        → (serve_valid renderer addr_string look mode host s).1.vary ≡ vary_user_agent
    unfolding serve_valid
    serve_valid-vary mode none s = refl
    serve_valid-vary mode (some host) s = render_page-vary mode host (look host s).1 (look host s).2

    -- Every response of /dns, errors and refusals included, varies by User-Agent, so that no cache on
    -- the way gives one kind of client the body of another.
    pub serve_dns-vary :
        (parses_as_addr : Text → Bool) (to_ascii : Text → Option Text) (c : PageRequest) (s : S)
        → (serve_dns renderer addr_string look parses_as_addr to_ascii c s).1.vary ≡ vary_user_agent
    unfolding serve_dns
    serve_dns-vary parses_as_addr to_ascii c s = elim (Bool-cases c.wants_pylon) [
      | inl e ↦ rw e refl
      | inr e ↦ rw e (
          serve_valid-vary c.mode
            (validate_and_canonicalize parses_as_addr to_ascii (trim_space c.hostname)) s)
    ]

  render_unavailable-should_store :
      (mode : Mode) (host : Text) (recs : Records Sets) {d : ℕ}
      → should_store (captured_response (render_unavailable renderer addr_string mode host recs))
        ≡ some d
      → (is_empty recs.hostname ≡ false) × (d ≡ seconds 60)
  unfolding render_unavailable write_banner_left captured_response
  render_unavailable-should_store mode host recs h = elim (Bool-cases (is_empty recs.hostname)) [
    | inl e ↦ absurd (
        ground (
          arith,
          store_refused (captured_response (bad_gateway renderer)) (omega arith),
          rw e at h,
        ))
    | inr e ↦ (
      e,
      same_age (drawn_lifetime renderer mode (dns_headline host) 200 60 _ (rw e at h)) parse_60,
    )
  ]

  -- Of what the handler renders after a lookup, the response cache stores a page only if the lookup
  -- succeeded, and then for 300 seconds, or if it failed for another reason than a missing host or
  -- the limiter of the resolver, with old records to show, and then for 60 seconds. The refusal of
  -- the limiter per client is no such page.
  pub render_page-should_store :
      (mode : Mode) (host : Text) (recs : Records Sets) (err : Option LookupError) {d : ℕ}
      → should_store (captured_response (render_page renderer addr_string mode host recs err))
        ≡ some d
      → ((err ≡ none) × (d ≡ seconds 300))
        ⊎ ((err ≢ none)
            × (err ≢ some LookupError.not_found)
            × (err ≢ some LookupError.self_throttled)
            × (is_empty recs.hostname ≡ false)
            × (d ≡ seconds 60))
  unfolding render_page write_banner_left render_not_found render_self_throttled write_banner
  render_page-should_store mode host recs none h =
      inl (refl, same_age (drawn_lifetime renderer mode (dns_headline host) 200 300 _ h) parse_300)
  render_page-should_store mode host recs (some LookupError.not_found) h =
      absurd
        (none-some (drawn_refused renderer mode (codes "NOT FOUND") 404 3600 _ (omega arith)) h)
  render_page-should_store mode host recs (some LookupError.self_throttled) h =
      absurd
        (none-some (drawn_refused renderer mode (codes "RATE LIMITED") 503 60 _ (omega arith)) h)
  render_page-should_store mode host recs (some LookupError.unavailable) h =
      let (kept, age) = render_unavailable-should_store mode host recs h in
      inr (λ e. ground arith, λ e. ground arith, λ e. ground arith, kept, age)
  render_page-should_store mode host recs (some (LookupError.other n)) h =
      let (kept, age) = render_unavailable-should_store mode host recs h in
      inr (λ e. ground arith, λ e. ground arith, λ e. ground arith, kept, age)

  stale_page :
      (mode : Mode) (host : Text) {r x : Records Sets} {err : Option LookupError}
      → x ≡ r
      → err ≡ some LookupError.unavailable
      → is_empty r.hostname ≡ false
      → render_page renderer addr_string mode host x err
        ≡ write_banner_left renderer mode
            (dns_headline host)
            (dns_captions addr_string r.sets ++ (codes "( stale data )" ∷ []))
            200
            60
  unfolding render_page render_unavailable
  stale_page mode host {r} {err} p q named =
      ap (λ x. render_page renderer addr_string mode host x err) p
      ∙ ap (render_page renderer addr_string mode host r) q
      ∙ rw named refl

  fresh_page :
      (mode : Mode) (host : Text) {r x : Records Sets} {err : Option LookupError}
      → x ≡ r
      → err ≡ none
      → render_page renderer addr_string mode host x err
        ≡ write_banner_left renderer mode
            (dns_headline host)
            (dns_captions addr_string r.sets)
            200
            300
  unfolding render_page
  fresh_page mode host {r} {err} p q =
      ap (λ x. render_page renderer addr_string mode host x err) p
      ∙ ap (render_page renderer addr_string mode host r) q

  module _ (config : Config) where
    -- the page of a host that is looked up in the cache at some time
    unfoldable pub page_at :
        Mode
        → Text
        → ℕ
        → Fetched (Records Sets) LookupError
        → Hosts Sets
        → Hosts Sets × PageResponse
    unfolding render_page lookup_host
    page_at mode host now fetched c =
        let (c', recs, err) = lookup_host no_sets config host now fetched c in
        (c', render_page renderer addr_string mode host recs err)

    -- On a valid cache, when the held records of a host have expired and the upstream is
    -- unavailable, the page shows the old records with the caption of stale data and for 60
    -- seconds; but until the failure TTL has passed every later page of the host shows them as if
    -- they were fresh, without the caption and for 300 seconds, whatever lookups came in between.
    pub page_at_unavailable :
        (mode : Mode) (host : Text) (now later : ℕ) (g : Fetched (Records Sets) LookupError)
        (e : Entry (Records Sets) LookupError)
        (between : List (Call Text (Records Sets) LookupError)) (c : Hosts Sets)
        → IsValid Text-discrete (policy no_sets config) c
        → held Text-discrete (policy no_sets config) host c ≡ some e
        → is_ok e.state ≡ true
        → is_empty e.records.hostname ≡ false
        → e.deadline ≤ now
        → AllBefore Text-discrete (policy no_sets config) (now + config.failure) between
        → later < now + config.failure
        → ((page_at mode host now (Fetched.fail LookupError.unavailable) c).1
            ≡ write_banner_left renderer mode
                (dns_headline host)
                (dns_captions addr_string e.records.sets ++ (codes "( stale data )" ∷ []))
                200
                60)
          × ((page_at mode host later g (
                calls Text-discrete
                  (policy no_sets config)
                  between
                  (page_at mode host now (Fetched.fail LookupError.unavailable) c).0)).1
              ≡ write_banner_left renderer mode
                  (dns_headline host)
                  (dns_captions addr_string e.records.sets)
                  200
                  300)
    unfolding page_at
    page_at_unavailable mode host now later g e between c i h o named old before fresh =
        let (recs, err, recs', err') =
          lookup_host_unavailable no_sets config host now later g e between c i h o old before
            fresh in
        (stale_page mode host recs err named, fresh_page mode host recs' err')
