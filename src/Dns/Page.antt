-- ===== src/Dns/Page.antt =====
-- service/dns/dns.go: the handler of /dns/:hostname. A renderer of package render, which draws a
-- banner or fails, is a parameter, and so is the page's link header for previews.
use imagelet.Base.{ℕ, Bool, List, [], ◌∷◌, ◌++◌, Option, none, some, if◌then◌else◌}
use imagelet.Base.Text.{Text, codes, trim_space}
use imagelet.Render.{Mode}
use imagelet.DnsCache.{LookupError, Records}
use imagelet.Dns.Addresses.{Addr}
use imagelet.Dns.Records.{Sets}
use imagelet.Dns.Names.{is_empty}
use imagelet.Dns.Hosts.{validate_and_canonicalize}
use imagelet.Dns.Captions.{decimal, dns_captions, dns_headline}

abbrev pub ok_max_age : ℕ
ok_max_age = 300

abbrev pub not_found_max_age : ℕ
not_found_max_age = 3600

abbrev pub rate_limit_max_age : ℕ
rate_limit_max_age = 60

abbrev pub stale_max_age : ℕ
stale_max_age = 60

abbrev pub pylon_unsupported_msg : Text
pylon_unsupported_msg =
    codes "pylon source is not supported on /dns; try ?format=png|svg|html|ascii"

pub record PageResponse : Type 0 where
  pub status : ℕ
  pub vary : Option Text
  pub cache_control : Option Text
  pub content_type : Option Text
  pub body : Text

-- what the handler reads of a request: `WantsPylonSource`, `ResolveMode` and the route's parameter
pub record PageRequest : Type 0 where
  pub wants_pylon : Bool
  pub mode : Mode
  pub hostname : Text

-- the package's drawing: `BannerMulti`, `BannerBoxes` with one block of rows, `InjectOGMeta`
pub record Renderer : Type 0 where
  pub banner_multi : Text → List Text → Mode → Option Text
  pub banner_boxes : Text → List Text → Mode → Option Text
  pub inject_og_meta : Text → Text → Text

abbrev pub vary_user_agent : Option Text
vary_user_agent = some (codes "User-Agent")

-- `fmt.Sprintf("public, max-age=%d", maxAge)`
unfoldable pub public_max_age : ℕ → Text
unfolding decimal
public_max_age max_age = codes "public, max-age=" ++ decimal max_age

module _ (renderer : Renderer) where
  unfoldable pub typed : Mode → Text → Text → Text × Text
  typed Mode.png headline body = (codes "image/png", body)
  typed Mode.svg headline body = (codes "image/svg+xml", body)
  typed Mode.html headline body =
      (codes "text/html; charset=utf-8", renderer.inject_og_meta headline body)
  typed Mode.ascii headline body = (codes "text/plain; charset=utf-8", body)

  -- the end of `writeBanner` and of `writeBannerLeft`: what they do with the drawing
  unfoldable pub drawn : Mode → Text → ℕ → ℕ → Option Text → PageResponse
  unfolding typed public_max_age
  drawn mode headline status max_age none = record {
    status = 500;
    vary = vary_user_agent;
    cache_control = some (public_max_age max_age);
    content_type = none;
    body = [];
  }
  drawn mode headline status max_age (some body) =
      let (kind, text) = typed mode headline body in
      record {
        status = status;
        vary = vary_user_agent;
        cache_control = some (public_max_age max_age);
        content_type = some kind;
        body = text;
      }

  unfoldable pub write_banner_left : Mode → Text → List Text → ℕ → ℕ → PageResponse
  unfolding drawn
  write_banner_left mode headline rows status max_age =
      drawn mode headline status max_age (renderer.banner_boxes headline rows mode)

  unfoldable pub write_banner : Mode → Text → List Text → ℕ → ℕ → PageResponse
  unfolding drawn
  write_banner mode headline captions status max_age =
      drawn mode headline status max_age (renderer.banner_multi headline captions mode)

  unfoldable pub render_not_found : Mode → Text → PageResponse
  unfolding write_banner
  render_not_found mode host =
      write_banner mode (codes "NOT FOUND") (host ∷ []) 404 not_found_max_age

  -- `renderRateLimited`, which `RateLimitedHandler` exports
  unfoldable pub render_rate_limited : Mode → PageResponse
  unfolding write_banner
  render_rate_limited mode =
      write_banner mode (codes "RATE LIMITED") (codes "try again later" ∷ []) 200 rate_limit_max_age

  unfoldable pub render_self_throttled : Mode → PageResponse
  unfolding write_banner
  render_self_throttled mode =
      write_banner mode (codes "RATE LIMITED") (codes "TRY LATER" ∷ []) 503 rate_limit_max_age

  abbrev pub bad_gateway : PageResponse
  bad_gateway = record {
    status = 502;
    vary = vary_user_agent;
    cache_control = some (codes "no-store");
    content_type = none;
    body = [];
  }

  module _ (addr_string : Addr → Text) where
    -- the `default` of `render`
    unfoldable pub render_unavailable : Mode → Text → Records Sets → PageResponse
    unfolding is_empty write_banner_left dns_headline dns_captions
    render_unavailable mode host recs =
        if is_empty recs.hostname
        then bad_gateway
        else write_banner_left mode (dns_headline host)
            (dns_captions addr_string recs.sets ++ (codes "( stale data )" ∷ [])) 200 stale_max_age

    unfoldable pub render_page : Mode → Text → Records Sets → Option LookupError → PageResponse
    unfolding render_unavailable render_not_found render_self_throttled write_banner_left
        dns_headline dns_captions
    render_page mode host recs none =
        write_banner_left mode (dns_headline host) (dns_captions addr_string recs.sets) 200
          ok_max_age
    render_page mode host recs (some LookupError.not_found) = render_not_found mode host
    render_page mode host recs (some LookupError.self_throttled) = render_self_throttled mode
    render_page mode host recs (some LookupError.unavailable) = render_unavailable mode host recs
    render_page mode host recs (some (LookupError.other n)) = render_unavailable mode host recs

    abbrev pylon_unsupported : PageResponse
    pylon_unsupported = record {
      status = 415;
      vary = vary_user_agent;
      cache_control = none;
      content_type = some (codes "text/plain; charset=utf-8");
      body = pylon_unsupported_msg;
    }

    abbrev invalid_hostname : PageResponse
    invalid_hostname = record {
      status = 400;
      vary = vary_user_agent;
      cache_control = some (codes "no-store");
      content_type = some (codes "text/plain; charset=utf-8");
      body = codes "invalid hostname\n";
    }

    module _ {S : Type 0} (look : Text → S → S × Records Sets × Option LookupError) where
      unfoldable pub serve_valid : Mode → Option Text → S → S × PageResponse
      unfolding render_page
      serve_valid mode none s = (s, invalid_hostname)
      serve_valid mode (some host) s =
          let (s', recs, err) = look host s in (s', render_page mode host recs err)

      -- `serveDNS`, with the state of the resolver it calls
      unfoldable pub serve_dns :
          (Text → Bool) → (Text → Option Text) → PageRequest → S → S × PageResponse
      unfolding serve_valid validate_and_canonicalize trim_space
      serve_dns parses_as_addr to_ascii c s =
          if c.wants_pylon
          then (s, pylon_unsupported)
          else serve_valid c.mode
              (validate_and_canonicalize parses_as_addr to_ascii (trim_space c.hostname)) s
