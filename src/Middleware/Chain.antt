-- ===== src/Middleware/Chain.antt =====
-- server/server.go: the middleware of `New` in its order, up to the handler.
use imagelet.Base.{ℕ, Bool, Option}
use imagelet.Base.Text.{Text}
use imagelet.Dns.Hosts.{byte_length}
use imagelet.Middleware.Context.{Inbound, Context, no_values}
use imagelet.Middleware.Clients.{detect_client, detect_region, detect_locale}
use imagelet.Middleware.Zones.{LocationCache, detect_timezone}
use imagelet.Middleware.Dates.{detect_date}
use imagelet.Middleware.Urls.{Limited, aborted, next, limit_request}

-- what a request has come to when the handler would run
pub data Passed (L : Type 0) : Type 0 where
  stopped : ℕ → Passed L
  -- the cache of locations, the context, X-Imagelet-Locale, and the limit of the body
  handled : LocationCache L → Context L → Text → Option ℕ → Passed L

module _ {L : Type 0} (load : Text → Option L) (local : L) (parse_date : Text → L → Option ℕ)
    (set_date : (override now : ℕ) → L → ℕ) where
  unfoldable pub detect_rest : Inbound → Option ℕ → LocationCache L → Context L → Passed L
  unfolding detect_client detect_region detect_locale
  detect_rest r limit cache c =
      let (c', tag) = detect_locale r (detect_region r (detect_client r c)) in
      handled cache c' tag limit

  unfoldable pub detect_all : Inbound → ℕ → LocationCache L → Option ℕ → Passed L
  unfolding detect_timezone detect_date detect_rest
  detect_all r now cache limit =
      let (cache', c) = detect_timezone load local r cache no_values in
      detect_rest r limit cache' (detect_date local load parse_date set_date r now c)

  unfoldable pub after_limit : Limited → Inbound → ℕ → LocationCache L → Passed L
  unfolding detect_all
  after_limit (aborted status) r now cache = stopped status
  after_limit (next limit) r now cache = detect_all r now cache limit

  unfoldable pub pass_chain : Inbound → Bool → ℕ → LocationCache L → Passed L
  unfolding after_limit limit_request byte_length
  pass_chain r has_body now cache =
      after_limit (limit_request (byte_length r.path) (byte_length r.raw_query) has_body) r now
        cache
