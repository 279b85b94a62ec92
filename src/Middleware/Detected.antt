-- ===== src/Middleware/Detected.antt =====
-- middleware, internal/i18n and server/server.go: what a handler finds in the context, from the
-- request alone.
use imagelet.Base.{
  ℕ, ◌+◌, ◌*◌, ◌≡◌, ◌≤◌, refl, ap, ◌∙◌, arith, Bool, ◌||◌, List, [], ◌∷◌, Option, none, some, ltb,
  if◌then◌else◌, Bool-cases, inl, inr,
}
use imagelet.Base.Assoc.{lookup, lookup-insert}
use imagelet.Base.Text.{Text, codes, trim_space, to_upper, Text-discrete}
use imagelet.Dns.Hosts.{byte_length}
use imagelet.Middleware.Context.{Inbound, Context, Locale, no_values}
use imagelet.Middleware.Clients.{
  classify_agent, detect_client, detect_region, detect_locale, stash_country, country_or,
  get_country, country_to_locale, parse_locale_query, or_country, resolve_locale, locale_string,
}
use imagelet.Middleware.Zones.{
  LocationCache, resolve_location, load_into, stash_location, detect_timezone, get_location,
}
use imagelet.Middleware.Dates.{
  hour, date_override_min_age, date_override_max_future, stash_date, parsed, dated, detect_date,
}
use imagelet.Middleware.Urls.{next, limit_request}
use imagelet.Middleware.Chain.{handled, detect_all, pass_chain, detect_rest, after_limit}

within_limits :
    (p q : ℕ) (has_body : Bool)
    → p ≤ 1024
    → q ≤ 4096
    → limit_request p q has_body ≡ next (if has_body then some 65536 else none)
unfolding limit_request
within_limits p q has_body h k = ground arith

-- a text that is not blank
unfoldable pub given : Text → Option Text
given [] = none
given (c ∷ s) = some (c ∷ s)

module _ {L : Type 0} (load : Text → Option L) (local : L) where
  -- The memo says what loading says.
  unfoldable pub IsLoaded : LocationCache L → Type 0
  IsLoaded cache =
      (name : Text) (known : Option L)
      → lookup Text-discrete name cache ≡ some known
      → known ≡ load name

  -- the location of a name, without the memo
  unfoldable pub zone_of : Text → Option L
  zone_of [] = none
  zone_of (c ∷ name) = load (c ∷ name)

  load_into-IsLoaded :
      (name : Text) (found : Option (Option L)) (cache : LocationCache L)
      → lookup Text-discrete name cache ≡ found
      → IsLoaded cache
      → IsLoaded (load_into load local name found cache).0
  unfolding load_into IsLoaded
  load_into-IsLoaded name (some known) cache e i = i
  load_into-IsLoaded name none cache e i = λ other known h.
      let put = lookup-insert Text-discrete name other (load name) cache in
      elim (Text-discrete name other) [
        | yes same ↦ ground (arith, put, h, ap load same)
        | no ne ↦ i other known (ground (arith, put, h))
      ]

  load_into-load :
      (name : Text) (found : Option (Option L)) (cache : LocationCache L)
      → lookup Text-discrete name cache ≡ found
      → IsLoaded cache
      → (load_into load local name found cache).1 ≡ load name
  unfolding load_into IsLoaded
  load_into-load name (some known) cache e i = i name known e
  load_into-load name none cache e i = refl

  pub resolve_location-IsLoaded :
      (name : Text) (cache : LocationCache L)
      → IsLoaded cache
      → IsLoaded (resolve_location load local name cache).0
  unfolding resolve_location
  resolve_location-IsLoaded [] cache i = i
  resolve_location-IsLoaded (c ∷ name) cache i = load_into-IsLoaded (c ∷ name) _ cache refl i

  -- A memo that says what loading says answers as loading does, and goes on to say so.
  pub resolve_location-zone_of :
      (name : Text) (cache : LocationCache L)
      → IsLoaded cache
      → (resolve_location load local name cache).1 ≡ zone_of name
  unfolding resolve_location zone_of
  resolve_location-zone_of [] cache i = refl
  resolve_location-zone_of (c ∷ name) cache i = load_into-load (c ∷ name) _ cache refl i

  unfoldable pub or_local : Option L → L
  or_local none = local
  or_local (some loc) = loc

  -- the memo after any requests
  unfoldable pub after_requests : List Inbound → LocationCache L → LocationCache L
  unfolding detect_timezone
  after_requests [] cache = cache
  after_requests (r ∷ rs) cache = after_requests rs (detect_timezone load local r cache no_values).0

  after_requests-IsLoaded :
      (rs : List Inbound) (cache : LocationCache L)
      → IsLoaded cache
      → IsLoaded (after_requests rs cache)
  unfolding after_requests detect_timezone
  after_requests-IsLoaded [] cache i = i
  after_requests-IsLoaded (r ∷ rs) cache i =
      after_requests-IsLoaded rs _
        (resolve_location-IsLoaded (r.header (codes "CF-Timezone")) cache i)

  pub empty-IsLoaded : IsLoaded []
  unfolding IsLoaded lookup
  empty-IsLoaded name known h = absurd (ground arith)

  stash_location-eq :
      (o : Option L)
      → stash_location load local o no_values ≡ record (no_values {L = L}) { location = o }
  unfolding stash_location
  stash_location-eq none = refl
  stash_location-eq (some loc) = refl

  stash_country-eq :
      (v : Text) (c : Context L)
      → c.country ≡ none
      → stash_country v c ≡ record c { country = given v }
  unfolding stash_country given
  stash_country-eq [] c e = cc
  stash_country-eq (d ∷ v) c e = refl

  -- Whatever was asked before, a request has the location that loading gives for its header, or the
  -- local one.
  pub detect_timezone-zone_of :
      (rs : List Inbound) (r : Inbound)
      → get_location load local (detect_timezone load local r (after_requests rs []) no_values).1
        ≡ or_local (zone_of (r.header (codes "CF-Timezone")))
  unfolding detect_timezone get_location or_local
  detect_timezone-zone_of rs r =
      let found =
        resolve_location-zone_of (r.header (codes "CF-Timezone")) (after_requests rs [])
          (after_requests-IsLoaded rs [] empty-IsLoaded) in
      ap (λ o. or_local (stash_location load local o no_values).location) found
      ∙ ap (λ c. or_local c.location) (stash_location-eq (zone_of (r.header (codes "CF-Timezone"))))

  module _ (parse_date : Text → L → Option ℕ) (set_date : (override now : ℕ) → L → ℕ) where
    -- the override of a date that was read
    in_range : ℕ → Option ℕ → Option ℕ
    in_range now none = none
    in_range now (some t) =
        if ltb (t + date_override_min_age) now || ltb (now + date_override_max_future) t
        then none
        else some (t + 12 * hour)

    date_of : Text → ℕ → L → Option ℕ
    unfolding in_range
    date_of [] now loc = none
    date_of (d ∷ v) now loc = in_range now (parse_date (d ∷ v) loc)

    -- The context that a handler sees, from the request, the time and the location alone.
    unfoldable pub seen : Inbound → ℕ → Context L
    unfolding zone_of or_local date_of given or_country country_or
    seen r now =
        let zone = zone_of (r.header (codes "CF-Timezone")) in
        let country = given (to_upper (trim_space (r.header (codes "CF-IPCountry")))) in
        record {
          mode = some (classify_agent (r.header (codes "User-Agent")));
          country = country;
          location = zone;
          date = date_of (r.query (codes "date")) now (or_local zone);
          locale = some (
              or_country (parse_locale_query (r.query (codes "lang")))
                (country_to_locale (country_or country)));
        }

    stash_date-eq :
        (t : Option ℕ) (now : ℕ) (c : Context L)
        → c.date ≡ none
        → stash_date local load parse_date set_date t now c ≡ record c { date = in_range now t }
    unfolding stash_date in_range
    stash_date-eq none now c e = cc
    stash_date-eq (some t) now c e =
        elim (Bool-cases
          (ltb (t + date_override_min_age) now || ltb (now + date_override_max_future) t)) [
            | inl out ↦ rw out cc
            | inr within ↦ rw within refl
          ]

    dated-eq :
        (v : Text) (now : ℕ) (c : Context L)
        → c.date ≡ none
        → dated local load parse_date set_date v now c
          ≡ record c { date = date_of v now (get_location load local c) }
    unfolding dated date_of parsed
    dated-eq [] now c e = cc
    dated-eq (d ∷ v) now c e =
        stash_date-eq (parse_date (d ∷ v) (get_location load local c)) now c e

    -- what the locations and dates leave in the context
    placed : Inbound → ℕ → Context L
    unfolding zone_of or_local date_of
    placed r now =
        let zone = zone_of (r.header (codes "CF-Timezone")) in
        record (no_values {L = L}) {
          location = zone;
          date = date_of (r.query (codes "date")) now (or_local zone);
        }

    detect_date-placed :
        (r : Inbound) (now : ℕ) (cache : LocationCache L)
        → IsLoaded cache
        → detect_date local load parse_date set_date r now
            (detect_timezone load local r cache no_values).1
          ≡ placed r now
    unfolding detect_date detect_timezone placed get_location or_local
    detect_date-placed r now cache i =
        let zone = resolve_location-zone_of (r.header (codes "CF-Timezone")) cache i in
        ap
          (λ o.
            dated local load parse_date set_date (r.query (codes "date")) now
              (stash_location load local o no_values))
          zone
        ∙ ap (dated local load parse_date set_date (r.query (codes "date")) now)
            (stash_location-eq _)
        ∙ dated-eq (r.query (codes "date")) now _ refl

    unfoldable pub tag_of : Inbound → Locale
    tag_of r = or_country (parse_locale_query (r.query (codes "lang"))) (
        country_to_locale
          (country_or (given (to_upper (trim_space (r.header (codes "CF-IPCountry")))))))

    detect_rest-seen :
        (r : Inbound) (now : ℕ) (limit : Option ℕ) (cache : LocationCache L)
        → detect_rest load local parse_date set_date r limit cache (placed r now)
          ≡ handled cache (seen r now) (locale_string (tag_of r)) limit
    unfolding detect_rest detect_locale resolve_locale detect_region detect_client get_country
        placed seen tag_of
    detect_rest-seen r now limit cache =
        ap (λ c. handled cache (detect_locale r c).0 (detect_locale r c).1 limit)
          (stash_country-eq (to_upper (trim_space (r.header (codes "CF-IPCountry"))))
            (detect_client r (placed r now)) refl)

    -- A request whose path has at most 1,024 bytes and whose query at most 4,096 reaches the handler
    -- with a context that the request, the time and the loading of locations determine, whatever the
    -- memo holds, as long as it says what loading says: the date is read in the location of the
    -- client, and the language follows the country of the client unless the query names one.
    pub pass_chain-seen :
        (r : Inbound) (has_body : Bool) (now : ℕ) (cache : LocationCache L)
        → IsLoaded cache
        → byte_length r.path ≤ 1024
        → byte_length r.raw_query ≤ 4096
        → pass_chain load local parse_date set_date r has_body now cache
          ≡ handled
              (resolve_location load local (r.header (codes "CF-Timezone")) cache).0
              (seen r now)
              (locale_string (tag_of r))
              (if has_body then some 65536 else none)
    unfolding pass_chain limit_request after_limit detect_all detect_timezone
    pass_chain-seen r has_body now cache i short_path short_query =
        let limit : Option ℕ = if has_body then some 65536 else none in
        let zones = (resolve_location load local (r.header (codes "CF-Timezone")) cache).0 in
        ap (λ x. after_limit load local parse_date set_date x r now cache)
          (within_limits _ _ has_body short_path short_query)
        ∙ ap (detect_rest load local parse_date set_date r limit zones)
            (detect_date-placed r now cache i)
        ∙ detect_rest-seen r now limit zones
