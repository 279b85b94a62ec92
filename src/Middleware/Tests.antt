-- ===== src/Middleware/Tests.antt =====
-- Runs of middleware and internal/i18n, and each theorem at an input that meets its hypotheses.
use imagelet.Base.{
  ℕ, ◌+◌, ◌*◌, ◌%◌, ◌^◌, ◌≡◌, ◌≤◌, ◌<◌, refl, arith, false, List, [], ◌∷◌, Option, none, some,
  if◌then◌else◌,
}
use imagelet.Base.Assoc.{lookup, insert}
use imagelet.Base.Sorting.{sort_slice}
use imagelet.Base.Text.{Text, codes, text_eq, Text-discrete}
use imagelet.Dns.Hosts.{byte_length}
use imagelet.HtmlCache.Key.{text_ltb}
use imagelet.Render.{Mode}
use imagelet.Middleware.Context.{Inbound, no_values, zh_tw}
use imagelet.Middleware.Counter.{Counter, new_counter, counted_so_far, before, snapshot, greater}
use imagelet.Middleware.Counts
use imagelet.Middleware.Counts.{count_all, requests_of}
use imagelet.Middleware.Clients.{classify_agent, locale_string, parse_locale_query, resolve_mode}
use imagelet.Middleware.Zones.{resolve_location}
use imagelet.Middleware.Dates.{hour, detect_date, get_date}
use imagelet.Middleware.Urls.{Values, absolute_url}
use imagelet.Middleware.Chain.{handled, pass_chain}
use imagelet.Middleware.Detected
use imagelet.Middleware.Detected.{IsLoaded, seen, tag_of}
use imagelet.Middleware.Guards

program : Unit {0}
unfolding count_all snapshot sort_slice before greater text_ltb classify_agent parse_locale_query
    counted_so_far lookup insert Text-discrete get_date detect_date absolute_url byte_length
    resolve_mode new_counter
program = tt

abbrev visits : List Text
visits = codes "/now" ∷ [] ∷ codes "/dns" ∷ codes "/now" ∷ []

abbrev counter : Counter
counter = count_all visits (new_counter 0)

listed :
    snapshot counter
    ≡ record { route = codes "/now"; count = 2 }
      ∷ record { route = codes "/dns"; count = 1 }
      ∷ record { route = codes "no-route"; count = 1 }
      ∷ []
unfolding program
listed = refl

none_yet : counted_so_far (codes "/now") (new_counter 0).counts < 2 ^ 64
unfolding program
none_yet = omega arith

counted_so_far-count_all_example :
    counted_so_far (codes "/now") (count_all visits (new_counter 0)).counts
    ≡ (counted_so_far (codes "/now") (new_counter 0).counts + requests_of (codes "/now") visits)
      % 2 ^ 64
counted_so_far-count_all_example =
    Counts.counted_so_far-count_all (codes "/now") visits (new_counter 0) none_yet

browser : classify_agent (codes "Mozilla/5.0 (X11)") ≡ Mode.html
unfolding program
browser = refl

discord : classify_agent (codes "Mozilla/5.0 Discordbot/2.0") ≡ Mode.png
unfolding program
discord = refl

chinese : parse_locale_query (codes " ZH-Hant ") ≡ some zh_tw
unfolding program
chinese = refl

-- a location is a number here: zone 8 is Asia/Taipei, zone 0 the local one
abbrev load : Text → Option ℕ
load name = if text_eq name (codes "Asia/Taipei") then some 8 else none

-- every date is read as the 20,000th day
abbrev parse_date : Text → ℕ → Option ℕ
parse_date v loc = some (20_000 * 24 * hour)

abbrev set_date : (override now : ℕ) → ℕ → ℕ
set_date override now loc = override

abbrev header : Text → Text
header k =
    if text_eq k (codes "CF-Timezone")
    then codes "Asia/Taipei"
    else if text_eq k (codes "CF-IPCountry")
    then codes "tw"
    else codes "javascript"

abbrev request : Inbound
request = record {
  header = header;
  query = λ k. if text_eq k (codes "date") then codes "2024-10-04" else [];
  host = codes "a.io";
  path = codes "/now";
  raw_query = codes "date=2024-10-04";
  tls = false;
}

abbrev noon : ℕ
noon = 20_000 * 24 * hour + 12 * hour

short_path : byte_length (codes "/now") ≤ 1024
unfolding program
short_path = omega arith

short_query : byte_length (codes "date=2024-10-04") ≤ 4096
unfolding program
short_query = omega arith

nothing-IsLoaded : IsLoaded load 0 []
nothing-IsLoaded = Detected.empty-IsLoaded load 0

pass_chain-seen_example :
    pass_chain load 0 parse_date set_date request false noon []
    ≡ handled
        (resolve_location load 0 (header (codes "CF-Timezone")) []).0
        (seen load 0 parse_date set_date request noon)
        (locale_string (tag_of load 0 parse_date set_date request))
        (if false then some 65536 else none)
pass_chain-seen_example =
    Detected.pass_chain-seen load 0 parse_date set_date request false noon [] nothing-IsLoaded
      short_path short_query

set_at_noon :
    get_date 0 load parse_date set_date
      (detect_date 0 load parse_date set_date request noon no_values)
    ≡ some noon
unfolding program
set_at_noon = refl

get_date_bounds_example : (noon ≤ noon + 15 * 365 * 24 * hour) × (noon ≤ noon + 36 * hour)
get_date_bounds_example =
    Guards.get_date_bounds 0 load parse_date set_date request noon no_values {t = noon} refl
      set_at_noon

abbrev parse_query : Text → Values
parse_query q = []

abbrev encode : Values → Text
encode v = codes "format=svg"
