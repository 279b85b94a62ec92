-- ===== src/Dns/Tests.antt =====
-- Runs of service/dns and service/dns/resolver, and each theorem at an input that meets its
-- hypotheses.
use mathlib.Core.List.Perm
use imagelet.Base.{
  ℕ, suc, ◌*◌, ◌≢◌, length, ◌≡◌, ◌≤◌, refl, arith, Bool, true, false, List, [], ◌∷◌, ◌++◌, Option,
  none, some, All, ◌⊎◌,
}
use imagelet.Base.Text.{Text, codes, Text-discrete}
use imagelet.Base.Assoc.{lookup, insert}
use imagelet.StaleCache.Later.{Call, calls}
use imagelet.DnsCache.{
  LookupError, Records, Config, Hosts, policy, lookup_host, second, is_throttled, success_deadline,
  classify, ttl_for,
}
use imagelet.Render.{Mode}
use imagelet.Render.Sanitize.{strip_pylon_syntax}
use imagelet.Dns.Addresses.{Addr, v4}
use imagelet.Dns.Records.{
  Sets, QueryType, DnsQuery, Rr, type_a, type_aaaa, type_cname, type_mx, type_ns, type_txt,
  type_soa, type_caa, type_srv, rr_a, rr_ns,
}
use imagelet.Dns.Names.{canonicalize, Checked, parse_resolver_list}
use imagelet.Dns.Hosts.{validate_and_canonicalize}
use imagelet.Dns.Names.{is_empty}
use imagelet.Dns.Queries.{Exchange, Reply}
use imagelet.Dns.Lookup.{
  Answers, Schedule, sections, query_types, lookup_records, answers, gather, per_query, ad_of,
  no_records, no_sets,
}
use imagelet.Dns.Aggregate.{rows_of, any}
use imagelet.Dns.Captions.{sanitize, dns_captions, dns_headline}
use imagelet.Dns.Errors
use imagelet.Dns.HostNames
use imagelet.Dns.HostNames.{IsAccepted}
use imagelet.Dns.Page.{Renderer, PageRequest, render_page, write_banner_left}
use imagelet.Dns.Pages
use imagelet.Dns.Pages.{captured_response, page_at}
use imagelet.Dns.Filter
use imagelet.Dns.Filter.{IsUnlisted}
use imagelet.Dns.Safety
use imagelet.Dns.Safety.{IsPlain}
use imagelet.Dns.Schedules
use imagelet.Dns.Success
use imagelet.HtmlCache.Policy.{parse_max_age, should_store, seconds}
use imagelet.StaleCache
use imagelet.StaleCache.{State, Entry, Policy, Fetched}
use imagelet.StaleCache.Answers.{held}
use imagelet.StaleCache.Invariant
use imagelet.StaleCache.Invariant.{IsValid}
use imagelet.StaleCache.Sequences

program : Unit {0}
unfolding lookup_records answers gather canonicalize parse_resolver_list validate_and_canonicalize
    strip_pylon_syntax is_throttled sections should_store captured_response render_page
    StaleCache.publish StaleCache.start StaleCache.finish StaleCache.call StaleCache.answer
    StaleCache.new StaleCache.count_eviction parse_max_age is_empty lookup insert lookup_host
    success_deadline classify ttl_for Text-discrete
program = tt

abbrev fqdn : Text → Text
fqdn host = host ++ codes "."

abbrev site : Text
site = codes "a.io"

abbrev ns_answer : List Rr
ns_answer = record { ttl = 300; data_of = rr_ns (codes "n.io.") } ∷ []

abbrev a_answer : List Rr
a_answer =
    record { ttl = 120; data_of = rr_a (10 ∷ 0 ∷ 0 ∷ 1 ∷ []) }
    ∷ record { ttl = 90; data_of = rr_a (1 ∷ 2 ∷ 3 ∷ 4 ∷ []) }
    ∷ []

abbrev answer_of : QueryType → List Rr
answer_of type_a = a_answer
answer_of type_ns = ns_answer
answer_of _ = []

abbrev says : List Rr → Exchange
says rrs = record {
  ctx_before = none;
  admitted = true;
  reply = Reply.message (record { rcode = 0; authenticated_data = false; answer = rrs });
  ctx_after = none;
}

abbrev ask : Text → DnsQuery → Exchange
ask addr q = says (answer_of q.query_type)

abbrev dials : Text → Bool
dials addr = true

abbrev to_ascii : Text → Option Text
to_ascii host = none

abbrev in_order : Schedule
in_order = record { entered = sections query_types; returns = query_types }

abbrev resolver_list : List Text
resolver_list = codes "9.9.9.9:853" ∷ []

found_rows :
    (lookup_records fqdn ask to_ascii dials resolver_list (codes " A.io. ") in_order).0.sets.a
    ≡ v4 0x01020304 ∷ []
unfolding program
found_rows = refl

two_dots :
    validate_and_canonicalize (λ _. false) to_ascii (codes "db.internal..")
    ≡ some (codes "db.internal.")
unfolding program
two_dots = refl

nested_pair : strip_pylon_syntax (codes "a((b))c") ≡ codes "a()c"
unfolding program
nested_pair = refl

default_list :
    parse_resolver_list (codes " ") ≡ Checked.right (codes "1.1.1.1:853" ∷ codes "1.0.0.1:853" ∷ [])
unfolding program
default_list = refl

no_port :
    parse_resolver_list (codes "1.1.1.1")
    ≡ Checked.wrong (imagelet.Dns.Names.NameError.invalid_resolver (codes "1.1.1.1"))
unfolding program
no_port = refl

abbrev answered_all : Answers
answered_all = answers fqdn ask (codes "9.9.9.9:853") site

abbrev reversed : Schedule
reversed = record {
  entered = in_order.entered;
  returns =
      type_aaaa ∷ type_a ∷ type_cname ∷ type_mx ∷ type_ns ∷ type_txt ∷ type_soa ∷ type_caa
      ∷ type_srv ∷ [];
}

succeeds :
    (lookup_records fqdn ask to_ascii dials resolver_list (codes " A.io. ") in_order).1 ≡ none
unfolding program
succeeds = refl

lookup_records-perm_example :
    lookup_records fqdn ask to_ascii dials resolver_list (codes " A.io. ") reversed
    ≡ lookup_records fqdn ask to_ascii dials resolver_list (codes " A.io. ") in_order
lookup_records-perm_example =
    Schedules.lookup_records-perm fqdn ask dials resolver_list in_order reversed Perm.rfl
      (Perm.swap type_aaaa type_a _) to_ascii (codes " A.io. ") succeeds

gathers : (gather site answered_all in_order).1 ≡ none
unfolding program
gathers = refl

gather-rows_example :
    ((gather site answered_all in_order).0.hostname ≡ site)
    × ((gather site answered_all in_order).0.sets ≡ record (rows_of answered_all) {
      dnssec_verified = any (per_query ad_of answered_all) query_types;
    })
gather-rows_example = Success.gather-rows site answered_all in_order Perm.rfl gathers

lookup_records-IsUnlisted_example :
    All IsUnlisted (lookup_records fqdn ask to_ascii dials resolver_list site in_order).0.sets.a
    × All IsUnlisted
        (lookup_records fqdn ask to_ascii dials resolver_list site in_order).0.sets.aaaa
lookup_records-IsUnlisted_example =
    Filter.lookup_records-IsUnlisted fqdn ask in_order to_ascii dials resolver_list site

-- the limiter denies the query for TXT
abbrev ask_denied : Text → DnsQuery → Exchange
ask_denied addr q = elim q.query_type [
  | type_txt ↦ record {
    ctx_before = none;
    admitted = false;
    reply = Reply.failed;
    ctx_after = none;
  }
  | _ ↦ says (answer_of q.query_type)
]

abbrev denied_one : Answers
denied_one = answers fqdn ask_denied (codes "9.9.9.9:853") site

denied : (gather site denied_one in_order).1 ≡ some LookupError.self_throttled
unfolding program
denied = refl

abbrev markup : Text
markup = codes "a:b, 100% (c)"

sanitize-IsPlain_example : (length (sanitize markup) ≤ 60) × All IsPlain (sanitize markup)
sanitize-IsPlain_example = Safety.sanitize-IsPlain markup

accepts_site : validate_and_canonicalize (λ _. false) to_ascii (codes "A.io.") ≡ some site
unfolding program
accepts_site = refl

validate_and_canonicalize-IsAccepted_example : IsAccepted site
validate_and_canonicalize-IsAccepted_example =
    HostNames.validate_and_canonicalize-IsAccepted (λ _. false) to_ascii (codes "A.io.")
      accepts_site

abbrev draw : Renderer
draw = record {
  banner_multi = λ headline rows mode. some headline;
  banner_boxes = λ headline rows mode. some headline;
  inject_og_meta = λ headline body. body;
}

abbrev addr_string : Addr → Text
addr_string a = codes "1.2.3.4"

abbrev visit : PageRequest
visit = record { wants_pylon = false; mode = Mode.html; hostname = codes "A.io" }

abbrev look : Text → ℕ → ℕ × Records Sets × Option LookupError
look host n =
    let (recs, err) = lookup_records fqdn ask to_ascii dials resolver_list host in_order in
    (suc n, recs, err)

abbrev no_error : Option LookupError
no_error = none

page_is_stored :
    should_store
      (captured_response (render_page draw addr_string Mode.html site no_records no_error))
    ≡ some (300 * second)
unfolding program
page_is_stored = refl

render_page-should_store_example :
    ((no_error ≡ none) × (300 * second ≡ seconds 300))
    ⊎ ((no_error ≢ none)
        × (no_error ≢ some LookupError.not_found)
        × (no_error ≢ some LookupError.self_throttled)
        × (is_empty [] ≡ false)
        × (300 * second ≡ seconds 60))
render_page-should_store_example =
    Pages.render_page-should_store draw addr_string Mode.html site no_records no_error
      {d = 300 * second} page_is_stored

abbrev config : Config
config = record { failure = 60 * second; not_found = 3600 * second }

abbrev rules : Policy (Records Sets) LookupError
rules = policy no_sets config

abbrev found : Records Sets
found = record { hostname = site; sets = no_sets; min_ttl = 120 * second }

abbrev held_found : Hosts Sets
held_found = (lookup_host no_sets config site 0 (Fetched.ok found) (StaleCache.new rules)).0

held_found-IsValid : IsValid Text-discrete rules held_found
unfolding lookup_host
held_found-IsValid =
    Sequences.call-IsValid Text-discrete rules site 0 (Fetched.ok found)
      (Invariant.new-IsValid Text-discrete rules)

abbrev entry : Entry (Records Sets) LookupError
entry = record { records = found; err = none; state = State.ok; deadline = 120 * second }

is_held : held Text-discrete rules site held_found ≡ some entry
unfolding program
is_held = refl

is_named : is_empty found.hostname ≡ false
unfolding program
is_named = refl

abbrev lost : Fetched (Records Sets) LookupError
lost = Fetched.fail LookupError.unavailable

-- a lookup of the host between the two pages
abbrev between : List (Call Text (Records Sets) LookupError)
between = record { key = site; now = 205 * second; answer = lost } ∷ []

page_at_unavailable_example :
    ((page_at draw addr_string config Mode.html site (200 * second) lost held_found).1
      ≡ write_banner_left draw Mode.html
          (dns_headline site)
          (dns_captions addr_string no_sets ++ (codes "( stale data )" ∷ []))
          200
          60)
    × ((page_at draw addr_string config Mode.html site (210 * second) lost (
          calls Text-discrete
            (policy no_sets config)
            between
            (page_at draw addr_string config Mode.html site (200 * second) lost held_found).0)).1
        ≡ write_banner_left draw Mode.html
            (dns_headline site)
            (dns_captions addr_string no_sets)
            200
            300)
page_at_unavailable_example =
    Pages.page_at_unavailable draw addr_string config Mode.html site (200 * second) (210 * second)
      lost entry between held_found held_found-IsValid is_held refl is_named (omega arith)
      (omega arith, tt) (omega arith)
