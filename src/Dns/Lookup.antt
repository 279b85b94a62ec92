-- ===== src/Dns/Lookup.antt =====
-- service/dns/resolver/lookup.go: `Lookup`, which asks nine queries at once and puts their answers
-- together. Its goroutines share what `mu` guards; a run is the order in which they enter their
-- critical sections, and the order in which they return to the errgroup.
use imagelet.Base.{
  ℕ, ◌*◌, Bool, true, false, List, [], ◌∷◌, Option, none, some, ltb, ◌==◌, if◌then◌else◌,
}
use imagelet.Base.Text.{Text}
use imagelet.DnsCache.{LookupError, Records, second, is_throttled}
use imagelet.Dns.Addresses.{Addr}
use imagelet.Dns.Records.{
  Mx, Soa, Caa, Srv, TxtSummary, Sets, QueryType, DnsQuery, type_a, type_aaaa, type_cname, type_mx,
  type_ns, type_txt, type_soa, type_caa, type_srv,
}
use imagelet.Dns.Names.{Checked, canonicalize}
use imagelet.Dns.Queries.{
  Exchange, QueryResult, fail, ok, RowAnswer, max_uint32, no_txt, lookup_a, lookup_aaaa,
  lookup_cname, lookup_mx, lookup_ns, lookup_txt, lookup_soa, lookup_caa, lookup_srv,
}

-- what the nine query helpers return
pub record Answers : Type 0 where
  pub a : QueryResult (RowAnswer (List Addr))
  pub aaaa : QueryResult (RowAnswer (List Addr))
  pub cname : QueryResult (RowAnswer Text)
  pub mx : QueryResult (RowAnswer (List Mx))
  pub ns : QueryResult (RowAnswer (List Text))
  pub txt : QueryResult (RowAnswer TxtSummary)
  pub soa : QueryResult (RowAnswer (Option Soa))
  pub caa : QueryResult (RowAnswer (List Caa))
  pub srv : QueryResult (RowAnswer (List Srv))

-- what `mu` guards: the rows of `rec`, and three variables
pub record Board : Type 0 where
  pub sets : Sets
  pub ad_any : Bool
  pub min_ttl : ℕ
  pub populated : Bool

abbrev pub no_sets : Sets
no_sets = record {
  a = [];
  aaaa = [];
  cname = [];
  mx = [];
  ns = [];
  txt = no_txt;
  soa = none;
  caa = [];
  srv = [];
  dnssec_verified = false;
}

abbrev pub empty_board : Board
empty_board = record { sets = no_sets; ad_any = false; min_ttl = max_uint32; populated = false }

-- `noteAD` and `noteTTL`
unfoldable pub note_ad : Bool → Board → Board
note_ad ad b = if ad then record b { ad_any = true } else b

unfoldable pub note_ttl : ℕ → Board → Board
note_ttl ttl b =
    if ttl == 0
    then b
    else record b { populated = true; min_ttl = if ltb ttl b.min_ttl then ttl else b.min_ttl }

-- `rec.A = addrs` and so on; the goroutine of a query that failed returns before it.
unfoldable pub store_row :
    {A : Type 0} → QueryResult (RowAnswer A) → (A → Sets → Sets) → Sets → Sets
store_row (fail err) set s = s
store_row (ok r) set s = set r.value s

unfoldable pub store_answer : Answers → QueryType → Sets → Sets
unfolding store_row
store_answer r type_a = store_row r.a λ v s. record s { a = v }
store_answer r type_aaaa = store_row r.aaaa λ v s. record s { aaaa = v }
store_answer r type_cname = store_row r.cname λ v s. record s { cname = v }
store_answer r type_mx = store_row r.mx λ v s. record s { mx = v }
store_answer r type_ns = store_row r.ns λ v s. record s { ns = v }
store_answer r type_txt = store_row r.txt λ v s. record s { txt = v }
store_answer r type_soa = store_row r.soa λ v s. record s { soa = v }
store_answer r type_caa = store_row r.caa λ v s. record s { caa = v }
store_answer r type_srv = store_row r.srv λ v s. record s { srv = v }

unfoldable pub ad_of : (A : Type 0) → QueryResult (RowAnswer A) → Bool
ad_of A (fail err) = false
ad_of A (ok r) = r.ad

unfoldable pub ttl_of : (A : Type 0) → QueryResult (RowAnswer A) → ℕ
ttl_of A (fail err) = 0
ttl_of A (ok r) = r.ttl

unfoldable pub error_of : (A : Type 0) → QueryResult (RowAnswer A) → Option LookupError
error_of A (fail err) = some err
error_of A (ok r) = none

-- a reading of the outcome of a query, whatever its type
abbrev pub Reading : Type 0 → Type 1
Reading R = (A : Type 0) → QueryResult (RowAnswer A) → R

abbrev pub per_query : {R : Type 0} → Reading R → Answers → QueryType → R
per_query read r type_a = read _ r.a
per_query read r type_aaaa = read _ r.aaaa
per_query read r type_cname = read _ r.cname
per_query read r type_mx = read _ r.mx
per_query read r type_ns = read _ r.ns
per_query read r type_txt = read _ r.txt
per_query read r type_soa = read _ r.soa
per_query read r type_caa = read _ r.caa
per_query read r type_srv = read _ r.srv

-- The critical sections of a goroutine: it stores its row, notes the AD bit and notes the TTL.
pub data Section : Type 0 where
  row : QueryType → Section
  ad : QueryType → Section
  ttl : QueryType → Section

unfoldable pub enter : Answers → Section → Board → Board
unfolding store_answer note_ad note_ttl ad_of ttl_of
enter r (row k) b = record b { sets = store_answer r k b.sets }
enter r (ad k) b = note_ad (per_query ad_of r k) b
enter r (ttl k) b = note_ttl (per_query ttl_of r k) b

-- the sections in the order in which they are entered
unfoldable pub enter_all : Answers → List Section → Board → Board
unfolding enter
enter_all r [] b = b
enter_all r (s ∷ ss) b = enter_all r ss (enter r s b)

abbrev pub query_types : List QueryType
query_types =
    type_a ∷ type_aaaa ∷ type_cname ∷ type_mx ∷ type_ns ∷ type_txt ∷ type_soa ∷ type_caa ∷ type_srv
    ∷ []

-- the sections of the goroutines one after the other
unfoldable pub sections : List QueryType → List Section
sections [] = []
sections (k ∷ ks) = row k ∷ ad k ∷ ttl k ∷ sections ks

-- `passThroughThrottle`
unfoldable pub pass_through_throttle : Option LookupError → Option LookupError
unfolding is_throttled
pass_through_throttle none = none
pass_through_throttle (some err) = if is_throttled err then some err else none

-- what the goroutine of a query returns: the one of NS passes every error on
unfoldable pub returned : Answers → QueryType → Option LookupError
unfolding pass_through_throttle error_of
returned r type_ns = error_of _ r.ns
returned r k = pass_through_throttle (per_query error_of r k)

unfoldable pub first_error : Option LookupError → Option LookupError → Option LookupError
first_error none rest = rest
first_error (some err) rest = some err

-- `g.Wait`, given the order in which the goroutines return
unfoldable pub wait : Answers → List QueryType → Option LookupError
unfolding returned first_error
wait r [] = none
wait r (k ∷ ks) = first_error (returned r k) (wait r ks)

-- The order of the critical sections and of the returns: one outcome of the scheduler.
pub record Schedule : Type 0 where
  pub entered : List Section
  pub returns : List QueryType

-- `pickResolver`, given which addresses answer a dial
unfoldable pub pick_resolver : (Text → Bool) → List Text → Option Text
pick_resolver dials [] = none
pick_resolver dials (addr ∷ rest) = if dials addr then some addr else pick_resolver dials rest

abbrev pub no_records : Records Sets
no_records = record { hostname = []; sets = no_sets; min_ttl = 0 }

abbrev pub min_ttl_sentinel : ℕ
min_ttl_sentinel = max_uint32 * second

-- `rec` when all goroutines have returned without an error
unfoldable pub to_records : Text → Board → Records Sets
to_records host b = record {
  hostname = host;
  sets = record b.sets { dnssec_verified = b.ad_any };
  min_ttl = if b.populated then b.min_ttl * second else min_ttl_sentinel;
}

unfoldable pub lookup_result : Records Sets → Option LookupError → Records Sets × Option LookupError
lookup_result rec none = (rec, none)
lookup_result rec (some err) = (no_records, some err)

unfoldable pub gather : Text → Answers → Schedule → Records Sets × Option LookupError
unfolding enter_all wait to_records lookup_result
gather host r schedule =
    lookup_result (to_records host (enter_all r schedule.entered empty_board))
      (wait r schedule.returns)

module _ (fqdn : Text → Text) (ask : Text → DnsQuery → Exchange) where
  unfoldable pub answers : Text → Text → Answers
  unfolding lookup_a lookup_aaaa lookup_cname lookup_mx lookup_ns lookup_txt lookup_soa lookup_caa
      lookup_srv
  answers addr host = record {
    a = lookup_a fqdn ask addr host;
    aaaa = lookup_aaaa fqdn ask addr host;
    cname = lookup_cname fqdn ask addr host;
    mx = lookup_mx fqdn ask addr host;
    ns = lookup_ns fqdn ask addr host;
    txt = lookup_txt fqdn ask addr host;
    soa = lookup_soa fqdn ask addr host;
    caa = lookup_caa fqdn ask addr host;
    srv = lookup_srv fqdn ask addr host;
  }

  unfoldable pub on_resolver : Text → Option Text → Schedule → Records Sets × Option LookupError
  unfolding answers gather
  on_resolver host none schedule = (no_records, some LookupError.unavailable)
  on_resolver host (some addr) schedule = gather host (answers addr host) schedule

  unfoldable pub on_name :
      (Text → Bool) → List Text → Checked Text → Schedule → Records Sets × Option LookupError
  unfolding on_resolver pick_resolver
  on_name dials resolvers (Checked.wrong err) schedule = (no_records, some (LookupError.other 0))
  on_name dials resolvers (Checked.right host) schedule =
      on_resolver host (pick_resolver dials resolvers) schedule

  -- `Lookup`; an error of a name is one that no sentinel matches
  unfoldable pub lookup_records :
      (Text → Option Text)
      → (Text → Bool)
      → List Text
      → Text
      → Schedule
      → Records Sets × Option LookupError
  unfolding on_name canonicalize
  lookup_records to_ascii dials resolvers hostname schedule =
      on_name dials resolvers (canonicalize to_ascii hostname) schedule
