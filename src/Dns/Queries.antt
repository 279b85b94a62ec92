-- ===== src/Dns/Queries.antt =====
-- service/dns/resolver/lookup.go and client.go: one query of a lookup, and what each of the nine
-- query helpers keeps of its response. The rate limiter and the DNS library are not under src/: an
-- `Exchange` is what they say during one call of `exchange`.
use imagelet.Base.{
  ℕ, suc, ◌^◌, ◌-◌, Bool, true, false, List, [], ◌∷◌, ◌++◌, Option, none, some, ltb, ◌==◌,
  if◌then◌else◌,
}
use imagelet.Base.Text.{Text, codes, has_prefix, trim_suffix}
use imagelet.DnsCache.{LookupError}
use imagelet.Dns.Addresses.{Addr, addr_from_slice, to4, unmap, is_public_addr}
use imagelet.Dns.Records.{
  Mx, Soa, Caa, Srv, TxtSummary, RrData, Rr, Message, QueryType, DnsQuery, rr_a, rr_aaaa, rr_cname,
  rr_mx, rr_ns, rr_txt, rr_soa, rr_caa, rr_srv,
}

abbrev pub edns0_udp_size : ℕ
edns0_udp_size = 4096

-- `math.MaxUint32`
abbrev pub max_uint32 : ℕ
max_uint32 = 2 ^ 32 - 1

-- what `ExchangeContext` returns
pub data Reply : Type 0 where
  failed : Reply
  no_message : Reply
  message : Message → Reply

-- `ctx_before` is the error of a context that is done when `exchange` begins, `ctx_after` of one
-- that is done when `ExchangeContext` has returned; `admitted` says whether `limiter.Wait` returned
-- without an error.
pub record Exchange : Type 0 where
  pub ctx_before : Option LookupError
  pub admitted : Bool
  pub reply : Reply
  pub ctx_after : Option LookupError

pub data QueryResult (A : Type 0) : Type 0 where
  fail : LookupError → QueryResult A
  ok : A → QueryResult A

-- what a query helper returns beside its error
pub record RowAnswer (A : Type 0) : Type 0 where
  pub value : A
  pub ttl : ℕ
  pub ad : Bool

-- `classifyTransportErr(resp, nil)` for a response
unfoldable pub classify_rcode : ℕ → Option LookupError
classify_rcode rcode =
    if rcode == 0
    then none
    else if rcode == 3
    then some LookupError.not_found
    else some LookupError.unavailable

checked : Message → Option LookupError → QueryResult Message
checked m none = QueryResult.ok m
checked m (some err) = QueryResult.fail err

exchanged : Reply → Option LookupError → QueryResult Message
unfolding classify_rcode checked
exchanged Reply.failed none = QueryResult.fail LookupError.unavailable
exchanged Reply.failed (some err) = QueryResult.fail err
exchanged Reply.no_message err = QueryResult.fail LookupError.unavailable
exchanged (Reply.message m) err = checked m (classify_rcode m.rcode)

not_admitted : Option LookupError → QueryResult Message
not_admitted none = QueryResult.fail LookupError.self_throttled
not_admitted (some err) = QueryResult.fail err

unfoldable pub exchange : Exchange → QueryResult Message
unfolding exchanged not_admitted
exchange x = if x.admitted then exchanged x.reply x.ctx_after else not_admitted x.ctx_before

-- the loop of `minRRTTL` with its `min`
min_from : List Rr → ℕ → ℕ
min_from [] least_of = least_of
min_from (rr ∷ rrs) least_of = min_from rrs (if ltb rr.ttl least_of then rr.ttl else least_of)

unfoldable pub min_rr_ttl : List Rr → ℕ
unfolding min_from
min_rr_ttl [] = 0
min_rr_ttl (rr ∷ rrs) = min_from (rr ∷ rrs) max_uint32

unfoldable pub trim_dot : Text → Text
unfolding trim_suffix
trim_dot s = trim_suffix s (codes ".")

-- `newQuery`, given `dns.Fqdn`
unfoldable pub new_query : (Text → Text) → Text → QueryType → DnsQuery
new_query fqdn host qtype = record {
  name = fqdn host;
  query_type = qtype;
  udp_size = edns0_udp_size;
  dnssec_ok = false;
  authenticated_data = true;
}

-- the loop body of `lookupA` and of `lookupAAAA` on an address
unfoldable pub shown_addr : Option Addr → Option Addr
unfolding unmap is_public_addr
shown_addr none = none
shown_addr (some ip) = if is_public_addr (unmap ip) then some (unmap ip) else none

unfoldable pub addr_of_a : RrData → Option Addr
unfolding addr_from_slice to4 shown_addr
addr_of_a (rr_a bytes) = shown_addr (addr_from_slice (to4 bytes))
addr_of_a _ = none

unfoldable pub addr_of_aaaa : RrData → Option Addr
unfolding addr_from_slice shown_addr
addr_of_aaaa (rr_aaaa bytes) = shown_addr (addr_from_slice bytes)
addr_of_aaaa _ = none

unfoldable pub cname_of : RrData → Option Text
unfolding trim_dot
cname_of (rr_cname target) = some (trim_dot target)
cname_of _ = none

unfoldable pub mx_of : RrData → Option Mx
unfolding trim_dot
mx_of (rr_mx pref host) = some (record { pref = pref; host = trim_dot host })
mx_of _ = none

unfoldable pub ns_of : RrData → Option Text
unfolding trim_dot
ns_of (rr_ns ns) = some (trim_dot ns)
ns_of _ = none

unfoldable pub soa_of : RrData → Option Soa
unfolding trim_dot
soa_of (rr_soa ns mbox serial) =
    some (record { ns = trim_dot ns; mbox = trim_dot mbox; serial = serial })
soa_of _ = none

unfoldable pub caa_of : RrData → Option Caa
caa_of (rr_caa flag tag value) = some (record { flag = flag; tag = tag; value = value })
caa_of _ = none

unfoldable pub srv_of : RrData → Option Srv
unfolding trim_dot
srv_of (rr_srv priority weight port target) =
    some (record { priority = priority; weight = weight; port = port; target = trim_dot target })
srv_of _ = none

unfoldable pub keep_some : {A : Type 0} → Option A → List A → List A
keep_some none out = out
keep_some (some x) out = x ∷ out

-- the loop of a helper that collects every record of its type
unfoldable pub all_of : {A : Type 0} → (RrData → Option A) → List Rr → List A
unfolding keep_some
all_of pick [] = []
all_of pick (rr ∷ rrs) = keep_some (pick rr.data_of) (all_of pick rrs)

first_or : {A : Type 0} → Option A → Option A → Option A
first_or none rest = rest
first_or (some x) rest = some x

-- the loop of a helper that returns at the first record of its type
unfoldable pub first_of : {A : Type 0} → (RrData → Option A) → List Rr → Option A
unfolding first_or
first_of pick [] = none
first_of pick (rr ∷ rrs) = first_or (pick rr.data_of) (first_of pick rrs)

abbrev pub verification_prefixes : List Text
verification_prefixes =
    codes "google-site-verification="
    ∷ codes "apple-domain-verification="
    ∷ codes "facebook-domain-verification="
    ∷ codes "stripe-verification="
    ∷ codes "MS="
    ∷ codes "_atproto"
    ∷ []

unfoldable pub is_verification : Text → List Text → Bool
is_verification s [] = false
is_verification s (p ∷ ps) = if has_prefix s p then true else is_verification s ps

unfoldable pub classify_txt : Text → TxtSummary → TxtSummary
unfolding is_verification
classify_txt s sum =
    if has_prefix s (codes "v=spf1")
    then record sum { has_spf = true }
    else if has_prefix s (codes "v=DMARC1")
    then record sum { has_dmarc = true }
    else if has_prefix s (codes "v=DKIM1")
    then record sum { dkim_count = suc sum.dkim_count }
    else if is_verification s verification_prefixes
    then record sum { verification_count = suc sum.verification_count }
    else record sum { other_count = suc sum.other_count }

abbrev pub no_txt : TxtSummary
no_txt = record {
  has_spf = false;
  has_dmarc = false;
  dkim_count = 0;
  verification_count = 0;
  other_count = 0;
}

-- `strings.Join(t.Txt, "")`
unfoldable pub join_chunks : List Text → Text
join_chunks [] = []
join_chunks (chunk ∷ chunks) = chunk ++ join_chunks chunks

add_txt : RrData → TxtSummary → TxtSummary
unfolding classify_txt join_chunks
add_txt (rr_txt chunks) sum = classify_txt (join_chunks chunks) sum
add_txt _ sum = sum

-- the loop of `lookupTXT` with its `sum`
unfoldable pub txt_from : List Rr → TxtSummary → TxtSummary
unfolding add_txt
txt_from [] sum = sum
txt_from (rr ∷ rrs) sum = txt_from rrs (add_txt rr.data_of sum)

unfoldable pub or_empty : Option Text → Text
or_empty none = []
or_empty (some s) = s

-- a helper from its exchange on, given what it makes of the answer section
unfoldable pub read_answer :
    {A : Type 0} → (List Rr → A) → QueryResult Message → QueryResult (RowAnswer A)
unfolding min_rr_ttl
read_answer read (QueryResult.fail err) = QueryResult.fail err
read_answer read (QueryResult.ok m) =
    QueryResult.ok
      (record { value = read m.answer; ttl = min_rr_ttl m.answer; ad = m.authenticated_data })

module _ (fqdn : Text → Text) (ask : Text → DnsQuery → Exchange) (addr host : Text) where
  unfoldable pub lookup_a : QueryResult (RowAnswer (List Addr))
  unfolding exchange new_query all_of addr_of_a read_answer
  lookup_a =
      read_answer (all_of addr_of_a) (exchange (ask addr (new_query fqdn host QueryType.type_a)))

  unfoldable pub lookup_aaaa : QueryResult (RowAnswer (List Addr))
  unfolding exchange new_query all_of addr_of_aaaa read_answer
  lookup_aaaa =
      read_answer (all_of addr_of_aaaa)
        (exchange (ask addr (new_query fqdn host QueryType.type_aaaa)))

  unfoldable pub lookup_cname : QueryResult (RowAnswer Text)
  unfolding exchange new_query first_of cname_of or_empty read_answer
  lookup_cname =
      read_answer (λ rrs. or_empty (first_of cname_of rrs))
        (exchange (ask addr (new_query fqdn host QueryType.type_cname)))

  unfoldable pub lookup_mx : QueryResult (RowAnswer (List Mx))
  unfolding exchange new_query all_of mx_of read_answer
  lookup_mx =
      read_answer (all_of mx_of) (exchange (ask addr (new_query fqdn host QueryType.type_mx)))

  unfoldable pub lookup_ns : QueryResult (RowAnswer (List Text))
  unfolding exchange new_query all_of ns_of read_answer
  lookup_ns =
      read_answer (all_of ns_of) (exchange (ask addr (new_query fqdn host QueryType.type_ns)))

  unfoldable pub lookup_txt : QueryResult (RowAnswer TxtSummary)
  unfolding exchange new_query txt_from read_answer
  lookup_txt =
      read_answer (λ rrs. txt_from rrs no_txt)
        (exchange (ask addr (new_query fqdn host QueryType.type_txt)))

  unfoldable pub lookup_soa : QueryResult (RowAnswer (Option Soa))
  unfolding exchange new_query first_of soa_of read_answer
  lookup_soa =
      read_answer (first_of soa_of) (exchange (ask addr (new_query fqdn host QueryType.type_soa)))

  unfoldable pub lookup_caa : QueryResult (RowAnswer (List Caa))
  unfolding exchange new_query all_of caa_of read_answer
  lookup_caa =
      read_answer (all_of caa_of) (exchange (ask addr (new_query fqdn host QueryType.type_caa)))

  unfoldable pub lookup_srv : QueryResult (RowAnswer (List Srv))
  unfolding exchange new_query all_of srv_of read_answer
  lookup_srv =
      read_answer (all_of srv_of) (exchange (ask addr (new_query fqdn host QueryType.type_srv)))
