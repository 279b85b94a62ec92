-- ===== src/Dns/Records.antt =====
-- service/dns/resolver/resolver.go: the records of a host and the errors of a lookup, and what
-- lookup.go and client.go read of a response of the DNS library.
use imagelet.Base.{ℕ, Bool, List, Option}
use imagelet.Base.Text.{Text}
use imagelet.Dns.Addresses.{Addr}

pub record Mx : Type 0 where
  pub pref : ℕ
  pub host : Text

pub record Soa : Type 0 where
  pub ns : Text
  pub mbox : Text
  pub serial : ℕ

pub record Caa : Type 0 where
  pub flag : ℕ
  pub tag : Text
  pub value : Text

pub record Srv : Type 0 where
  pub priority : ℕ
  pub weight : ℕ
  pub port : ℕ
  pub target : Text

pub record TxtSummary : Type 0 where
  pub has_spf : Bool
  pub has_dmarc : Bool
  pub dkim_count : ℕ
  pub verification_count : ℕ
  pub other_count : ℕ

-- The rows of `Records`; the host and the least TTL stand beside them.
pub record Sets : Type 0 where
  pub a : List Addr
  pub aaaa : List Addr
  pub cname : Text
  pub mx : List Mx
  pub ns : List Text
  pub txt : TxtSummary
  pub soa : Option Soa
  pub caa : List Caa
  pub srv : List Srv
  pub dnssec_verified : Bool

-- What the code reads of a resource record: the library's Go types that it asserts. The bytes of an
-- address are net.IP.
pub data RrData : Type 0 where
  rr_a : List ℕ → RrData
  rr_aaaa : List ℕ → RrData
  rr_cname : Text → RrData
  rr_mx : ℕ → Text → RrData
  rr_ns : Text → RrData
  rr_txt : List Text → RrData
  rr_soa : (ns mbox : Text) → ℕ → RrData
  rr_caa : ℕ → (tag value : Text) → RrData
  rr_srv : (priority weight port : ℕ) → Text → RrData
  rr_other : RrData

pub record Rr : Type 0 where
  pub ttl : ℕ
  pub data_of : RrData

pub record Message : Type 0 where
  pub rcode : ℕ
  pub authenticated_data : Bool
  pub answer : List Rr

pub data QueryType : Type 0 where
  type_a : QueryType
  type_aaaa : QueryType
  type_cname : QueryType
  type_mx : QueryType
  type_ns : QueryType
  type_txt : QueryType
  type_soa : QueryType
  type_caa : QueryType
  type_srv : QueryType

pub record DnsQuery : Type 0 where
  pub name : Text
  pub query_type : QueryType
  pub udp_size : ℕ
  pub dnssec_ok : Bool
  pub authenticated_data : Bool
