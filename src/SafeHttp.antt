-- ===== src/SafeHttp.antt =====
-- internal/safehttp/safehttp.go: which redirects of an upstream are followed. A net.IP is an `Addr`,
-- whose IPv4-mapped form counts as IPv4; net.ParseIP, net.LookupIP and the list of public suffixes
-- are parameters.
pub mod Redirects
mod Tests
use imagelet.Base.{
  ℕ, Bool, true, false, ◌||◌, List, [], ◌∷◌, ◌++◌, Option, none, some, leb, if◌then◌else◌, length,
  back,
}
use imagelet.Base.Text.{Text, text_eq}
use imagelet.Dns.Addresses.{
  Addr, unmap, is_loopback, is_private, is_link_local_unicast, is_unspecified, is_multicast,
}
use imagelet.Dns.Names.{split_host_port}

abbrev pub default_redirect_cap : ℕ
default_redirect_cap = 5

unfoldable pub is_unsafe_ip : Addr → Bool
unfolding unmap is_loopback is_private is_link_local_unicast is_unspecified is_multicast
is_unsafe_ip a =
    let ip = unmap a in
    is_loopback ip
    || is_private ip
    || is_link_local_unicast ip
    || is_unspecified ip
    || is_multicast ip

unfoldable pub host_only : Text → Text
unfolding split_host_port
host_only host = elim (split_host_port host) [ none ↦ host | some (h, port) ↦ h ]

pub data Refusal : Type 0 where
  too_many_redirects : Refusal
  unsafe_host : Addr → Refusal
  lookup_failed : Refusal

unfoldable pub first_unsafe : List Addr → Option Refusal
unfolding is_unsafe_ip
first_unsafe [] = none
first_unsafe (ip ∷ ips) = if is_unsafe_ip ip then some (unsafe_host ip) else first_unsafe ips

module _ (parse_ip : Text → Option Addr) (lookup_ip : Text → Option (List Addr))
    (effective_tld_plus_one : Text → Option Text) where
  unfoldable pub same_root : Option Text → Option Text → Bool
  same_root (some a) (some b) = text_eq a b
  same_root (some a) none = false
  same_root none root = false

  unfoldable pub same_registered_domain : Text → Text → Bool
  unfolding same_root
  same_registered_domain a b = elim (parse_ip a) [
    | some ip ↦ false
    | none ↦ elim (parse_ip b) [
      | some ip ↦ false
      | none ↦ same_root (effective_tld_plus_one a) (effective_tld_plus_one b)
    ]
  ]

  unfoldable pub check_lookup : Option (List Addr) → Option Refusal
  unfolding first_unsafe
  check_lookup none = some lookup_failed
  check_lookup (some ips) = first_unsafe ips

  unfoldable pub check_literal : Text → Option Addr → Option Refusal
  unfolding is_unsafe_ip check_lookup
  check_literal dst none = check_lookup (lookup_ip dst)
  check_literal dst (some ip) = if is_unsafe_ip ip then some (unsafe_host ip) else none

  -- whether the last request went to the domain of this one
  unfoldable pub stays : Text → Option Text → Bool
  unfolding same_registered_domain host_only
  stays dst none = false
  stays dst (some prev) = same_registered_domain (host_only prev) dst

  -- `RedirectPolicy`, with the hosts of the request and of those before it; `none` allows it
  unfoldable pub redirect_policy : Text → List Text → Option Refusal
  unfolding stays check_literal host_only
  redirect_policy host via =
      if leb default_redirect_cap (length via)
      then some too_many_redirects
      else if stays (host_only host) (back via)
      then none
      else check_literal (host_only host) (parse_ip (host_only host))
