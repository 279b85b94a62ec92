-- ===== src/SafeHttp/Redirects.antt =====
-- internal/safehttp/safehttp.go: what an allowed redirect is, and how many of them there can be. The
-- guard of the client and the filter of service/dns/resolver refuse the same addresses.
use imagelet.Base.{
  sym, Option-cases, ◌≡◌, ◌≤◌, ◌<◌, ◌⊎◌, inl, inr, refl, ap, ◌∙◌, arith, Bool, true, false, not,
  ◌||◌, ◌&&◌, List, [], ◌∷◌, ◌++◌, Option, none, some, leb, ◌==◌, ◌/◌, ◌^◌, if◌then◌else◌, length,
  back, All, Bool-cases,
}
use imagelet.Base.Text.{Text, text_eq→eq}
use imagelet.Dns.Addresses.{
  Addr, no_addr, v4, v6, unmap, is_public_addr, is_valid, is_loopback, is_private,
  is_link_local_unicast, is_link_local_multicast, is_unspecified, is_multicast,
}
use imagelet.Dns.Filter.{IsUnlisted, IsUnlisted-unmap}
use imagelet.Dns.Safety.{length-append}
use imagelet.SafeHttp.{
  is_unsafe_ip, first_unsafe, host_only, check_lookup, check_literal, stays, redirect_policy,
  same_root, same_registered_domain,
}

llm_multicast : (ip : Addr) → is_link_local_multicast ip ≡ true → is_multicast ip ≡ true
unfolding is_link_local_multicast is_multicast
llm_multicast no_addr h = absurd (ground arith)
llm_multicast (v4 n) h = ground arith
llm_multicast (v6 hi lo) h = ground arith

same_tests :
    (priv loop llu llm unsp mc : Bool)
    → (llm ≡ true → mc ≡ true)
    → (if priv || loop || llu || llm || unsp || mc then false else true)
      ≡ not (loop || priv || llu || unsp || mc)
same_tests true loop llu llm unsp mc h = ground arith
same_tests false true llu llm unsp mc h = refl
same_tests false false true llm unsp mc h = refl
same_tests false false false true unsp mc h = ground arith
same_tests false false false false unsp mc h = ground arith

filter_lem :
    (ip : Addr)
    → is_valid ip ≡ true
    → is_public_addr ip
      ≡ not (
          is_loopback ip
          || is_private ip
          || is_link_local_unicast ip
          || is_unspecified ip
          || is_multicast ip)
unfolding is_public_addr
filter_lem ip valid = rw valid (
    same_tests (is_private ip) (is_loopback ip) (is_link_local_unicast ip)
      (is_link_local_multicast ip) (is_unspecified ip) (is_multicast ip) (llm_multicast ip))

is_valid-unmap : (a : Addr) → is_valid a ≡ true → is_valid (unmap a) ≡ true
unfolding is_valid unmap
is_valid-unmap no_addr h = absurd (ground arith)
is_valid-unmap (v4 n) h = refl
is_valid-unmap (v6 hi lo) h = elim (Bool-cases (hi == 0 && lo / 2 ^ 32 == 0xffff)) [
  | inl e ↦ rw e refl
  | inr e ↦ rw e refl
]

-- The guard of the HTTP client refuses, of the valid addresses, exactly those that the DNS page does
-- not show.
pub is_public_addr-is_unsafe_ip :
    (a : Addr) → is_valid a ≡ true → is_public_addr (unmap a) ≡ not (is_unsafe_ip a)
unfolding is_unsafe_ip
is_public_addr-is_unsafe_ip a valid = filter_lem (unmap a) (is_valid-unmap a valid)

safe-IsUnlisted : (a : Addr) → is_valid a ≡ true → is_unsafe_ip a ≡ false → IsUnlisted (unmap a)
safe-IsUnlisted a valid safe =
    IsUnlisted-unmap a (is_public_addr-is_unsafe_ip a valid ∙ ap not safe)

unfoldable pub AllUnlisted : List Addr → Type 0
AllUnlisted ips = All (λ ip. IsUnlisted (unmap ip)) ips

first_unsafe-AllUnlisted :
    (ips : List Addr)
    → All (λ ip. is_valid ip ≡ true) ips
    → first_unsafe ips ≡ none
    → AllUnlisted ips
unfolding first_unsafe AllUnlisted
first_unsafe-AllUnlisted [] valid h = tt
first_unsafe-AllUnlisted (ip ∷ ips) valid h = elim (Bool-cases (is_unsafe_ip ip)) [
  | inl e ↦ absurd (ground arith)
  | inr e ↦ (safe-IsUnlisted ip valid.0 e, first_unsafe-AllUnlisted ips valid.1 (ground arith))
]

module _ (parse_ip : Text → Option Addr) (lookup_ip : Text → Option (List Addr))
    (effective_tld_plus_one : Text → Option Text)
    (parse_valid : (s : Text) (ip : Addr) → parse_ip s ≡ some ip → is_valid ip ≡ true)
    (lookup_valid : (s : Text) (ips : List Addr)
      → lookup_ip s ≡ some ips
      → All (λ ip. is_valid ip ≡ true) ips) where
  -- Neither host is an address, and both have the same registered domain.
  unfoldable pub SharesDomain : Text → Option Text → Type 0
  SharesDomain dst none = ⊥
  SharesDomain dst (some prev) =
      (parse_ip (host_only prev) ≡ none)
      × (parse_ip dst ≡ none)
      × ((root : Text) × (effective_tld_plus_one (host_only prev) ≡ some root)
          × (effective_tld_plus_one dst ≡ some root))

  same_root-eq :
      (a b : Option Text)
      → same_root parse_ip lookup_ip effective_tld_plus_one a b ≡ true
      → (root : Text) × (a ≡ some root) × (b ≡ some root)
  unfolding same_root
  same_root-eq (some a) (some b) h = (a, refl, ap some (sym (text_eq→eq a b h)))
  same_root-eq (some a) none h = absurd (ground arith)
  same_root-eq none root h = absurd (ground arith)

  stays-SharesDomain :
      (dst : Text) (prev : Option Text)
      → stays parse_ip lookup_ip effective_tld_plus_one dst prev ≡ true
      → SharesDomain dst prev
  unfolding stays SharesDomain same_registered_domain
  stays-SharesDomain dst none h = absurd (ground arith)
  stays-SharesDomain dst (some prev) h = elim (Option-cases (parse_ip (host_only prev))) [
    | inr (ip, e) ↦ absurd (ground arith)
    | inl e ↦ elim (Option-cases (parse_ip dst)) [
      | inr (ip, f) ↦ absurd (ground arith)
      | inl f ↦ (
        e,
        f,
        same_root-eq (effective_tld_plus_one (host_only prev)) (effective_tld_plus_one dst)
            (ground (arith, e, f, h)),
      )
    ]
  ]

  -- where an allowed request may go
  unfoldable pub MayGo : Text → Option Text → Type 0
  MayGo dst prev =
      SharesDomain dst prev
      ⊎ ((ip : Addr) × (parse_ip dst ≡ some ip) × IsUnlisted (unmap ip))
      ⊎ ((ips : List Addr) × (lookup_ip dst ≡ some ips) × AllUnlisted ips)

  check_lookup-AllUnlisted :
      (dst : Text) (found : Option (List Addr))
      → lookup_ip dst ≡ found
      → check_lookup parse_ip lookup_ip effective_tld_plus_one found ≡ none
      → (ips : List Addr) × (lookup_ip dst ≡ some ips) × AllUnlisted ips
  unfolding check_lookup
  check_lookup-AllUnlisted dst none e h = absurd (ground arith)
  check_lookup-AllUnlisted dst (some ips) e h =
      (ips, e, first_unsafe-AllUnlisted ips (lookup_valid dst ips e) h)

  check_literal-MayGo :
      (dst : Text) (prev : Option Text) (literal : Option Addr)
      → parse_ip dst ≡ literal
      → check_literal parse_ip lookup_ip effective_tld_plus_one dst literal ≡ none
      → MayGo dst prev
  unfolding check_literal MayGo
  check_literal-MayGo dst prev none e h =
      inr (inr (check_lookup-AllUnlisted dst (lookup_ip dst) refl h))
  check_literal-MayGo dst prev (some ip) e h = elim (Bool-cases (is_unsafe_ip ip)) [
    | inl unsafe ↦ absurd (ground arith)
    | inr safe ↦ inr (inl (ip, e, safe-IsUnlisted ip (parse_valid dst ip e) safe))
  ]

  -- Where parsing and looking up give valid addresses only, a redirect that is allowed comes after at
  -- most four requests, and it goes to a host with the registered domain of the last of them, neither
  -- an address, or to an address, or to a host all of whose addresses are such, that is not
  -- unspecified, loopback, private, link-local or multicast. Nothing is said of other special blocks.
  pub redirect_policy-MayGo :
      (host : Text) (via : List Text)
      → redirect_policy parse_ip lookup_ip effective_tld_plus_one host via ≡ none
      → (length via < 5) × MayGo (host_only host) (back via)
  unfolding redirect_policy MayGo
  redirect_policy-MayGo host via h = elim (Bool-cases (leb 5 (length via))) [
    | inl e ↦ absurd (ground arith)
    | inr e ↦
        elim (Bool-cases
          (stays parse_ip lookup_ip effective_tld_plus_one (host_only host) (back via))) [
            | inl s ↦ (ground arith, inl (stays-SharesDomain (host_only host) (back via) s))
            | inr s ↦ (
              ground arith,
              check_literal-MayGo (host_only host) (back via) (parse_ip (host_only host)) refl
                  (rw (e, s) at h),
            )
          ]
  ]

module _ (parse_ip : Text → Option Addr) (lookup_ip : Text → Option (List Addr))
    (effective_tld_plus_one : Text → Option Text) where
  -- The hosts of a request and of the redirects that were followed from it.
  pub data Chain : List Text → Type 0 where
    begin : (host : Text) → Chain (host ∷ [])
    hop :
        {via : List Text} (host : Text)
        → Chain via
        → redirect_policy parse_ip lookup_ip effective_tld_plus_one host via ≡ none
        → Chain (via ++ (host ∷ []))

  allowed_length :
      (host : Text) (via : List Text)
      → redirect_policy parse_ip lookup_ip effective_tld_plus_one host via ≡ none
      → length via < 5
  unfolding redirect_policy
  allowed_length host via h = elim (Bool-cases (leb 5 (length via))) [
    | inl e ↦ absurd (ground arith)
    | inr e ↦ ground arith
  ]

  -- Following redirects ends: at most five requests are made, so at most four redirects are followed,
  -- whatever the upstreams answer.
  pub Chain-length : {via : List Text} → Chain via → length via ≤ 5
  Chain-length (begin host) = omega arith
  Chain-length (hop {via = via} host c h) =
      omega (arith, length-append via (host ∷ []), allowed_length host via h)
