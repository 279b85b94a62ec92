-- ===== src/SafeHttp/Tests.antt =====
-- Runs of internal/safehttp, and each theorem at an input that meets its hypotheses.
use imagelet.Base.{
  subst, ◌≡◌, ◌≤◌, ◌<◌, refl, arith, true, false, List, [], ◌∷◌, ◌++◌, Option, none, some, All,
  length, back,
}
use imagelet.Base.Text.{Text, codes, text_eq}
use imagelet.Dns.Addresses.{Addr, v4, is_valid}
use imagelet.SafeHttp.{redirect_policy, is_unsafe_ip, host_only, unsafe_host}
use imagelet.SafeHttp.Redirects
use imagelet.SafeHttp.Redirects.{Chain, begin, hop, MayGo}

program : Unit {0}
unfolding redirect_policy is_unsafe_ip is_valid
program = tt

abbrev parse_ip : Text → Option Addr
parse_ip s = none

abbrev resolved : Text → Addr
resolved s = elim (text_eq s (codes "b.io")) [ true ↦ v4 0x01020304 | false ↦ v4 0x0a000001 ]

abbrev lookup_ip : Text → Option (List Addr)
lookup_ip s = some (resolved s ∷ [])

abbrev root : Text → Option Text
root s = some s

parse_valid : (s : Text) (ip : Addr) → parse_ip s ≡ some ip → is_valid ip ≡ true
parse_valid s ip h = absurd (ground arith)

resolved_valid : (s : Text) → is_valid (resolved s) ≡ true
unfolding is_valid
resolved_valid s =
    elim (text_eq s (codes "b.io"))
      as (λ b. is_valid (elim b [ true ↦ v4 0x01020304 | false ↦ v4 0x0a000001 ]) ≡ true) [
        | true ↦ refl
        | false ↦ refl
      ]

lookup_valid :
    (s : Text) (ips : List Addr) → lookup_ip s ≡ some ips → All (λ ip. is_valid ip ≡ true) ips
lookup_valid s ips h =
    let same : resolved s ∷ [] ≡ ips = ground arith in
    subst (All (λ ip. is_valid ip ≡ true)) same (resolved_valid s, tt)

allowed : redirect_policy parse_ip lookup_ip root (codes "b.io:443") (codes "a.io" ∷ []) ≡ none
unfolding program
allowed = refl

refused :
    redirect_policy parse_ip lookup_ip root (codes "c.io") (codes "a.io" ∷ [])
    ≡ some (unsafe_host (v4 0x0a000001))
unfolding program
refused = refl

redirect_policy-MayGo_example :
    (length (codes "a.io" ∷ []) < 5)
    × MayGo parse_ip lookup_ip root parse_valid lookup_valid
        (host_only (codes "b.io:443"))
        (back (codes "a.io" ∷ []))
redirect_policy-MayGo_example =
    Redirects.redirect_policy-MayGo parse_ip lookup_ip root parse_valid lookup_valid
      (codes "b.io:443") (codes "a.io" ∷ []) allowed

followed : Chain parse_ip lookup_ip root ((codes "a.io" ∷ []) ++ (codes "b.io:443" ∷ []))
followed = hop (codes "b.io:443") (begin (codes "a.io")) allowed

Chain-length_example : length ((codes "a.io" ∷ []) ++ (codes "b.io:443" ∷ [])) ≤ 5
Chain-length_example = Redirects.Chain-length parse_ip lookup_ip root followed

valid_v4 : is_valid (v4 0x0a000001) ≡ true
unfolding program
valid_v4 = refl
