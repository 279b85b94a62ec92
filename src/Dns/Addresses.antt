-- ===== src/Dns/Addresses.antt =====
-- net/netip as far as service/dns/resolver uses it, and the filter of public addresses of
-- resolver/lookup.go. An IPv4 address is its 32-bit number, an IPv6 address the two 64-bit halves of
-- its number; zones do not occur.
use imagelet.Base.{
  ℕ, zero, suc, ◌+◌, ◌*◌, ◌/◌, ◌%◌, ◌^◌, Bool, true, false, not, ◌||◌, ◌&&◌, List, [], ◌∷◌, Option,
  none, some, ◌==◌, if◌then◌else◌, length, take,
}

pub data Addr : Type 0 where
  -- the zero value, which is not valid
  no_addr : Addr
  v4 : ℕ → Addr
  v6 : (hi lo : ℕ) → Addr

-- the number that bytes write, most significant first
unfoldable pub big_endian : List ℕ → ℕ → ℕ
big_endian [] n = n
big_endian (b ∷ bs) n = big_endian bs (n * 256 + b % 256)

unfoldable pub drop : ℕ → List ℕ → List ℕ
drop zero l = l
drop (suc n) [] = []
drop (suc n) (b ∷ bs) = drop n bs

-- `netip.AddrFromSlice`
unfoldable pub addr_from_slice : List ℕ → Option Addr
unfolding big_endian drop
addr_from_slice bs =
    if length bs == 4
    then some (v4 (big_endian bs 0))
    else if length bs == 16
    then some (v6 (big_endian (take 8 bs) 0) (big_endian (drop 8 bs) 0))
    else none

-- `net.IP.To4`, with `[]` for nil
unfoldable pub to4 : List ℕ → List ℕ
unfolding big_endian drop
to4 bs =
    if length bs == 4
    then bs
    else if length bs == 16 && big_endian (take 12 bs) 0 == 0xffff
    then drop 12 bs
    else []

-- `Addr.Unmap`
unfoldable pub unmap : Addr → Addr
unmap no_addr = no_addr
unmap (v4 n) = v4 n
unmap (v6 hi lo) = if hi == 0 && lo / 2 ^ 32 == 0xffff then v4 (lo % 2 ^ 32) else v6 hi lo

unfoldable pub is_valid : Addr → Bool
is_valid no_addr = false
is_valid (v4 n) = true
is_valid (v6 hi lo) = true

unfoldable pub is_private : Addr → Bool
is_private no_addr = false
is_private (v4 n) = n / 2 ^ 24 == 10 || n / 2 ^ 20 == 0xac1 || n / 2 ^ 16 == 0xc0a8
is_private (v6 hi lo) = hi / 2 ^ 57 == 0x7e

unfoldable pub is_loopback : Addr → Bool
is_loopback no_addr = false
is_loopback (v4 n) = n / 2 ^ 24 == 127
is_loopback (v6 hi lo) = hi == 0 && lo == 1

unfoldable pub is_link_local_unicast : Addr → Bool
is_link_local_unicast no_addr = false
is_link_local_unicast (v4 n) = n / 2 ^ 16 == 0xa9fe
is_link_local_unicast (v6 hi lo) = hi / 2 ^ 54 == 0x3fa

unfoldable pub is_link_local_multicast : Addr → Bool
is_link_local_multicast no_addr = false
is_link_local_multicast (v4 n) = n / 2 ^ 8 == 0xe00000
is_link_local_multicast (v6 hi lo) = hi / 2 ^ 56 == 0xff && hi / 2 ^ 48 % 16 == 2

unfoldable pub is_multicast : Addr → Bool
is_multicast no_addr = false
is_multicast (v4 n) = n / 2 ^ 28 == 0xe
is_multicast (v6 hi lo) = hi / 2 ^ 56 == 0xff

unfoldable pub is_unspecified : Addr → Bool
is_unspecified no_addr = false
is_unspecified (v4 n) = n == 0
is_unspecified (v6 hi lo) = hi == 0 && lo == 0

-- The addresses that a banner may show.
unfoldable pub is_public_addr : Addr → Bool
unfolding is_valid is_private is_loopback is_link_local_unicast is_link_local_multicast
    is_unspecified is_multicast
is_public_addr a =
    if not (is_valid a)
    then false
    else if is_private a
        || is_loopback a
        || is_link_local_unicast a
        || is_link_local_multicast a
        || is_unspecified a
        || is_multicast a
    then false
    else true
