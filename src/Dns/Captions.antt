-- ===== src/Dns/Captions.antt =====
-- service/dns/dns.go: the rows of a banner. `netip.Addr.String` is the parameter `addr_string`.
use imagelet.Base.{
  ℕ, zero, suc, ◌+◌, ◌-◌, ◌/◌, ◌%◌, Bool, true, false, ◌||◌, ◌&&◌, List, [], ◌∷◌, ◌++◌, map, Option,
  none, some, ltb, leb, ◌==◌, if◌then◌else◌, length, take,
}
use imagelet.Base.Text.{Text, codes, join, to_upper}
use imagelet.Render.Sanitize.{strip_pylon_syntax}
use imagelet.Dns.Addresses.{Addr}
use imagelet.Dns.Records.{Mx, Soa, Caa, Srv, TxtSummary, Sets}

abbrev pub caption_budget : ℕ
caption_budget = 60

-- U+2026
abbrev pub truncate_suffix : Text
truncate_suffix = 0x2026 ∷ []

-- what `sanitizerReplacer` puts for a character
unfoldable pub replacement : ℕ → Text
replacement c =
    if c == b':'
    then codes ";"
    else if c == b'%'
    then codes "pct"
    else if c == b',' || c == 0x25b2 || c == 0x25bc
    then codes " "
    else c ∷ []

-- `sanitizerReplacer.Replace(s)`
unfoldable pub replace_all : Text → Text
unfolding replacement
replace_all [] = []
replace_all (c ∷ s) = replacement c ++ replace_all s

unfoldable pub truncate_runes : Text → ℕ → Text
truncate_runes s n = if leb (length s) n then s else take n s

unfoldable pub fit_caption : Text → Text
unfolding truncate_runes
fit_caption s =
    if ltb caption_budget (length s)
    then truncate_runes s (caption_budget - 1) ++ truncate_suffix
    else s

unfoldable pub sanitize : Text → Text
unfolding fit_caption replace_all strip_pylon_syntax
sanitize s = fit_caption (strip_pylon_syntax (replace_all s))

-- `fmt.Sprintf("%d", n)`, with fuel for each digit
unfoldable pub digits : ℕ → ℕ → Text → Text
digits zero n acc = acc
digits (suc fuel) n acc =
    let acc' = (b'0' + n % 10) ∷ acc in
    let rest = digits fuel (n / 10) acc' in if n / 10 == 0 then acc' else rest

unfoldable pub decimal : ℕ → Text
unfolding digits
decimal n = digits (suc n) n []

-- the separator of a row, with U+00B7
abbrev pub separator : Text
separator = b' ' ∷ 0xb7 ∷ b' ' ∷ []

abbrev is_blank : Text → Bool
is_blank [] = true
is_blank (c ∷ s) = false

-- a loop that appends what is not blank
add_part : Text → Text → List Text → List Text
add_part [] part parts = parts
add_part (c ∷ s) part parts = part ∷ parts

unfoldable pub join_addrs : (Addr → Text) → List Addr → Text
unfolding join
join_addrs addr_string addrs = join separator (map addr_string addrs)

mx_parts : List Mx → List Text
unfolding add_part sanitize decimal
mx_parts [] = []
mx_parts (m ∷ mxs) =
    let host = sanitize m.host in add_part host (decimal m.pref ++ codes " " ++ host) (mx_parts mxs)

unfoldable pub format_mx : List Mx → Text
unfolding mx_parts join
format_mx mxs = join separator (mx_parts mxs)

ns_parts : List Text → List Text
unfolding add_part sanitize
ns_parts [] = []
ns_parts (n ∷ nss) = let s = sanitize n in add_part s s (ns_parts nss)

unfoldable pub format_ns : List Text → Text
unfolding ns_parts join
format_ns nss = join separator (ns_parts nss)

-- nothing, the singular, or the number with the plural
counted_part : ℕ → Text → Text → List Text
unfolding decimal
counted_part n one many =
    if ltb 0 n then (if n == 1 then one ∷ [] else (decimal n ++ many) ∷ []) else []

unfoldable pub format_txt : TxtSummary → Text
unfolding counted_part join
format_txt t = join separator (
    (if t.has_spf then codes "spf" ∷ [] else [])
    ++ (if t.has_dmarc then codes "dmarc" ∷ [] else [])
    ++ counted_part t.dkim_count (codes "dkim") (codes " dkim")
    ++ counted_part t.verification_count (codes "1 verification") (codes " verifications")
    ++ counted_part t.other_count (codes "1 other") (codes " other"))

unfoldable pub format_soa : Option Soa → Text
unfolding sanitize decimal
format_soa none = []
format_soa (some s) =
    let ns = sanitize s.ns in
    let mbox = sanitize s.mbox in
    if is_blank ns && is_blank mbox && s.serial == 0
    then []
    else ns ++ codes " " ++ mbox ++ codes " " ++ decimal s.serial

caa_part : Caa → Text
unfolding sanitize decimal
caa_part r = decimal r.flag ++ codes " " ++ sanitize r.tag ++ codes " " ++ sanitize r.value

unfoldable pub format_caa : List Caa → Text
unfolding caa_part join
format_caa caa = join separator (map caa_part caa)

more : ℕ → Text
unfolding decimal
more zero = []
more (suc n) = separator ++ codes "+" ++ decimal (suc n) ++ codes " more"

unfoldable pub format_srv : List Srv → Text
unfolding sanitize decimal more
format_srv [] = []
format_srv (first ∷ srvs) =
    decimal first.priority
    ++ codes " "
    ++ decimal first.weight
    ++ codes " "
    ++ decimal first.port
    ++ codes " "
    ++ sanitize first.target
    ++ more (length srvs)

abbrev label_width : ℕ
label_width = 6

-- `strings.Repeat(" ", n)`
spaces : ℕ → Text
spaces zero = []
spaces (suc n) = b' ' ∷ spaces n

-- a row of the card, unless its value is blank
unfoldable pub caption_row : Text → Text → List Text
unfolding spaces
caption_row label [] = []
caption_row label (c ∷ value) =
    (label ++ spaces (label_width - length label) ++ codes "  " ++ c ∷ value) ∷ []

-- U+2713
abbrev check_mark : Text
check_mark = 0x2713 ∷ []

unfoldable pub dns_captions : (Addr → Text) → Sets → List Text
unfolding caption_row join_addrs sanitize format_mx format_ns format_txt format_soa format_caa
    format_srv
dns_captions addr_string r =
    caption_row (codes "A") (join_addrs addr_string r.a)
    ++ caption_row (codes "AAAA") (join_addrs addr_string r.aaaa)
    ++ caption_row (codes "CNAME") (sanitize r.cname)
    ++ caption_row (codes "MX") (format_mx r.mx)
    ++ caption_row (codes "NS") (format_ns r.ns)
    ++ caption_row (codes "TXT") (format_txt r.txt)
    ++ caption_row (codes "SOA") (format_soa r.soa)
    ++ caption_row (codes "CAA") (format_caa r.caa)
    ++ caption_row (codes "SRV") (format_srv r.srv)
    ++ caption_row (codes "DNSSEC") (if r.dnssec_verified then check_mark else [])

unfoldable pub dns_headline : Text → Text
unfolding to_upper
dns_headline host = spaced (to_upper host)
  where
    spaced : Text → Text
    spaced [] = []
    spaced (c ∷ s) = if c == b'_' then b' ' ∷ s else c ∷ s
