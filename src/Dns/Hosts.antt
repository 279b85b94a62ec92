-- ===== src/Dns/Hosts.antt =====
-- service/dns/dns.go: `validateAndCanonicalize`. Whether netip.ParseAddr takes a text for an address,
-- and `idna.Lookup.ToASCII`, are parameters. A length in bytes is that of the text in UTF-8.
use imagelet.Base.{
  ℕ, ◌+◌, Bool, true, false, not, ◌||◌, ◌&&◌, List, [], ◌∷◌, Option, none, some, ltb, leb, ◌==◌,
  if◌then◌else◌,
}
use imagelet.Base.Text.{Text, codes, has_prefix, to_lower, trim_suffix}
use imagelet.Dns.Names.{is_ascii, is_empty}
use mathlib.Core.List.{reverse}

abbrev pub hostname_max_len : ℕ
hostname_max_len = 253

unfoldable pub byte_length : Text → ℕ
byte_length [] = 0
byte_length (c ∷ s) =
    (if ltb c 0x80 then 1 else if ltb c 0x800 then 2 else if ltb c 0x10000 then 3 else 4)
    + byte_length s

unfoldable pub is_digit : ℕ → Bool
is_digit c = leb b'0' c && leb c b'9'

-- `[A-Za-z0-9]`
unfoldable pub is_alnum : ℕ → Bool
unfolding is_digit
is_alnum c = (leb b'A' c && leb c b'Z') || (leb b'a' c && leb c b'z') || is_digit c

-- `hostRe` as an automaton: where it stands in a host
pub data Place : Type 0 where
  -- before the first character
  start : Place
  -- after the underscore that may begin a label
  underscore : Place
  -- after a letter or a digit: here a label may end
  word : Place
  hyphen : Place
  -- after a dot: here another label may begin, or the host may end
  dot : Place
  -- no match any more
  lost : Place

unfoldable pub begin_label : ℕ → Place
unfolding is_alnum
begin_label c = if c == b'_' then underscore else if is_alnum c then word else lost

unfoldable pub next_place : Place → ℕ → Place
unfolding begin_label is_alnum
next_place start c = begin_label c
next_place underscore c = if is_alnum c then word else lost
next_place word c =
    if is_alnum c then word else if c == b'-' then hyphen else if c == b'.' then dot else lost
next_place hyphen c = if is_alnum c then word else if c == b'-' then hyphen else lost
next_place dot c = begin_label c
next_place lost c = lost

unfoldable pub accepts : Place → Bool
accepts word = true
accepts dot = true
accepts _ = false

unfoldable pub match_from : Place → Text → Bool
unfolding next_place accepts
match_from p [] = accepts p
match_from p (c ∷ s) = match_from (next_place p c) s

-- `hostRe.MatchString(host)`
unfoldable pub matches_host_re : Text → Bool
unfolding match_from
matches_host_re = match_from start

abbrev pub refused_suffixes : List Text
refused_suffixes =
    codes ".local"
    ∷ codes ".localhost"
    ∷ codes ".internal"
    ∷ codes ".lan"
    ∷ codes ".example"
    ∷ codes ".test"
    ∷ codes ".invalid"
    ∷ codes ".arpa"
    ∷ []

-- `strings.HasSuffix(s, suf)`
unfoldable pub has_suffix : Text → Text → Bool
has_suffix s suf = has_prefix (reverse s) (reverse suf)

unfoldable pub is_refused : Text → List Text → Bool
unfolding has_suffix
is_refused host [] = false
is_refused host (suf ∷ rest) = if has_suffix host suf then true else is_refused host rest

-- what follows the last dot of `s`, or `last`
unfoldable pub label_after : Text → Text → Text
label_after last [] = last
label_after last (c ∷ s) = if c == b'.' then label_after s s else label_after last s

unfoldable pub last_label : Text → Text
unfolding label_after
last_label host = label_after host host

-- the loop of `allDigits`
unfoldable pub digits_only : Text → Bool
unfolding is_digit
digits_only [] = true
digits_only (c ∷ s) = if not (is_digit c) then false else digits_only s

unfoldable pub all_digits : Text → Bool
unfolding digits_only
all_digits [] = false
all_digits (c ∷ s) = digits_only (c ∷ s)

-- the checks after the translation
unfoldable pub checked_host : Text → Option Text
unfolding is_empty byte_length matches_host_re is_refused last_label all_digits
checked_host host =
    if is_empty host || ltb hostname_max_len (byte_length host) || not (matches_host_re host)
    then none
    else if is_refused host refused_suffixes
    then none
    else if all_digits (last_label host)
    then none
    else some host

unfoldable pub checked_some : Option Text → Option Text
unfolding checked_host
checked_some none = none
checked_some (some host) = checked_host host

module _ (parses_as_addr : Text → Bool) (to_ascii : Text → Option Text) where
  unfoldable pub translate : Text → Option Text
  unfolding is_empty checked_host checked_some is_ascii
  translate host =
      if is_empty host
      then none
      else if parses_as_addr host
      then none
      else if not (is_ascii host)
      then checked_some (to_ascii host)
      else checked_host host

  unfoldable pub validate_and_canonicalize : Text → Option Text
  unfolding translate is_empty byte_length to_lower trim_suffix
  validate_and_canonicalize raw =
      if is_empty raw || ltb hostname_max_len (byte_length raw)
      then none
      else translate (to_lower (trim_suffix raw (codes ".")))
