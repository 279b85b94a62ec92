-- ===== src/Dns/Names.antt =====
-- service/dns/resolver/client.go: the names of a lookup, that is the canonical form of a host and the
-- list of resolvers. `idna.Lookup.ToASCII` is not under src/.
use imagelet.Base.{
  ℕ, Bool, true, false, ◌||◌, List, [], ◌∷◌, Option, none, some, ltb, ◌==◌, if◌then◌else◌,
}
use imagelet.Base.Text.{Text, codes, contains, trim_space, trim_suffix, to_lower, split}

pub data NameError : Type 0 where
  empty_hostname : NameError
  -- an error of `ToASCII`
  idna : NameError
  invalid_resolver : Text → NameError
  empty_list : NameError

pub data Checked (A : Type 0) : Type 0 where
  wrong : NameError → Checked A
  right : A → Checked A

-- Every byte of a text is below 0x80 when every code point is.
unfoldable pub is_ascii : Text → Bool
is_ascii [] = true
is_ascii (c ∷ s) = if ltb c 0x80 then is_ascii s else false

unfoldable pub is_empty : Text → Bool
is_empty [] = true
is_empty (c ∷ s) = false

translated : Option Text → Checked Text
translated none = Checked.wrong NameError.idna
translated (some s) = Checked.right s

canonical : (Text → Option Text) → Text → Checked Text
unfolding is_ascii is_empty translated
canonical to_ascii host =
    if is_empty host
    then Checked.wrong NameError.empty_hostname
    else if is_ascii host
    then Checked.right host
    else translated (to_ascii host)

unfoldable pub canonicalize : (Text → Option Text) → Text → Checked Text
unfolding canonical to_lower trim_space trim_suffix
canonicalize to_ascii host =
    canonical to_ascii (trim_suffix (to_lower (trim_space host)) (codes "."))

-- `strings.Cut` at the last colon: what stands before it and after it
unfoldable pub cut_last : Text → Option (Text × Text)
cut_last [] = none
cut_last (c ∷ s) = cut_at c s (cut_last s)
  where
    cut_at : ℕ → Text → Option (Text × Text) → Option (Text × Text)
    cut_at c s none = if c == b':' then some ([], s) else none
    cut_at c s (some (host, port)) = some (c ∷ host, port)

-- what stands before the first `]` and after it
unfoldable pub cut_bracket : Text → Option (Text × Text)
cut_bracket [] = none
cut_bracket (c ∷ s) = closed c s (cut_bracket s)
  where
    closed : ℕ → Text → Option (Text × Text) → Option (Text × Text)
    closed c s none = if c == b']' then some ([], s) else none
    closed c s (some (inner, rest)) = if c == b']' then some ([], s) else some (c ∷ inner, rest)

has_colon : Text → Bool
has_colon s = contains s (codes ":")

has_bracket : Text → Bool
has_bracket s = contains s (codes "[") || contains s (codes "]")

plain : Option (Text × Text) → Option (Text × Text)
unfolding has_colon has_bracket
plain none = none
plain (some (host, port)) =
    if has_colon host || has_bracket host || has_bracket port then none else some (host, port)

after_bracket : Text → Text → Option (Text × Text)
unfolding has_colon has_bracket
after_bracket inner [] = none
after_bracket inner (c ∷ port) =
    if c == b':'
    then (if has_colon port || has_bracket port || contains inner (codes "[")
        then none
        else some (inner, port))
    else none

in_brackets : Option (Text × Text) → Option (Text × Text)
unfolding after_bracket
in_brackets none = none
in_brackets (some (inner, rest)) = after_bracket inner rest

-- `net.SplitHostPort`, with `none` for every error
unfoldable pub split_host_port : Text → Option (Text × Text)
unfolding cut_last cut_bracket plain in_brackets
split_host_port [] = none
split_host_port (c ∷ s) =
    if c == b'[' then in_brackets (cut_bracket s) else plain (cut_last (c ∷ s))

has_both : Option (Text × Text) → Bool
has_both none = false
has_both (some ([], port)) = false
has_both (some (c ∷ host, [])) = false
has_both (some (c ∷ host, d ∷ port)) = true

add_resolver : Text → Checked (List Text) → Checked (List Text)
add_resolver p (Checked.wrong err) = Checked.wrong err
add_resolver p (Checked.right out) = Checked.right (p ∷ out)

-- the loop of `parseResolverList`
resolvers_of : List Text → Checked (List Text)
unfolding split_host_port has_both add_resolver is_empty trim_space
resolvers_of [] = Checked.right []
resolvers_of (raw ∷ parts) =
    let p = trim_space raw in
    let rest = resolvers_of parts in
    if is_empty p
    then rest
    else if has_both (split_host_port p)
    then add_resolver p rest
    else Checked.wrong (NameError.invalid_resolver p)

some_resolver : Checked (List Text) → Checked (List Text)
some_resolver (Checked.wrong err) = Checked.wrong err
some_resolver (Checked.right []) = Checked.wrong NameError.empty_list
some_resolver (Checked.right (p ∷ ps)) = Checked.right (p ∷ ps)

abbrev pub default_resolvers : Text
default_resolvers = codes "1.1.1.1:853,1.0.0.1:853"

unfoldable pub parse_resolver_list : Text → Checked (List Text)
unfolding resolvers_of some_resolver is_empty trim_space split
parse_resolver_list s =
    let trimmed = trim_space s in
    some_resolver
      (resolvers_of (split b',' (if is_empty trimmed then default_resolvers else trimmed)))
