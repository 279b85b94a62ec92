-- ===== src/Middleware/Clients.antt =====
-- middleware/client.go, middleware/region.go and internal/i18n/i18n.go: the kind of a client, its
-- country and its language.
use imagelet.Base.{Bool, true, false, ◌||◌, List, [], ◌∷◌, Option, none, some, if◌then◌else◌}
use imagelet.Base.Text.{Text, codes, text_eq, contains, trim_space, to_lower, to_upper}
use imagelet.Render.{Mode}
use imagelet.Middleware.Context.{Inbound, Context, Locale, en, zh_tw, zh_cn}

abbrev pub cli_tools : List Text
cli_tools =
    codes "curl/"
    ∷ codes "wget"
    ∷ codes "httpie"
    ∷ codes "go-http-client"
    ∷ codes "python-requests"
    ∷ codes "python-urllib"
    ∷ codes "libwww-perl"
    ∷ codes "lwp-"
    ∷ codes "okhttp"
    ∷ codes "java/"
    ∷ codes "powershell"
    ∷ []

abbrev pub unfurl_bots : List Text
unfurl_bots =
    codes "facebookexternalhit"
    ∷ codes "twitterbot"
    ∷ codes "slackbot"
    ∷ codes "linkedinbot"
    ∷ codes "linkedininspector"
    ∷ codes "discordbot"
    ∷ codes "telegrambot"
    ∷ codes "whatsapp"
    ∷ codes "pinterestbot"
    ∷ codes "redditbot"
    ∷ codes "embedly"
    ∷ codes "vkshare"
    ∷ codes "applebot"
    ∷ codes "skypeuripreview"
    ∷ codes "line/"
    ∷ []

unfoldable pub contains_any : Text → List Text → Bool
contains_any s [] = false
contains_any s (n ∷ needles) = if contains s n then true else contains_any s needles

unfoldable pub classify_low : Text → Mode
unfolding contains_any
classify_low low =
    if contains_any low cli_tools
    then Mode.ascii
    else if contains_any low unfurl_bots
    then Mode.png
    else if contains low (codes "mozilla")
    then Mode.html
    else Mode.png

unfoldable pub classify_agent : Text → Mode
unfolding classify_low to_lower
classify_agent ua = classify_low (to_lower ua)

unfoldable pub detect_client : {L : Type 0} → Inbound → Context L → Context L
unfolding classify_agent
detect_client r c = record c { mode = some (classify_agent (r.header (codes "User-Agent"))) }

unfoldable pub get_mode : {L : Type 0} → Context L → Mode
get_mode c = elim c.mode [ none ↦ Mode.ascii | some m ↦ m ]

-- the `switch` of `ResolveMode`
unfoldable pub mode_of_format : Text → Option Mode
mode_of_format q =
    if text_eq q (codes "html")
    then some Mode.html
    else if text_eq q (codes "svg")
    then some Mode.svg
    else if text_eq q (codes "png")
    then some Mode.png
    else if text_eq q (codes "ascii")
    then some Mode.ascii
    else none

unfoldable pub format_of : Inbound → Text
unfolding to_lower trim_space
format_of r = to_lower (trim_space (r.query (codes "format")))

unfoldable pub resolve_mode : {L : Type 0} → Inbound → Context L → Mode
unfolding mode_of_format get_mode format_of
resolve_mode r c = elim (mode_of_format (format_of r)) [ none ↦ get_mode c | some m ↦ m ]

unfoldable pub wants_pylon_source : Inbound → Bool
unfolding format_of
wants_pylon_source r =
    if contains (r.header (codes "Accept")) (codes "text/pylon")
    then true
    else if text_eq (format_of r) (codes "pylon")
    then true
    else false

-- `RegionDetector`
unfoldable pub stash_country : {L : Type 0} → Text → Context L → Context L
stash_country [] c = c
stash_country (d ∷ v) c = record c { country = some (d ∷ v) }

unfoldable pub detect_region : {L : Type 0} → Inbound → Context L → Context L
unfolding stash_country to_upper trim_space
detect_region r c = stash_country (to_upper (trim_space (r.header (codes "CF-IPCountry")))) c

abbrev pub default_country : Text
default_country = codes "US"

unfoldable pub country_or : Option Text → Text
country_or none = default_country
country_or (some []) = default_country
country_or (some (d ∷ v)) = d ∷ v

unfoldable pub get_country : {L : Type 0} → Context L → Text
unfolding country_or
get_country c = country_or c.country

-- `Locale.String`
unfoldable pub locale_string : Locale → Text
locale_string zh_tw = codes "zh-TW"
locale_string zh_cn = codes "zh-CN"
locale_string en = codes "en"

-- the `switch` of `parseLocaleQuery`
unfoldable pub locale_of_lang : Text → Option Locale
locale_of_lang q =
    if text_eq q []
    then none
    else if text_eq q (codes "en")
    then some en
    else if text_eq q (codes "zh-cn") || text_eq q (codes "zh-hans")
    then some zh_cn
    else if text_eq q (codes "zh") || text_eq q (codes "zh-tw") || text_eq q (codes "zh-hant")
    then some zh_tw
    else none

unfoldable pub parse_locale_query : Text → Option Locale
unfolding locale_of_lang to_lower trim_space
parse_locale_query s = locale_of_lang (to_lower (trim_space s))

unfoldable pub country_to_locale : Text → Option Locale
country_to_locale v =
    if text_eq v (codes "TW") || text_eq v (codes "HK") || text_eq v (codes "MO")
    then some zh_tw
    else if text_eq v (codes "CN") || text_eq v (codes "SG")
    then some zh_cn
    else none

unfoldable pub or_country : Option Locale → Option Locale → Locale
or_country (some loc) by_country = loc
or_country none (some loc) = loc
or_country none none = en

unfoldable pub resolve_locale : {L : Type 0} → Inbound → Context L → Locale
unfolding parse_locale_query country_to_locale get_country or_country
resolve_locale r c =
    or_country (parse_locale_query (r.query (codes "lang"))) (country_to_locale (get_country c))

-- `LocaleDetector`: the context, and the response's X-Imagelet-Locale
unfoldable pub detect_locale : {L : Type 0} → Inbound → Context L → Context L × Text
unfolding resolve_locale locale_string
detect_locale r c =
    let loc = resolve_locale r c in (record c { locale = some loc }, locale_string loc)

unfoldable pub get_locale : {L : Type 0} → Context L → Locale
get_locale c = elim c.locale [ none ↦ en | some loc ↦ loc ]

-- `LocaleString`, which the response cache mixes into its key
unfoldable pub get_locale_string : {L : Type 0} → Context L → Text
unfolding get_locale locale_string
get_locale_string c = locale_string (get_locale c)
