-- ===== src/Github/Cards.antt =====
-- service/github/github.go: the rows of the cards, and the records of service/github/profile that
-- they show. A count is a Go int, an instant its nanoseconds since the zero time, and `format_month`
-- is Format with the layout Jan 2006.
use imagelet.Base.{ℕ, suc, ◌-◌, ◌*◌, ◌/◌, ◌^◌, Bool, List, [], ◌∷◌, ◌++◌, ltb, ◌==◌, if◌then◌else◌}
use imagelet.Base.Int.{ℤ, pos, negsuc}
use imagelet.Base.Text.{Text, codes, join, trim_space, trim_prefix}
use imagelet.Render.Sanitize.{strip_pylon_syntax}
use imagelet.Dns.Captions.{decimal, replace_all, sanitize, separator}

pub record Profile : Type 0 where
  pub login : Text
  pub name : Text
  pub bio : Text
  pub company : Text
  pub blog : Text
  pub location : Text
  pub twitter_username : Text
  pub public_repos : ℤ
  pub public_gists : ℤ
  pub followers : ℤ
  pub following : ℤ
  pub is_organization : Bool
  pub joined_at : ℕ

pub record Repo : Type 0 where
  pub full_name : Text
  pub description : Text
  pub stars : ℤ
  pub forks : ℤ
  pub open_issues : ℤ
  pub language : Text
  pub license : Text
  pub default_branch : Text
  pub pushed_at : ℕ
  pub latest_release : Text

unfoldable pub sanitize_full : Text → Text
unfolding replace_all strip_pylon_syntax
sanitize_full s = strip_pylon_syntax (replace_all s)

unfoldable pub sanitize_blog : Text → Text
unfolding sanitize trim_space
sanitize_blog blog =
    sanitize (trim_prefix (trim_prefix (trim_space blog) (codes "https://")) (codes "http://"))

-- `%d` of an int
unfoldable pub int_text : ℤ → Text
unfolding decimal
int_text (pos n) = decimal n
int_text (negsuc n) = b'-' ∷ decimal (suc n)

abbrev pub minute : ℕ
minute = 60 * 10 ^ 9

abbrev pub day : ℕ
day = 24 * 60 * minute

-- `time.Since`, which stops at the greatest duration; before the instant it is negative, which is
-- less than a minute as 0 is
unfoldable pub since : (now t : ℕ) → ℕ
since now t = if ltb (now - t) (2 ^ 63) then now - t else 2 ^ 63 - 1

unfoldable pub humanized : ℕ → Text
unfolding decimal
humanized d =
    if ltb d minute
    then codes "just now"
    else if ltb d (60 * minute)
    then decimal (d / minute) ++ codes "m ago"
    else if ltb d day
    then decimal (d / (60 * minute)) ++ codes "h ago"
    else if ltb d (30 * day)
    then decimal (d / day) ++ codes "d ago"
    else if ltb d (365 * day)
    then decimal (d / (30 * day)) ++ codes "mo ago"
    else decimal (d / (365 * day)) ++ codes "y ago"

unfoldable pub humanize_pushed : (now t : ℕ) → Text
unfolding humanized since
humanize_pushed now t = if t == 0 then [] else humanized (since now t)

-- a row with a prefix, unless its text is blank
unfoldable pub row : Text → Text → List Text
row prefix [] = []
row prefix (c ∷ s) = (prefix ++ c ∷ s) ∷ []

unfoldable pub non_empty : List Text → List Text
unfolding join
non_empty [] = []
non_empty (p ∷ parts) = join separator (p ∷ parts) ∷ []

unfoldable pub stats_row : Profile → Text
unfolding int_text
stats_row p =
    0x2605 ∷ codes " "
    ++ int_text p.followers
    ++ codes " followers"
    ++ separator
    ++ 0x2325 ∷ codes " "
    ++ int_text p.public_repos
    ++ codes " repos"
    ++ separator
    ++ int_text p.following
    ++ codes " following"
    ++ separator
    ++ int_text p.public_gists
    ++ codes " gists"

unfoldable pub without_at : Text → Text
unfolding trim_space
without_at s = trim_prefix (trim_space s) (codes "@")

-- a row that is left out if the text is blank before or after it is sanitized
unfoldable pub stripped_row : Text → Text → List Text
unfolding row sanitize
stripped_row prefix [] = []
stripped_row prefix (c ∷ s) = row prefix (sanitize (c ∷ s))

unfoldable pub place_row : Text → Text → List Text
place_row [] [] = []
place_row [] (c ∷ joined) = (c ∷ joined) ∷ []
place_row (c ∷ loc) [] = (c ∷ loc) ∷ []
place_row (c ∷ loc) (d ∷ joined) = ((c ∷ loc) ++ separator ++ d ∷ joined) ∷ []

module _ (format_month : ℕ → Text) where
  unfoldable pub joined : ℕ → Text
  joined t = if t == 0 then [] else codes "joined " ++ format_month t

  unfoldable pub user_captions : Profile → List Text
  unfolding row sanitize stats_row stripped_row without_at sanitize_blog place_row joined
  user_captions p =
      row [] (sanitize p.name)
      ++ row [] (sanitize p.bio)
      ++ (if p.is_organization then codes "Organization" ∷ [] else [])
      ++ stats_row p ∷ stripped_row [] (without_at p.company)
      ++ row [] (sanitize_blog p.blog)
      ++ stripped_row (codes "x.com/") (without_at p.twitter_username)
      ++ place_row (sanitize p.location) (joined p.joined_at)

unfoldable pub counts_row : Repo → Text
unfolding int_text
counts_row r =
    0x2605 ∷ codes " "
    ++ int_text r.stars
    ++ codes "  "
    ++ 0x2387 ∷ codes " "
    ++ int_text r.forks
    ++ codes "  "
    ++ 0x26a0 ∷ codes " "
    ++ int_text r.open_issues

unfoldable pub repo_captions : ℕ → Repo → List Text
unfolding row sanitize sanitize_full counts_row non_empty humanize_pushed
repo_captions now r =
    row [] (sanitize_full r.description)
    ++ counts_row r
      ∷ non_empty (
          row [] (sanitize r.language)
          ++ row [] (sanitize r.license)
          ++ row [] (sanitize r.default_branch))
    ++ non_empty (
        row (codes "pushed ") (humanize_pushed now r.pushed_at)
        ++ row (codes "release ") (sanitize r.latest_release))
