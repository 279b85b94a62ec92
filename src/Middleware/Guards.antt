-- ===== src/Middleware/Guards.antt =====
-- middleware and internal/i18n: bounds on what a request can bring about.
use imagelet.Base.{
  ℕ, ◌+◌, ◌*◌, ◌≡◌, ◌≤◌, ◌⊎◌, refl, sym, ◌∙◌, arith, Bool, true, false, ◌||◌, [], ◌∷◌, ◌++◌, Option,
  none, some, if◌then◌else◌, Bool-cases, inl, inr,
}
use imagelet.Base.Text.{Text, codes, has_prefix, text_eq, text_eq→eq, to_lower, trim_space}
use imagelet.HtmlCache.Key.{key_text, around, query_text, is_mozilla}
use imagelet.HtmlCache.Key
use imagelet.Middleware.Context.{Inbound, Context, Locale}
use imagelet.Middleware.Clients.{locale_string}
use imagelet.Middleware.Dates.{
  hour, date_override_min_age, date_override_max_future, stash_date, dated, parsed, detect_date,
  get_date, not_zero,
}
use imagelet.Middleware.Urls.{Values, scheme_of, absolute_url}

module _ {L : Type 0} (local : L) (load : Text → Option L) (parse_date : Text → L → Option ℕ)
    (set_date : (override now : ℕ) → L → ℕ) where
  stash_date_bounds :
      (o : Option ℕ) (now : ℕ) (c : Context L) {t : ℕ}
      → c.date ≡ none
      → not_zero local load parse_date set_date
          (stash_date local load parse_date set_date o now c).date
        ≡ some t
      → (now + 12 * hour ≤ t + date_override_min_age)
        × (t ≤ now + date_override_max_future + 12 * hour)
  unfolding stash_date not_zero
  stash_date_bounds none now c e h = absurd (ground arith)
  stash_date_bounds (some u) now c e h = ground arith

  dated_bounds :
      (v : Text) (now : ℕ) (c : Context L) {t : ℕ}
      → c.date ≡ none
      → not_zero local load parse_date set_date (dated local load parse_date set_date v now c).date
        ≡ some t
      → (now + 12 * hour ≤ t + date_override_min_age)
        × (t ≤ now + date_override_max_future + 12 * hour)
  unfolding dated not_zero
  dated_bounds [] now c e h = absurd (ground arith)
  dated_bounds (d ∷ v) now c e h =
      stash_date_bounds (parsed local load parse_date set_date (d ∷ v) c) now c e h

  -- Where no date was set before, the date that a request sets is at most 15 years of 365 days before
  -- the present and, since it is noon of its day, at most 36 hours after it.
  pub get_date_bounds :
      (r : Inbound) (now : ℕ) (c : Context L) {t : ℕ}
      → c.date ≡ none
      → get_date local load parse_date set_date (detect_date local load parse_date set_date r now c)
        ≡ some t
      → (now ≤ t + 15 * 365 * 24 * hour) × (t ≤ now + 36 * hour)
  unfolding get_date detect_date
  get_date_bounds r now c e h =
      let (lo, hi) = dated_bounds (r.query (codes "date")) now c e h in
      (omega (arith, lo), omega (arith, hi))

chosen :
    (proto : Text) (tls : Bool) {s : Text}
    → (if text_eq proto (codes "http") || text_eq proto (codes "https")
        then proto
        else if tls
        then codes "https"
        else codes "http")
      ≡ s
    → (s ≡ codes "http") ⊎ (s ≡ codes "https")
chosen proto tls e = elim (Bool-cases (text_eq proto (codes "http"))) [
  | inl h ↦ inl (sym (rw h at e) ∙ text_eq→eq proto (codes "http") h)
  | inr n ↦ elim (Bool-cases (text_eq proto (codes "https"))) [
    | inl h ↦ inr (sym (rw (n, h) at e) ∙ text_eq→eq proto (codes "https") h)
    | inr m ↦ other tls (rw (n, m) at e)
  ]
]
  where
    other :
        (tls : Bool) {s : Text}
        → (if tls then codes "https" else codes "http") ≡ s
        → (s ≡ codes "http") ⊎ (s ≡ codes "https")
    other true e = inr (sym e)
    other false e = inl (sym e)

scheme_of-cases : (r : Inbound) → (scheme_of r ≡ codes "http") ⊎ (scheme_of r ≡ codes "https")
unfolding scheme_of
scheme_of-cases r = chosen (to_lower (trim_space (r.header (codes "X-Forwarded-Proto")))) r.tls refl

-- The absolute URL of a page is one of http or https, whatever the forwarded scheme.
pub absolute_url-has_prefix :
    (parse_query : Text → Values) (encode : Values → Text) (r : Inbound) (override : Text)
    → (has_prefix (absolute_url parse_query encode r override) (codes "http://")
        || has_prefix (absolute_url parse_query encode r override) (codes "https://"))
      ≡ true
unfolding absolute_url
absolute_url-has_prefix parse_query encode r override = elim (scheme_of-cases r) [
  | inl e ↦ rw e refl
  | inr e ↦ rw e refl
]

cancel : (l : Text) {m n : Text} → l ++ m ≡ l ++ n → m ≡ n
cancel [] e = e
cancel (c ∷ l) e = cancel l (ground (arith, e))

locale_string-injective : (l m : Locale) → locale_string l ≡ locale_string m → l ≡ m
unfolding locale_string
locale_string-injective l m e = ground arith

-- Two locales give two keys to the response cache, for any one request.
pub key_text-locale_string :
    (l m : Locale) (g : Key.Request)
    → key_text (some (locale_string l)) g ≡ key_text (some (locale_string m)) g
    → l ≡ m
unfolding key_text around
key_text-locale_string l m g e =
    let ua = if is_mozilla g.user_agent then codes "ua=mozilla" else codes "ua=other" in
    let path = cancel (b' ' ∷ []) (cancel g.method e) in
    let query = cancel (b'?' ∷ []) (cancel g.path path) in
    let accept = cancel (b'|' ∷ []) (cancel (query_text g.query) query) in
    let agent = cancel (b'|' ∷ []) (cancel g.accept accept) in
    locale_string-injective l m (cancel (codes "|loc=") (cancel ua agent))
