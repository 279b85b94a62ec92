-- ===== src/Qr.antt =====
-- service/qr/qr.go with ParseQRLevel of render/qr.go: the page of a QR code. The encoder and the
-- drawing are the parameter `draw`, and `inject_og_meta` is the header of the HTML page.
mod Tests
use imagelet.Base.{
  ℕ, ◌≡◌, ◌≤◌, refl, arith, Bool, inl, inr, Bool-cases, [], ◌∷◌, Option, none, some, ltb,
  if◌then◌else◌,
}
use imagelet.Base.Text.{Text, codes, text_eq, trim_space, to_upper}
use imagelet.HtmlCache.Policy.{should_store, parse_max_age, seconds}
use imagelet.Render.{Mode}
use imagelet.Dns.Hosts.{byte_length}
use imagelet.Dns.Names.{is_empty}
use imagelet.Dns.Page.{PageResponse}
use imagelet.Dns.Pages.{captured_response, store_refused, none-some, same_age}

pub data QrLevel : Type 0 where
  qr_low : QrLevel
  qr_medium : QrLevel
  qr_quartile : QrLevel
  qr_high : QrLevel

unfoldable pub level_of : Text → QrLevel
level_of s =
    if text_eq s (codes "L")
    then qr_low
    else if text_eq s (codes "Q")
    then qr_quartile
    else if text_eq s (codes "H")
    then qr_high
    else qr_medium

unfoldable pub parse_qr_level : Text → QrLevel
unfolding level_of to_upper trim_space
parse_qr_level s = level_of (to_upper (trim_space s))

abbrev pub default_text : Text
default_text = codes "https://imglet.sh"

abbrev pub max_qr_text_bytes : ℕ
max_qr_text_bytes = 1024

abbrev pub qr_pylon_message : Text
qr_pylon_message = codes "pylon source is not supported on /qr; try ?format=png|svg|html|ascii"

-- what the handler reads of a request: `WantsPylonSource`, `ResolveMode` and the queries
pub record QrRequest : Type 0 where
  pub pylon_wanted : Bool
  pub qr_mode : Mode
  pub text_query : Text
  pub ec_query : Text

unfoldable pub text_or_default : Text → Text
text_or_default [] = default_text
text_or_default (c ∷ s) = c ∷ s

-- a status alone, without headers
abbrev pub status_only : ℕ → PageResponse
status_only status = record {
  status = status;
  vary = none;
  cache_control = none;
  content_type = none;
  body = [];
}

abbrev pub qr_unsupported : PageResponse
qr_unsupported = record {
  status = 415;
  vary = none;
  cache_control = none;
  content_type = some (codes "text/plain; charset=utf-8");
  body = qr_pylon_message;
}

abbrev pub for_a_day : Text → Text → PageResponse
for_a_day kind body = record {
  status = 200;
  vary = some (codes "User-Agent");
  cache_control = some (codes "public, max-age=86400");
  content_type = some kind;
  body = body;
}

module _ (draw : Text → QrLevel → Mode → Option Text) (inject_og_meta : Text → Text → Text) where
  -- the end of `Handler`, with what `render.QR` returns
  unfoldable pub encoded : Mode → Text → Option Text → PageResponse
  encoded mode text none = status_only 500
  encoded Mode.png text (some body) = for_a_day (codes "image/png") body
  encoded Mode.svg text (some body) = for_a_day (codes "image/svg+xml") body
  encoded Mode.html text (some body) =
      for_a_day (codes "text/html; charset=utf-8") (inject_og_meta text body)
  encoded Mode.ascii text (some body) = for_a_day (codes "text/plain; charset=utf-8") body

  -- `Handler` of a text
  unfoldable pub encode_text : Mode → Text → Text → PageResponse
  unfolding encoded byte_length parse_qr_level
  encode_text mode text ec =
      if ltb max_qr_text_bytes (byte_length text)
      then status_only 414
      else encoded mode text (draw text (parse_qr_level ec) mode)

  unfoldable pub serve_qr : QrRequest → PageResponse
  unfolding encode_text text_or_default
  serve_qr c =
      if c.pylon_wanted
      then qr_unsupported
      else encode_text c.qr_mode (text_or_default c.text_query) c.ec_query

  encoded-should_store :
      (mode : Mode) (text : Text) (drawn : Option Text) {d : ℕ}
      → should_store (captured_response (encoded mode text drawn)) ≡ some d
      → (mode ≡ Mode.html) × (d ≡ seconds 86400)
  unfolding encoded captured_response should_store parse_max_age
  encoded-should_store mode text none h = absurd (ground arith)
  encoded-should_store Mode.png text (some body) h = absurd (ground arith)
  encoded-should_store Mode.svg text (some body) h = absurd (ground arith)
  encoded-should_store Mode.ascii text (some body) h = absurd (ground arith)
  encoded-should_store Mode.html text (some body) h = (refl, ground arith)

  encode_text-should_store :
      (mode : Mode) (text ec : Text) {d : ℕ}
      → should_store (captured_response (encode_text mode text ec)) ≡ some d
      → (mode ≡ Mode.html) × (byte_length text ≤ 1024) × (d ≡ seconds 86400)
  unfolding encode_text captured_response
  encode_text-should_store mode text ec h =
      elim (Bool-cases (ltb max_qr_text_bytes (byte_length text))) [
        | inl e ↦ absurd (
            none-some (store_refused (captured_response (status_only 414)) (omega arith))
              (rw e at h))
        | inr e ↦
            let (page, age) =
              encoded-should_store mode text (draw text (parse_qr_level ec) mode) (rw e at h) in
            (page, ground arith, age)
      ]

  -- The response cache stores a page of /qr only in HTML, for a text of at most 1,024 bytes, and for
  -- a day: it stores no refusal and no failure.
  serve_qr-should_store :
      (c : QrRequest) {d : ℕ}
      → should_store (captured_response (serve_qr c)) ≡ some d
      → (c.qr_mode ≡ Mode.html)
        × (byte_length (text_or_default c.text_query) ≤ 1024)
        × (d ≡ seconds 86400)
  unfolding serve_qr captured_response
  serve_qr-should_store c h = elim (Bool-cases c.pylon_wanted) [
    | inl e ↦
        absurd
          (none-some (store_refused (captured_response qr_unsupported) (omega arith)) (rw e at h))
    | inr e ↦
        encode_text-should_store c.qr_mode (text_or_default c.text_query) c.ec_query (rw e at h)
  ]
