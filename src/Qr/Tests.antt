-- ===== src/Qr/Tests.antt =====
-- Runs of service/qr.
use imagelet.Base.{◌≡◌, refl, false, true, [], some}
use imagelet.Base.Text.{codes, trim_space, trim_left, to_upper}
use imagelet.Render.{Mode}
use imagelet.Qr.{
  QrRequest, qr_high, qr_medium, parse_qr_level, level_of, qr_unsupported, for_a_day, default_text,
  serve_qr, encode_text, encoded, text_or_default,
}

program : Unit {0}
unfolding parse_qr_level level_of trim_space trim_left to_upper serve_qr encode_text encoded
    text_or_default
program = tt

levels :
    (parse_qr_level (codes " h ") ≡ qr_high)
    × (parse_qr_level (codes "HH") ≡ qr_medium)
    × (parse_qr_level [] ≡ qr_medium)
unfolding program
levels = (refl, refl, refl)

abbrev blank : QrRequest
blank = record { pylon_wanted = false; qr_mode = Mode.svg; text_query = []; ec_query = [] }

-- the deploy URL is encoded when the query names no text
encodes_default :
    serve_qr (λ text level mode. some text) (λ text body. body) blank
    ≡ for_a_day (codes "image/svg+xml") default_text
unfolding program
encodes_default = refl

refuses_pylon :
    serve_qr
      (λ text level mode. some text)
      (λ text body. body)
      (record blank { pylon_wanted = true })
    ≡ qr_unsupported
unfolding program
refuses_pylon = refl
