-- ===== src/Middleware/Context.antt =====
-- What the middleware reads of a request, and the keys that it sets in gin's context. The types of a
-- location and of an instant are those of package time, so they are parameters.
use imagelet.Base.{ℕ, Bool, Option, none}
use imagelet.Base.Text.{Text}
use imagelet.Render.{Mode}

-- `GetHeader`, `Query`, and the fields of http.Request; a key that is not there reads as blank
pub record Inbound : Type 0 where
  pub header : Text → Text
  pub query : Text → Text
  pub host : Text
  pub path : Text
  pub raw_query : Text
  pub tls : Bool

-- `Locale` of internal/i18n
pub data Locale : Type 0 where
  en : Locale
  zh_tw : Locale
  zh_cn : Locale

-- the values under "imagelet.render.mode", "imagelet.region.country", "imagelet.location",
-- "imagelet.date.override" and "imagelet.i18n.locale"
pub record Context (L : Type 0) : Type 0 where
  pub mode : Option Mode
  pub country : Option Text
  pub location : Option L
  pub date : Option ℕ
  pub locale : Option Locale

abbrev pub no_values : {L : Type 0} → Context L
no_values = record { mode = none; country = none; location = none; date = none; locale = none }
