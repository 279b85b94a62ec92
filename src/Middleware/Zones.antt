-- ===== src/Middleware/Zones.antt =====
-- middleware/timezone.go: the memo of locations. `load` is time.LoadLocation, `local` time.Local.
use imagelet.Base.{List, [], ◌∷◌, Option, none, some}
use imagelet.Base.Assoc.{lookup, insert}
use imagelet.Base.Text.{Text, codes, Text-discrete}
use imagelet.Middleware.Context.{Inbound, Context}

-- `locationCache`: what was loaded under a name, `none` for a name that is none
abbrev pub LocationCache : Type 0 → Type 0
LocationCache L = List (Text × Option L)

module _ {L : Type 0} (load : Text → Option L) (local : L) where
  unfoldable pub load_into : Text → Option (Option L) → LocationCache L → LocationCache L × Option L
  load_into name (some known) cache = (cache, known)
  load_into name none cache = (insert Text-discrete name (load name) cache, load name)

  unfoldable pub resolve_location : Text → LocationCache L → LocationCache L × Option L
  unfolding load_into lookup insert
  resolve_location [] cache = (cache, none)
  resolve_location (c ∷ name) cache =
      load_into (c ∷ name) (lookup Text-discrete (c ∷ name) cache) cache

  unfoldable pub stash_location : Option L → Context L → Context L
  stash_location none c = c
  stash_location (some loc) c = record c { location = some loc }

  -- `TimezoneDetector`
  unfoldable pub detect_timezone :
      Inbound → LocationCache L → Context L → LocationCache L × Context L
  unfolding resolve_location stash_location
  detect_timezone r cache c =
      let (cache', loc) = resolve_location (r.header (codes "CF-Timezone")) cache in
      (cache', stash_location loc c)

  unfoldable pub get_location : Context L → L
  get_location c = elim c.location [ none ↦ local | some loc ↦ loc ]
