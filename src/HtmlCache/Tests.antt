-- ===== src/HtmlCache/Tests.antt =====
-- internal/htmlcache: runs on small inputs, and each theorem at an input that meets its hypotheses.
use imagelet.Base.{
  ℕ, ◌≡◌, ◌<◌, ◌≤◌, ◌⊎◌, ◌≢◌, ◌*◌, ◌^◌, All, refl, true, List, [], ◌∷◌, Option, none, some, take,
  arith, if◌then◌else◌, ℕ_discrete as dec,
}
use mathlib.Core.List.Perm
use imagelet.Base.Assoc
use imagelet.Base.Int.{pos}
use imagelet.Base.Text.{Text, codes, split, has_prefix}
use imagelet.Recency
use imagelet.Recency.{view}
use imagelet.HtmlCache
use imagelet.HtmlCache.{
  Header, Entry, Cache, lookup, new_with_capacity, acquire_flight, release_flight,
}
use imagelet.HtmlCache.Directives
use imagelet.HtmlCache.Directives.{Forbids, directives, rejected, last_max_age, to_duration}
use imagelet.HtmlCache.Flight.{
  Machine, leads, closing, initial, request, acquire, Reach, here, next, on_request, on_acquire,
}
use imagelet.HtmlCache.Interleavings
use imagelet.HtmlCache.Key.{Query, Request, key_text, values, text_ltb}
use imagelet.HtmlCache.KeyOrder
use imagelet.HtmlCache.Policy.{parse_max_age, Captured, should_store}
use imagelet.HtmlCache.Store
use imagelet.HtmlCache.Store.{IsValid, spec_lookup}

last_age_wins : parse_max_age (codes "public, max-age=60, Max-Age=30") ≡ some 30_000_000_000
unfolding parse_max_age
last_age_wins = refl

no_store_wins : parse_max_age (codes "max-age=60, no-store") ≡ none
unfolding parse_max_age
no_store_wins = refl

-- the duration wraps around into the past
overflow : parse_max_age (codes "max-age=9223372037") ≡ some 9_223_372_037_000_000_000
unfolding parse_max_age
overflow = refl

parse_max_age_lem_example : parse_max_age (codes "public, max-age=60") ≡ (
    if rejected (directives (split b',' (codes "public, max-age=60")))
    then none
    else to_duration (last_max_age (directives (split b',' (codes "public, max-age=60"))) none))
parse_max_age_lem_example = Directives.parse_max_age_lem (codes "public, max-age=60")

abbrev page : Captured
page = record {
  status_code = 200;
  content_type = codes "text/html; charset=utf-8";
  cache_control = codes "public, max-age=60";
}

should_store_sound_example :
    (n : ℕ) × ((page.status_code ≡ 0) ⊎ ((200 ≤ page.status_code) × (page.status_code < 300)))
    × (has_prefix page.content_type (codes "text/html") ≡ true)
    × All (λ raw. Forbids raw → ⊥) (split b',' page.cache_control)
    × (last_max_age (directives (split b',' page.cache_control)) none ≡ some n)
    × (0 < n)
    × (((n ≤ 9_223_372_036) × (60_000_000_000 ≡ n * 10 ^ 9)) ⊎ (9_223_372_036 < n))
unfolding should_store parse_max_age
should_store_sound_example = Directives.should_store_sound page refl

abbrev shown : ℕ → ℕ → Entry ℕ
shown key deadline = record {
  key = key;
  status = 200;
  headers = [];
  body = codes "<p>";
  deadline = deadline;
}

abbrev empty_cache : Cache ℕ
empty_cache = record { store = Recency.empty; flight = []; max = 2 }

empty-IsValid : IsValid dec empty_cache
unfolding new_with_capacity
empty-IsValid = Store.new_with_capacity-IsValid dec (pos 2)

view-store_example :
    view dec (HtmlCache.store dec (shown 1 50) empty_cache).store
    ≡ take 2 ((1, shown 1 50) ∷ Assoc.delete dec 1 (view dec empty_cache.store))
view-store_example = Store.view-store dec (shown 1 50) empty-IsValid

abbrev one_entry : Cache ℕ
one_entry = record empty_cache { store = record { items = (1, shown 1 50) ∷ []; lru = 1 ∷ [] } }

one_entry-IsValid : IsValid dec one_entry
unfolding HtmlCache.store Recency.put Recency.evict Assoc.lookup Assoc.insert
one_entry-IsValid = Store.store-IsValid dec (shown 1 50) empty-IsValid

view-lookup_example :
    ◌≡◌ {A = List (ℕ × Entry ℕ) × Option (Entry ℕ)}
      (view dec (lookup dec 1 20 one_entry).0.store, (lookup dec 1 20 one_entry).1)
      (spec_lookup dec 1 20 (view dec one_entry.store))
view-lookup_example = Store.view-lookup dec 1 20 one_entry-IsValid

abbrev reply : Header
reply = (codes "Vary", codes "Accept" ∷ []) ∷ (codes "Etag", codes "x" ∷ []) ∷ []

abbrev get_root : Request
get_root = record {
  method = codes "GET";
  path = codes "/";
  query = (codes "a", codes "1" ∷ []) ∷ (codes "b", codes "2" ∷ []) ∷ [];
  accept = [];
  user_agent = codes "mozilla/5.0";
}

abbrev reordered : Query
reordered = (codes "b", codes "2" ∷ []) ∷ (codes "a", codes "1" ∷ []) ∷ []

a_not_b : codes "a" ≢ codes "b"
a_not_b = ground arith

same_values : (k : Text) → values get_root.query k ≡ values reordered k
unfolding values
same_values k = ground (arith, a_not_b)

key_text-perm_example :
    key_text none get_root ≡ key_text none (record get_root { query = reordered })
key_text-perm_example = KeyOrder.key_text-perm none get_root reordered (Perm.swap _ _ _) same_values

key_text-merged_example :
    key_text none (record get_root { query = (codes "a", codes "1&b=2" ∷ []) ∷ [] })
    ≡ key_text none get_root
unfolding text_ltb
key_text-merged_example =
    KeyOrder.key_text-merged (codes "a") (codes "1") (codes "b") (codes "2") none get_root a_not_b
      refl

-- Two requests for one key: the first leads, the second waits.
abbrev both : Machine ℕ
both =
    on_acquire dec 1 7 5
      (on_acquire dec 0 7 5 (on_request dec 1 7 5 (on_request dec 0 7 5 (initial dec empty_cache))))

both-Reach : Reach dec (initial dec empty_cache) both
unfolding on_acquire on_request lookup acquire_flight Assoc.lookup Assoc.insert dec
both-Reach =
    next
      (next (next (next here (request 0 7 5 _ refl)) (request 1 7 5 _ refl)) (acquire 0 7 5 _ refl))
      (acquire 1 7 5 _ refl)

Reach-unique_leader_example : ◌≡◌ {A = ℕ} 0 0
unfolding on_acquire on_request lookup acquire_flight Assoc.lookup Assoc.insert dec
Reach-unique_leader_example =
    Interleavings.Reach-unique_leader dec empty_cache 0 0 7 both-Reach refl refl

Reach-waiting_example :
    (both.closed 0 ≡ true)
    ⊎ ((j : ℕ) × (leads dec (both.phase j) 7 ≡ true)
        × ((release_flight dec 7 both.cache).1 ≡ some 0))
    ⊎ ((j : ℕ) × (both.phase j ≡ closing (some 0)))
unfolding on_acquire on_request lookup acquire_flight Assoc.lookup Assoc.insert dec
Reach-waiting_example = Interleavings.Reach-waiting dec empty_cache 1 7 0 both-Reach refl
