-- ===== src/HtmlCache/Key.antt =====
-- internal/htmlcache/htmlcache.go: `cacheKey`, up to the text that is hashed. The query is the map
-- that `URL.Query` returned; the hash is an argument.
use imagelet.Base.{
  Bool, true, false, List, [], ◌∷◌, ◌++◌, Option, none, some, map, ltb, ◌==◌, if◌then◌else◌,
}
use imagelet.Base.Assoc.{lookup}
use imagelet.Base.Lists.{take}
use imagelet.Base.Text.{Text, codes, text_eq, fold, join, Text-discrete}

abbrev pub Query : Type 0
Query = List (Text × List Text)

-- `s < t`, byte by byte; code points are in the order of their UTF-8 bytes
unfoldable pub text_ltb : Text → Text → Bool
text_ltb s [] = false
text_ltb [] (d ∷ t) = true
text_ltb (c ∷ s) (d ∷ t) = if ltb c d then true else if c == d then text_ltb s t else false

-- `sort.Strings`
unfoldable pub insert_sorted : Text → List Text → List Text
insert_sorted s [] = s ∷ []
insert_sorted s (t ∷ l) = if text_ltb t s then t ∷ insert_sorted s l else s ∷ t ∷ l

unfoldable pub sort : List Text → List Text
unfolding insert_sorted text_ltb
sort [] = []
sort (s ∷ l) = insert_sorted s (sort l)

abbrev pub query_keys : Query → List Text
query_keys = map (λ e. e.0)

-- `q[k]`
unfoldable pub values : Query → Text → List Text
unfolding lookup
values q k = elim (lookup Text-discrete k q) [ none ↦ [] | some vs ↦ vs ]

unfoldable pub pair : Query → Text → Text
unfolding values join
pair q k = k ++ b'=' ∷ join (codes ",") (values q k)

-- the loop over the sorted keys
unfoldable pub pairs : Query → List Text → Text
unfolding pair
pairs q [] = []
pairs q (k ∷ []) = pair q k
pairs q (k ∷ k' ∷ ks) = pair q k ++ b'&' ∷ pairs q (k' ∷ ks)

-- `isMozilla`: `strings.EqualFold` on a prefix that is all ASCII
unfoldable pub is_mozilla : Text → Bool
unfolding fold
is_mozilla ua = text_eq (map fold (take 8 ua)) (codes "mozilla/")

pub record Request : Type 0 where
  pub method : Text
  pub path : Text
  pub query : Query
  pub accept : Text
  pub user_agent : Text

-- the part of the key that the query gives
unfoldable pub query_text : Query → Text
unfolding sort pairs
query_text q = pairs q (sort (query_keys q))

-- `locale` is the result of the extractor, if one is registered.
unfoldable pub around : Option Text → Request → Text → Text
unfolding is_mozilla
around locale g query =
    let ua = if is_mozilla g.user_agent then codes "ua=mozilla" else codes "ua=other" in
    let loc : Text = elim locale [ none ↦ [] | some l ↦ codes "|loc=" ++ l ] in
    g.method ++ b' ' ∷ (g.path ++ b'?' ∷ (query ++ b'|' ∷ (g.accept ++ b'|' ∷ (ua ++ loc))))

unfoldable pub key_text : Option Text → Request → Text
unfolding query_text around
key_text locale g = around locale g (query_text g.query)

unfoldable pub cache_key : (Text → Text) → Option Text → Request → Text
cache_key hash locale g = hash (key_text locale g)
