-- ===== src/Middleware/Urls.antt =====
-- middleware/url.go and middleware/sizelimit.go. `url.ParseQuery` and `Values.Encode` are those of
-- net/url: parameters over a map from keys to their values.
use imagelet.Base.{ℕ, ◌*◌, Bool, ◌||◌, List, [], ◌∷◌, ◌++◌, Option, none, some, ltb, if◌then◌else◌}
use imagelet.Base.Assoc.{insert}
use imagelet.Base.Text.{Text, codes, text_eq, trim_space, to_lower, Text-discrete}
use imagelet.Middleware.Context.{Inbound}

abbrev pub Values : Type 0
Values = List (Text × List Text)

-- the loop of `mergeQuery`
unfoldable pub put_all : Values → Values → Values
unfolding insert
put_all cur [] = cur
put_all cur ((k, v) ∷ ovr) = put_all (insert Text-discrete k v cur) ovr

-- the scheme: a forwarded one only if it is http or https
unfoldable pub scheme_of : Inbound → Text
unfolding to_lower trim_space
scheme_of r =
    let proto = to_lower (trim_space (r.header (codes "X-Forwarded-Proto"))) in
    if text_eq proto (codes "http") || text_eq proto (codes "https")
    then proto
    else if r.tls
    then codes "https"
    else codes "http"

unfoldable pub with_query : Text → Text
with_query [] = []
with_query (c ∷ q) = b'?' ∷ c ∷ q

module _ (parse_query : Text → Values) (encode : Values → Text) where
  unfoldable pub merge_query : Text → Text → Text
  unfolding put_all
  merge_query current [] = current
  merge_query current (c ∷ override) =
      encode (put_all (parse_query current) (parse_query (c ∷ override)))

  unfoldable pub absolute_url : Inbound → Text → Text
  unfolding scheme_of merge_query with_query
  absolute_url r override =
      scheme_of r
      ++ (codes "://" ++ (r.host ++ (r.path ++ with_query (merge_query r.raw_query override))))

abbrev pub max_request_path_bytes : ℕ
max_request_path_bytes = 1024

abbrev pub max_request_query_bytes : ℕ
max_request_query_bytes = 4 * 1024

abbrev pub max_request_body_bytes : ℕ
max_request_body_bytes = 64 * 1024

-- What `RequestSizeLimiter` does with a request whose path and query have these lengths in bytes:
-- it ends with a status, or goes on with a limit on the body, if there is one.
pub data Limited : Type 0 where
  aborted : ℕ → Limited
  next : Option ℕ → Limited

unfoldable pub limit_request : (path_bytes query_bytes : ℕ) → (has_body : Bool) → Limited
limit_request path_bytes query_bytes has_body =
    if ltb max_request_path_bytes path_bytes
    then aborted 414
    else if ltb max_request_query_bytes query_bytes
    then aborted 414
    else next (if has_body then some max_request_body_bytes else none)
