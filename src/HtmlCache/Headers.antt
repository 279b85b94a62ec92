-- ===== src/HtmlCache/Headers.antt =====
-- internal/htmlcache/htmlcache.go: the headers that are kept, and `serve`.
use imagelet.Base.{
  ℕ, ◌≡◌, ◌+◌, ◌-◌, not, Bool, true, List, [], ◌∷◌, none, arith, leb, ◌==◌, if◌then◌else◌, ◌||◌,
  ◌&&◌,
}
use imagelet.Base.Assoc.{lookup, insert, lookup-insert}
use imagelet.Base.Order.{has, Distinct}
use imagelet.Base.Text.{Text, codes, Text-discrete, contains}
use imagelet.HtmlCache.{Header, Entry}
use imagelet.Recency.{keys}
use imagelet.Recency.Invariant.{has-keys}

is_lower : ℕ → Bool
is_lower c = leb b'a' c && leb c b'z'

is_upper : ℕ → Bool
is_upper c = leb b'A' c && leb c b'Z'

is_token : ℕ → Bool
unfolding is_lower is_upper
is_token c =
    is_lower c
    || is_upper c
    || (leb b'0' c && leb c b'9')
    || contains (codes "!#$%&'*+-.^_`|~") (c ∷ [])

all_token : Text → Bool
unfolding is_token
all_token [] = true
all_token (c ∷ s) = is_token c && all_token s

capitalize : Bool → Text → Text
unfolding is_lower is_upper
capitalize up [] = []
capitalize up (c ∷ s) =
    let c' : ℕ = if up && is_lower c then c - 32 else if not up && is_upper c then c + 32 else c in
    c' ∷ capitalize (c == b'-') s

-- `http.CanonicalHeaderKey`
unfoldable pub canonical_header_key : Text → Text
unfolding all_token capitalize
canonical_header_key s = if all_token s then capitalize true s else s

abbrev pub kept : List Text
kept = codes "Content-Type" ∷ codes "Cache-Control" ∷ codes "Vary" ∷ codes "Link" ∷ []

unfoldable pub is_kept : Text → Bool
is_kept k = has Text-discrete k kept

-- the loop of `copyHeaders`
unfoldable pub copy_from : Header → Header → Header
copy_from [] out = out
copy_from ((k, vs) ∷ src) out = copy_from src (
    if is_kept (canonical_header_key k)
    then insert Text-discrete (canonical_header_key k) vs out
    else out)

unfoldable pub copy_headers : Header → Header
unfolding copy_from
copy_headers src = copy_from src []

pub record Response : Type 0 where
  pub status : ℕ
  pub headers : Header
  pub body : Text
  pub aborted : Bool

-- the loop of `serve`
unfoldable pub replay : Header → Header → Header
replay [] dst = dst
replay ((k, vs) ∷ src) dst = replay src (insert Text-discrete k vs dst)

unfoldable pub serve : {K : Type 0} → Entry K → Header → Response
unfolding replay
serve e dst = record {
  status = e.status;
  headers = insert Text-discrete (codes "X-Cache") (codes "HIT" ∷ []) (replay e.headers dst);
  body = e.body;
  aborted = true;
}

-- every key is in canonical form, as in a header that `Set` and `Add` filled
abbrev pub IsCanonical : Header → Type 0
IsCanonical [] = Unit {0}
IsCanonical ((k, vs) ∷ h) = (canonical_header_key k ≡ k) × IsCanonical h

lookup-copy_from :
    (src out : Header) (q : Text)
    → IsCanonical src
    → Distinct Text-discrete (keys src)
    → lookup Text-discrete q (copy_from src out) ≡ (
        if is_kept q && has Text-discrete q (keys src)
        then lookup Text-discrete q src
        else lookup Text-discrete q out)
unfolding copy_from lookup
lookup-copy_from [] out q c d = ground arith
lookup-copy_from ((k, vs) ∷ src) out q c d = ground (
  arith,
  lookup-copy_from src out q c.1 d.1,
  lookup-copy_from src (insert Text-discrete k vs out) q c.1 d.1,
  lookup-insert Text-discrete k q vs out,
)

-- A copy of headers with canonical, distinct keys holds the four headers that are replayed, with
-- their values, and nothing else.
pub lookup-copy_headers :
    (src : Header) (q : Text)
    → IsCanonical src
    → Distinct Text-discrete (keys src)
    → lookup Text-discrete q (copy_headers src)
      ≡ (if is_kept q then lookup Text-discrete q src else none)
unfolding copy_headers lookup
lookup-copy_headers src q c d =
    ground (arith, lookup-copy_from src [] q c d, has-keys Text-discrete q src)
