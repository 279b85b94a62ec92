-- ===== src/HtmlCache/KeyOrder.antt =====
-- internal/htmlcache/htmlcache.go: which requests get one cache key.
use imagelet.Base.{◌≡◌, refl, sym, ap, ◌∙◌, true, false, List, [], ◌∷◌, ◌++◌, Option, arith}
use mathlib.Core.List.{append_assoc, Perm, Permᴰ}
use mathlib.Core.List.Permᴰ.{nil, cons, swap, trans}
use mathlib.Core.Logic.{∥∥₁_elim, ◌≢◌}
use native.Mathlib.Decide.{ℕ_discrete}
use imagelet.Base.Text.{Text}
use imagelet.HtmlCache.Key.{
  Query, text_ltb, insert_sorted, sort, query_keys, values, pair, pairs, Request, key_text,
  query_text, around,
}

pub text_ltb_asym : (s t : Text) → text_ltb s t ≡ true → text_ltb t s ≡ false
unfolding text_ltb
text_ltb_asym [] [] h = refl
text_ltb_asym [] (d ∷ t) h = refl
text_ltb_asym (c ∷ s) [] h = ground arith
text_ltb_asym (c ∷ s) (d ∷ t) h = ground (arith, text_ltb_asym s t)

pub text_ltb_total : (s t : Text) → text_ltb s t ≡ false → text_ltb t s ≡ false → s ≡ t
unfolding text_ltb
text_ltb_total [] [] h k = refl
text_ltb_total [] (d ∷ t) h k = ground arith
text_ltb_total (c ∷ s) [] h k = ground arith
text_ltb_total (c ∷ s) (d ∷ t) h k = ground (arith, text_ltb_total s t)

pub text_ltb_trans :
    (s t u : Text) → text_ltb s t ≡ true → text_ltb t u ≡ true → text_ltb s u ≡ true
unfolding text_ltb
text_ltb_trans s t [] h k = ground arith
text_ltb_trans s [] (e ∷ u) h k = ground arith
text_ltb_trans [] (d ∷ t) (e ∷ u) h k = refl
text_ltb_trans (c ∷ s) (d ∷ t) (e ∷ u) h k = ground (arith, text_ltb_trans s t u)

-- the order in which two texts are inserted does not matter
insert_sorted_comm :
    (s t : Text) (l : List Text)
    → insert_sorted s (insert_sorted t l) ≡ insert_sorted t (insert_sorted s l)
unfolding insert_sorted
insert_sorted_comm s t [] = ground (arith, text_ltb_asym s t, text_ltb_total s t)
insert_sorted_comm s t (u ∷ l) = ground (
  arith,
  insert_sorted_comm s t l,
  text_ltb_asym s t,
  text_ltb_total s t,
  text_ltb_trans s t u,
  text_ltb_trans t s u,
  text_ltb_trans s u t,
  text_ltb_trans t u s,
  text_ltb_trans u s t,
  text_ltb_trans u t s,
  text_ltb_total s u,
  text_ltb_total t u,
  text_ltb_asym s u,
  text_ltb_asym t u,
)

sort-Permᴰ : {l m : List Text} → Permᴰ l m → sort l ≡ sort m
unfolding sort
sort-Permᴰ nil = refl
sort-Permᴰ (cons e p) = cc (sort-Permᴰ p)
sort-Permᴰ (swap {a} {b} {l = l} e e') = insert_sorted_comm a b (sort l) ∙ cc
sort-Permᴰ (trans p q) = sort-Permᴰ p ∙ sort-Permᴰ q

texts_set : IsSet (List Text)
texts_set = hlevel ℕ_discrete

-- Sorting forgets the order.
pub sort-perm : {l m : List Text} → Perm l m → sort l ≡ sort m
sort-perm p = ∥∥₁_elim p (texts_set _ _) sort-Permᴰ

pairs-same :
    (q q' : Query) (ks : List Text)
    → ((k : Text) → values q k ≡ values q' k)
    → pairs q ks ≡ pairs q' ks
unfolding pairs pair
pairs-same q q' [] h = refl
pairs-same q q' (k ∷ []) h = rw (h k)
pairs-same q q' (k ∷ k' ∷ ks) h = rw (h k) (rw (pairs-same q q' (k' ∷ ks) h))

-- The key does not depend on the order in which the map of the parameters is visited: two maps with
-- the same parameters, each with the same list of values in the same order, give one key.
pub key_text-perm :
    (locale : Option Text) (g : Request) (q : Query)
    → Perm (query_keys g.query) (query_keys q)
    → ((k : Text) → values g.query k ≡ values q k)
    → key_text locale g ≡ key_text locale (record g { query = q })
unfolding key_text
key_text-perm locale g q p same =
    ap (around locale g)
      (pairs-same g.query q (sort (query_keys g.query)) same ∙ ap (pairs q) (sort-perm p))

module _ (k v k' v' : Text) where
  abbrev merged : Query
  merged = (k, (v ++ b'&' ∷ (k' ++ b'=' ∷ v')) ∷ []) ∷ []

  abbrev separate : Query
  separate = (k, v ∷ []) ∷ (k', v' ∷ []) ∷ []

  values-separate :
      k ≢ k'
      → (values separate k ≡ v ∷ [])
        × (values separate k' ≡ v' ∷ [])
        × (values merged k ≡ (v ++ b'&' ∷ (k' ++ b'=' ∷ v')) ∷ [])
  unfolding values
  values-separate ne = ground arith

  sort-separate : text_ltb k' k ≡ false → sort (query_keys separate) ≡ k ∷ k' ∷ []
  unfolding sort
  sort-separate le = rw le

  query_text-merged : k ≢ k' → text_ltb k' k ≡ false → query_text merged ≡ query_text separate
  unfolding query_text pairs pair
  query_text-merged ne le =
      let e = values-separate ne in
      rw (sort-separate le, e.0, e.1, e.2)
        (sym (append_assoc k (b'=' ∷ v) (b'&' ∷ (k' ++ b'=' ∷ v'))))

  -- For two parameters k and k', k not after k', the query with the one value v&k'=v' under k has
  -- the key of the query with v under k and v' under k'.
  pub key_text-merged :
      (locale : Option Text) (g : Request)
      → k ≢ k'
      → text_ltb k' k ≡ false
      → key_text locale (record g { query = merged })
        ≡ key_text locale (record g { query = separate })
  unfolding key_text
  key_text-merged locale g ne le = ap (around locale g) (query_text-merged ne le)
