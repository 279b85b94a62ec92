-- ===== src/Dns/Errors.antt =====
-- service/dns/resolver/lookup.go: which errors of the nine queries fail a lookup.
use imagelet.Base.{
  ◌≡◌, refl, ◌⊎◌, inl, inr, arith, Bool, false, ◌||◌, List, [], ◌∷◌, Option, none, some, is_some,
}
use imagelet.Base.Text.{Text}
use imagelet.DnsCache.{LookupError, Records, is_throttled}
use imagelet.Dns.Records.{
  Sets, QueryType, type_a, type_aaaa, type_cname, type_mx, type_ns, type_txt, type_soa, type_caa,
  type_srv,
}
use imagelet.Dns.Lookup.{
  Answers, Schedule, query_types, error_of, per_query, pass_through_throttle, returned, first_error,
  wait, lookup_result, gather, no_records,
}
use imagelet.Dns.Aggregate.{any}

-- whether the limiter denied a query
unfoldable pub throttled : Option LookupError → Bool
unfolding is_throttled
throttled none = false
throttled (some err) = is_throttled err

-- Whether the NS query failed, or the limiter denied one of the nine.
unfoldable pub fails : Answers → Bool
unfolding error_of throttled any
fails r = is_some (error_of _ r.ns) || any (λ k. throttled (per_query error_of r k)) query_types

pass_error :
    (x : Option LookupError) {err : LookupError}
    → pass_through_throttle x ≡ some err
    → err ≡ LookupError.self_throttled
unfolding pass_through_throttle is_throttled
pass_error none h = absurd (ground arith)
pass_error (some err) h = ground arith

returned_error :
    (r : Answers) (k : QueryType) {err : LookupError}
    → returned r k ≡ some err
    → (err ≡ LookupError.self_throttled) ⊎ (error_of _ r.ns ≡ some err)
unfolding returned
returned_error r type_ns h = inr h
returned_error r type_a h = inl (pass_error _ h)
returned_error r type_aaaa h = inl (pass_error _ h)
returned_error r type_cname h = inl (pass_error _ h)
returned_error r type_mx h = inl (pass_error _ h)
returned_error r type_txt h = inl (pass_error _ h)
returned_error r type_soa h = inl (pass_error _ h)
returned_error r type_caa h = inl (pass_error _ h)
returned_error r type_srv h = inl (pass_error _ h)

first_error-some :
    (x y : Option LookupError) {err : LookupError}
    → first_error x y ≡ some err
    → (x ≡ some err) ⊎ (y ≡ some err)
unfolding first_error
first_error-some none y h = inr h
first_error-some (some err) y h = inl h

wait_error :
    (r : Answers) (ks : List QueryType) {err : LookupError}
    → wait r ks ≡ some err
    → (err ≡ LookupError.self_throttled) ⊎ (error_of _ r.ns ≡ some err)
unfolding wait
wait_error r [] h = absurd (ground arith)
wait_error r (k ∷ ks) h = elim (first_error-some (returned r k) (wait r ks) h) [
  | inl e ↦ returned_error r k e
  | inr e ↦ wait_error r ks e
]

lookup_result_error :
    (rec : Records Sets) (x : Option LookupError) {err : LookupError}
    → (lookup_result rec x).1 ≡ some err
    → (x ≡ some err) × ((lookup_result rec x).0 ≡ no_records)
unfolding lookup_result
lookup_result_error rec none h = absurd (ground arith)
lookup_result_error rec (some err) h = (h, refl)

module _ (host : Text) (r : Answers) (schedule : Schedule) where
  -- A lookup that fails returns no records, and the error is that of the limiter or the one of the
  -- query for NS.
  pub gather_error :
      {err : LookupError}
      → (gather host r schedule).1 ≡ some err
      → ((gather host r schedule).0 ≡ no_records)
        × ((err ≡ LookupError.self_throttled) ⊎ (error_of _ r.ns ≡ some err))
  unfolding gather
  gather_error h =
      let (e, none_found) = lookup_result_error _ (wait r schedule.returns) h in
      (none_found, wait_error r schedule.returns e)
