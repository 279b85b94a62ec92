-- ===== src/Dns/Success.antt =====
-- service/dns/resolver/lookup.go: the records that a lookup returns once all nine goroutines have
-- returned without an error, in terms of the nine answers.
use mathlib.Core.List.{Perm}
use imagelet.Base.{
  ℕ, ◌≡◌, refl, ap, ◌∙◌, inl, inr, arith, Bool, true, List, [], ◌∷◌, Option, none, some, Bool-cases,
}
use imagelet.Base.Text.{Text}
use imagelet.DnsCache.{LookupError, Records}
use imagelet.Dns.Records.{Sets, QueryType}
use imagelet.Dns.Queries.{max_uint32}
use imagelet.Dns.Lookup.{
  Answers, Schedule, ad_of, ttl_of, per_query, enter_all, query_types, sections, empty_board,
  gather, lookup_result, wait, to_records,
}
use imagelet.Dns.Schedules.{enter_all-perm}
use imagelet.Dns.Aggregate.{
  rows_of, any, least_of, noted_ad, stored, enter_all-sets, enter_all-ad_any, store_all-rows_of,
}

any-true :
    (f : QueryType → Bool) (ks : List QueryType) → any f ks ≡ true → (k : QueryType) × (f k ≡ true)
unfolding any
any-true f [] h = absurd (ground arith)
any-true f (k ∷ ks) h = elim (Bool-cases (f k)) [
  | inl e ↦ (k, e)
  | inr e ↦ any-true f ks (ground arith)
]

lookup_result-none :
    (rec : Records Sets) (err : Option LookupError)
    → (lookup_result rec err).1 ≡ none
    → (lookup_result rec err).0 ≡ rec
unfolding lookup_result
lookup_result-none rec none h = refl
lookup_result-none rec (some err) h = absurd (ground arith)

module _ (host : Text) (r : Answers) (schedule : Schedule)
    (complete : Perm schedule.entered (sections query_types))
    (success : (gather host r schedule).1 ≡ none) where
  gathered :
      (gather host r schedule).0 ≡ to_records host (enter_all r (sections query_types) empty_board)
  unfolding gather
  gathered =
      lookup_result-none _ (wait r schedule.returns) success
      ∙ ap (to_records host) (enter_all-perm r complete empty_board)

  -- Where a lookup succeeds after every goroutine has gone through its critical sections, the
  -- records are the canonical host, the row that each answer gives, which is empty for a query that
  -- failed, and the DNSSEC mark exactly if one of the answers carried the AD bit.
  pub gather-rows :
      ((gather host r schedule).0.hostname ≡ host)
      × ((gather host r schedule).0.sets
          ≡ record (rows_of r) { dnssec_verified = any (per_query ad_of r) query_types })
  unfolding to_records sections stored noted_ad
  gather-rows =
      let board = enter_all r (sections query_types) empty_board in
      let sets = enter_all-sets r (sections query_types) empty_board ∙ store_all-rows_of r in
      let marked = enter_all-ad_any r (sections query_types) empty_board in
      let with_mark : Sets → Bool → Sets = λ s b. record s { dnssec_verified = b } in
      (
        ap (λ x. x.hostname) gathered,
        ap (λ x. x.sets) gathered
            ∙ ap (λ s. with_mark s board.ad_any) sets
            ∙ ap (with_mark (rows_of r)) marked,
      )

  total : ℕ
  total = least_of (per_query ttl_of r) query_types max_uint32
