-- ===== src/Dns/Filter.antt =====
-- service/dns/resolver/lookup.go: the addresses that a lookup lets through.
use imagelet.Base.{
  ℕ, ◌≡◌, ◌≤◌, ◌<◌, ◌/◌, ◌^◌, ◌%◌, ◌==◌, ◌&&◌, ◌⊎◌, inl, inr, arith, sym, subst, Bool, true, List,
  [], ◌∷◌, Option, none, some, All, Bool-cases,
}
use imagelet.Base.Text.{Text}
use imagelet.DnsCache.{LookupError, Records}
use imagelet.Dns.Addresses.{
  Addr, no_addr, v4, v6, addr_from_slice, to4, unmap, is_public_addr, is_valid, is_private,
  is_loopback, is_link_local_unicast, is_link_local_multicast, is_multicast, is_unspecified,
}
use imagelet.Dns.Records.{
  Message, rr_a, rr_aaaa, Sets, QueryType, DnsQuery, RrData, Rr, type_a, type_aaaa, type_cname,
  type_mx, type_ns, type_txt, type_soa, type_caa, type_srv,
}
use imagelet.Dns.Names.{Checked, canonicalize}
use imagelet.Dns.Queries.{
  QueryResult, RowAnswer, Exchange, shown_addr, addr_of_a, addr_of_aaaa, keep_some, all_of,
  read_answer, lookup_a, lookup_aaaa,
}
use imagelet.Dns.Lookup.{
  Answers, Board, Section, Schedule, row, ad, ttl, store_answer, store_row, note_ad, note_ttl,
  enter, enter_all, gather, lookup_result, wait, to_records, answers, on_resolver, on_name,
  lookup_records, pick_resolver, empty_board,
}

abbrev Outside : ℕ → ℕ → ℕ → Type 0
Outside first end n = (n < first) ⊎ (end ≤ n)

-- A valid address outside the blocks 0.0.0.0, 10.0.0.0/8, 127.0.0.0/8, 169.254.0.0/16, 172.16.0.0/12,
-- 192.168.0.0/16 and 224.0.0.0/4, and outside ::, ::1, ::ffff:0:0/96, fc00::/7, fe80::/10 and
-- ff00::/8. Shared, reserved and documentation blocks are not on the list.
unfoldable pub IsUnlisted : Addr → Type 0
IsUnlisted no_addr = ⊥
IsUnlisted (v4 n) =
    (0 < n)
    × Outside 0x0a00_0000 0x0b00_0000 n
    × Outside 0x7f00_0000 0x8000_0000 n
    × Outside 0xa9fe_0000 0xa9ff_0000 n
    × Outside 0xac10_0000 0xac20_0000 n
    × Outside 0xc0a8_0000 0xc0a9_0000 n
    × Outside 0xe000_0000 0xf000_0000 n
IsUnlisted (v6 hi lo) =
    ((0 < hi) ⊎ (1 < lo))
    × ((0 < hi) ⊎ Outside 0xffff_0000_0000 0x1_0000_0000_0000 lo)
    × Outside 0xfc00_0000_0000_0000 0xfe00_0000_0000_0000 hi
    × Outside 0xfe80_0000_0000_0000 0xfec0_0000_0000_0000 hi
    × Outside 0xff00_0000_0000_0000 0x1_0000_0000_0000_0000 hi

IsUnlisted-v4 : (n : ℕ) → is_public_addr (v4 n) ≡ true → IsUnlisted (v4 n)
unfolding is_public_addr IsUnlisted is_valid is_private is_loopback is_link_local_unicast
    is_link_local_multicast is_multicast is_unspecified
IsUnlisted-v4 n h = ground arith

IsUnlisted-v6 :
    (hi lo : ℕ) → is_public_addr (unmap (v6 hi lo)) ≡ true → IsUnlisted (unmap (v6 hi lo))
unfolding is_public_addr IsUnlisted is_valid is_private is_loopback is_link_local_unicast
    is_link_local_multicast is_multicast is_unspecified unmap
IsUnlisted-v6 hi lo h = elim (Bool-cases (hi == 0 && lo / 2 ^ 32 == 0xffff)) [
  | inl e ↦ rw e (IsUnlisted-v4 (lo % 2 ^ 32) (rw e at h))
  | inr e ↦ ground arith
]

pub IsUnlisted-unmap : (a : Addr) → is_public_addr (unmap a) ≡ true → IsUnlisted (unmap a)
unfolding unmap is_public_addr
IsUnlisted-unmap no_addr h = absurd (ground arith)
IsUnlisted-unmap (v4 n) h = IsUnlisted-v4 n h
IsUnlisted-unmap (v6 hi lo) h = IsUnlisted-v6 hi lo h

-- what a loop may keep
Kept : Option Addr → Type 0
Kept none = Unit {0}
Kept (some a) = IsUnlisted a

shown_addr-Kept : (a : Option Addr) → Kept (shown_addr a)
unfolding shown_addr Kept
shown_addr-Kept none = tt
shown_addr-Kept (some a) = elim (Bool-cases (is_public_addr (unmap a))) [
  | inl e ↦ rw e (IsUnlisted-unmap a e)
  | inr e ↦ rw e tt
]

addr_of_a-Kept : (d : RrData) → Kept (addr_of_a d)
unfolding addr_of_a Kept
addr_of_a-Kept (rr_a bytes) = shown_addr-Kept (addr_from_slice (to4 bytes))
addr_of_a-Kept _ = tt

addr_of_aaaa-Kept : (d : RrData) → Kept (addr_of_aaaa d)
unfolding addr_of_aaaa Kept
addr_of_aaaa-Kept (rr_aaaa bytes) = shown_addr-Kept (addr_from_slice bytes)
addr_of_aaaa-Kept _ = tt

keep_some-IsUnlisted :
    (x : Option Addr) (out : List Addr)
    → Kept x
    → All IsUnlisted out
    → All IsUnlisted (keep_some x out)
unfolding keep_some Kept
keep_some-IsUnlisted none out k h = h
keep_some-IsUnlisted (some a) out k h = (k, h)

all_of-IsUnlisted :
    (pick : RrData → Option Addr)
    → ((d : RrData) → Kept (pick d))
    → (rrs : List Rr) → All IsUnlisted (all_of pick rrs)
unfolding all_of
all_of-IsUnlisted pick h [] = tt
all_of-IsUnlisted pick h (rr ∷ rrs) =
    keep_some-IsUnlisted (pick rr.data_of) (all_of pick rrs) (h rr.data_of)
      (all_of-IsUnlisted pick h rrs)

-- the addresses of an outcome
AllUnlisted : QueryResult (RowAnswer (List Addr)) → Type 0
AllUnlisted (QueryResult.fail err) = Unit {0}
AllUnlisted (QueryResult.ok r) = All IsUnlisted r.value

read_answer-AllUnlisted :
    (pick : RrData → Option Addr)
    → ((d : RrData) → Kept (pick d))
    → (m : QueryResult Message) → AllUnlisted (read_answer (all_of pick) m)
unfolding read_answer AllUnlisted
read_answer-AllUnlisted pick h (QueryResult.fail err) = tt
read_answer-AllUnlisted pick h (QueryResult.ok m) = all_of-IsUnlisted pick h m.answer

-- the addresses of the rows
AreUnlisted : Sets → Type 0
AreUnlisted s = All IsUnlisted s.a × All IsUnlisted s.aaaa

store_a :
    (x : QueryResult (RowAnswer (List Addr))) (s : Sets)
    → AllUnlisted x
    → AreUnlisted s
    → AreUnlisted (store_row x (λ v s. record s { a = v }) s)
unfolding store_row AreUnlisted AllUnlisted
store_a (QueryResult.fail err) s h p = p
store_a (QueryResult.ok r) s h p = (h, p.1)

store_aaaa :
    (x : QueryResult (RowAnswer (List Addr))) (s : Sets)
    → AllUnlisted x
    → AreUnlisted s
    → AreUnlisted (store_row x (λ v s. record s { aaaa = v }) s)
unfolding store_row AreUnlisted AllUnlisted
store_aaaa (QueryResult.fail err) s h p = p
store_aaaa (QueryResult.ok r) s h p = (p.0, h)

store_other :
    {A : Type 0} (x : QueryResult (RowAnswer A)) (set : A → Sets → Sets) (s : Sets)
    → ((v : A) → AreUnlisted (set v s))
    → AreUnlisted s
    → AreUnlisted (store_row x set s)
unfolding store_row
store_other (QueryResult.fail err) set s h p = p
store_other (QueryResult.ok r) set s h p = h r.value

module _ (r : Answers) (public_a : AllUnlisted r.a) (public_aaaa : AllUnlisted r.aaaa) where
  store_answer-AreUnlisted :
      (k : QueryType) (s : Sets) → AreUnlisted s → AreUnlisted (store_answer r k s)
  unfolding store_answer AreUnlisted
  store_answer-AreUnlisted type_a s p = store_a r.a s public_a p
  store_answer-AreUnlisted type_aaaa s p = store_aaaa r.aaaa s public_aaaa p
  store_answer-AreUnlisted type_cname s p = store_other r.cname _ s (λ _. p) p
  store_answer-AreUnlisted type_mx s p = store_other r.mx _ s (λ _. p) p
  store_answer-AreUnlisted type_ns s p = store_other r.ns _ s (λ _. p) p
  store_answer-AreUnlisted type_txt s p = store_other r.txt _ s (λ _. p) p
  store_answer-AreUnlisted type_soa s p = store_other r.soa _ s (λ _. p) p
  store_answer-AreUnlisted type_caa s p = store_other r.caa _ s (λ _. p) p
  store_answer-AreUnlisted type_srv s p = store_other r.srv _ s (λ _. p) p

  note_ad-sets : (x : Bool) (b : Board) → (note_ad x b).sets ≡ b.sets
  unfolding note_ad
  note_ad-sets x b = ground arith

  note_ttl-sets : (n : ℕ) (b : Board) → (note_ttl n b).sets ≡ b.sets
  unfolding note_ttl
  note_ttl-sets n b = ground arith

  enter-AreUnlisted :
      (s : Section) (b : Board) → AreUnlisted b.sets → AreUnlisted (enter r s b).sets
  unfolding enter
  enter-AreUnlisted (row k) b p = store_answer-AreUnlisted k b.sets p
  enter-AreUnlisted (ad k) b p = subst AreUnlisted (sym (note_ad-sets _ b)) p
  enter-AreUnlisted (ttl k) b p = subst AreUnlisted (sym (note_ttl-sets _ b)) p

  enter_all-AreUnlisted :
      (l : List Section) (b : Board) → AreUnlisted b.sets → AreUnlisted (enter_all r l b).sets
  unfolding enter_all
  enter_all-AreUnlisted [] b p = p
  enter_all-AreUnlisted (s ∷ l) b p =
      enter_all-AreUnlisted l (enter r s b) (enter-AreUnlisted s b p)

  lookup_result-AreUnlisted :
      (rec : Records Sets) (err : Option LookupError)
      → AreUnlisted rec.sets
      → AreUnlisted (lookup_result rec err).0.sets
  unfolding lookup_result AreUnlisted
  lookup_result-AreUnlisted rec none p = p
  lookup_result-AreUnlisted rec (some err) p = (tt, tt)

  gather-AreUnlisted :
      (host : Text) (schedule : Schedule) → AreUnlisted (gather host r schedule).0.sets
  unfolding gather to_records AreUnlisted
  gather-AreUnlisted host schedule =
      let board = enter_all r schedule.entered empty_board in
      lookup_result-AreUnlisted (to_records host board) (wait r schedule.returns)
        (enter_all-AreUnlisted schedule.entered empty_board (tt, tt))

module _ (fqdn : Text → Text) (ask : Text → DnsQuery → Exchange) (schedule : Schedule) where
  on_resolver-AreUnlisted :
      (host : Text) (picked : Option Text)
      → AreUnlisted (on_resolver fqdn ask host picked schedule).0.sets
  unfolding on_resolver answers AreUnlisted lookup_a lookup_aaaa
  on_resolver-AreUnlisted host none = (tt, tt)
  on_resolver-AreUnlisted host (some addr) =
      gather-AreUnlisted (answers fqdn ask addr host)
        (read_answer-AllUnlisted addr_of_a addr_of_a-Kept _)
        (read_answer-AllUnlisted addr_of_aaaa addr_of_aaaa-Kept _) host schedule

  on_name-AreUnlisted :
      (dials : Text → Bool) (resolvers : List Text) (name : Checked Text)
      → AreUnlisted (on_name fqdn ask dials resolvers name schedule).0.sets
  unfolding on_name AreUnlisted
  on_name-AreUnlisted dials resolvers (Checked.wrong err) = (tt, tt)
  on_name-AreUnlisted dials resolvers (Checked.right host) =
      on_resolver-AreUnlisted host (pick_resolver dials resolvers)

  -- No address that a lookup returns is unspecified, or of a loopback, private (10.0.0.0/8,
  -- 172.16.0.0/12, 192.168.0.0/16, fc00::/7), link-local or multicast block, and none is in the
  -- IPv4-mapped form, whatever the resolver answers and whatever the order of its goroutines.
  -- Nothing is said of other special blocks, such as 100.64.0.0/10 or 240.0.0.0/4.
  pub lookup_records-IsUnlisted :
      (to_ascii : Text → Option Text) (dials : Text → Bool) (resolvers : List Text)
      (hostname : Text)
      → All IsUnlisted (lookup_records fqdn ask to_ascii dials resolvers hostname schedule).0.sets.a
        × All IsUnlisted
            (lookup_records fqdn ask to_ascii dials resolvers hostname schedule).0.sets.aaaa
  unfolding lookup_records AreUnlisted
  lookup_records-IsUnlisted to_ascii dials resolvers hostname =
      on_name-AreUnlisted dials resolvers (canonicalize to_ascii hostname)
