-- ===== src/StaleCache.antt =====
-- The cache that service/dns/resolver/cached and service/github/profile/cached share line by line:
-- a map from keys to pointers to entries, three outcomes with their own TTLs, stale-serve. Entries
-- are pointers in the source, and stale-serve writes through the pointer that was read before the
-- upstream call, so the model keeps a heap. A time is a number of nanoseconds.
pub mod Invariant
pub mod Answers
pub mod Refinement
pub mod Sequences
pub mod Later
pub mod Ownership
pub mod Interleavings
use imagelet.Base.{
  ℕ, suc, Bool, true, false, List, [], ◌+◌, ◌%◌, ◌^◌, ◌&&◌, Option, none, some, ltb, ◌==◌,
  if◌then◌else◌,
}
use imagelet.Base.Assoc.{lookup, insert}

pub data State : Type 0 where
  ok : State
  not_found : State
  fail : State

pub record Entry (R E : Type 0) : Type 0 where
  pub records : R
  pub err : Option E
  pub state : State
  pub deadline : ℕ

-- `entries`, the heap it points into (`next` is the first address not in use), and the atomic
-- counters, as the bits of an int64.
pub record Cache (K R E : Type 0) : Type 0 where
  pub entries : List (K × ℕ)
  pub heap : ℕ → Entry R E
  pub next : ℕ
  pub hits : ℕ
  pub misses : ℕ
  pub evictions : ℕ

-- What sets one cache apart from another: the zero value, the errors that are never cached,
-- `classify` on a non-nil error, and the deadlines.
pub record Policy (R E : Type 0) : Type 0 where
  pub blank : R
  pub passes : E → Bool
  pub classify : E → State
  pub success_deadline : ℕ → R → ℕ
  pub failure_ttl : ℕ
  pub ttl_for : State → ℕ

-- What the singleflight call to the upstream returned.
pub data Fetched (R E : Type 0) : Type 0 where
  ok : R → Fetched R E
  fail : E → Fetched R E

-- How the first half of a call ends: with its result, or with the pointer `e` and a call upstream.
pub data Started (R E : Type 0) : Type 0 where
  answered : R → Option E → Started R E
  missed : Option ℕ → Started R E

abbrev pub is_ok : State → Bool
is_ok State.ok = true
is_ok State.not_found = false
is_ok State.fail = false

abbrev pub is_fail : State → Bool
is_fail State.ok = false
is_fail State.not_found = false
is_fail State.fail = true

-- `Add(1)` on an atomic.Int64
abbrev pub increment : ℕ → ℕ
increment n = (n + 1) % 2 ^ 64

abbrev pub write : {A : Type 0} → ℕ → A → (ℕ → A) → ℕ → A
write p a heap q = if p == q then a else heap q

module _ {K R E : Type 0} where
  unfoldable pub new : Policy R E → Cache K R E
  new policy = record {
    entries = [];
    heap = λ p. record { records = policy.blank; err = none; state = State.fail; deadline = 0 };
    next = 0;
    hits = 0;
    misses = 0;
    evictions = 0;
  }

  -- `if e != nil { c.evictions.Add(1) }`
  unfoldable pub count_eviction : Option ℕ → Cache K R E → Cache K R E
  count_eviction none c = c
  count_eviction (some p) c = record c { evictions = increment c.evictions }

-- what a fresh entry answers
unfoldable pub answer : {R E : Type 0} → Policy R E → Entry R E → Started R E
answer policy e = if is_ok e.state then answered e.records none else answered policy.blank e.err

-- the same, with the state that the `switch` read before the fields
unfoldable pub answer_in : {R E : Type 0} → Policy R E → State → Entry R E → Started R E
answer_in policy s e = if is_ok s then answered e.records none else answered policy.blank e.err

-- The steps of a call up to its singleflight call, which leaves the mutex after the lookup: it reads
-- the deadline, the state and the other fields through the pointer, each at its own time.
module _ {K R E : Type 0} where
  -- `ok && now.Before(e.deadline)`
  unfoldable pub is_fresh : ℕ → Option ℕ → Cache K R E → Bool
  is_fresh now none c = false
  is_fresh now (some p) c = ltb now (c.heap p).deadline

  unfoldable pub count_hit : Cache K R E → Cache K R E
  count_hit c = record c { hits = increment c.hits }

  unfoldable pub count_miss : Cache K R E → Cache K R E
  count_miss c = record c { misses = increment c.misses }

module _ {K R E : Type 0} (dec : Discrete K) (policy : Policy R E) where
  -- `c.entries[key] = &entry{…}`
  unfoldable pub publish : K → Entry R E → Cache K R E → Cache K R E
  publish key e c = record c {
    entries = insert dec key c.next c.entries;
    heap = write c.next e c.heap;
    next = suc c.next;
  }

  -- up to the singleflight call, if no other call comes between the steps
  unfoldable pub start : K → ℕ → Cache K R E → Cache K R E × Started R E
  start key now c = elim (lookup dec key c.entries) [
    | none ↦ (record c { misses = increment c.misses }, missed none)
    | some p ↦
        if ltb now (c.heap p).deadline
        then (record c { hits = increment c.hits }, answer policy (c.heap p))
        else (record c { misses = increment c.misses }, missed (some p))
  ]

  -- an error that is cached: stale-serve, or a new entry
  unfoldable pub keep_error : K → ℕ → Option ℕ → E → Cache K R E → Cache K R E × R × Option E
  keep_error key now e err c =
      let s = policy.classify err in
      let replaced =
        publish key
          (record {
            records = policy.blank;
            err = some err;
            state = s;
            deadline = now + policy.ttl_for s;
          })
          (count_eviction e c) in
      elim e [
        | none ↦ (replaced, policy.blank, some err)
        | some p ↦
            if is_ok (c.heap p).state && is_fail s
            then (
              count_eviction (some p) (record c {
                heap =
                    write p
                      (record (c.heap p) { deadline = now + policy.failure_ttl; err = some err })
                      c.heap;
              }),
              (c.heap p).records,
              some err,
            )
            else (replaced, policy.blank, some err)
      ]

  -- from the singleflight call on, with the pointer and the clock of the first half
  unfoldable pub finish : K → ℕ → Option ℕ → Fetched R E → Cache K R E → Cache K R E × R × Option E
  finish key now e (Fetched.fail err) c =
      if policy.passes err then (c, policy.blank, some err) else keep_error key now e err c
  finish key now e (Fetched.ok r) c = (
    publish key
        (record {
          records = r;
          err = none;
          state = State.ok;
          deadline = policy.success_deadline now r;
        })
        (count_eviction e c),
    r,
    none,
  )

  -- a call that no other call interrupts
  unfoldable pub call : K → ℕ → Fetched R E → Cache K R E → Cache K R E × R × Option E
  call key now fetched c =
      let (c', started) = start key now c in
      elim started [ answered r err ↦ (c', r, err) | missed e ↦ finish key now e fetched c' ]
