-- ===== src/DnsCache/Tests.antt =====
-- Runs of service/dns/resolver/cached, alone and interleaved, and each theorem at an input that
-- meets its hypotheses.
use imagelet.Base.{
  [], ◌∷◌, ◌*◌, ◌≡◌, ◌⊎◌, false, none, some, refl, arith, ◌++◌, ite, ℕ, Option, inl, inr,
}
use imagelet.Base.Assoc.{lookup, insert}
use imagelet.Base.Text.{Text, Text-discrete}
use imagelet.StaleCache
use imagelet.StaleCache.{State, Entry, Policy, Fetched, is_ok, new, answered}
use imagelet.StaleCache.Answers.{held}
use imagelet.StaleCache.Refinement
use imagelet.StaleCache.Refinement.{after_call}
use imagelet.StaleCache.Interleavings
use imagelet.StaleCache.Interleavings.{
  Pending, Stage, looked, fresh, judged, asking, Reach, begun, look, hit, judge, miss, finished,
}
use imagelet.StaleCache.Invariant
use imagelet.StaleCache.Invariant.{IsValid}
use imagelet.StaleCache.Sequences
use imagelet.StaleCache.Sequences.{IsExpired}
use imagelet.DnsCache.{
  Hosts, LookupError, Records, Config, policy, lookup_host, start_lookup, finish_lookup, second,
  success_deadline, classify, is_throttled, ttl_for,
}

program : Unit {0}
unfolding StaleCache.publish StaleCache.start StaleCache.keep_error StaleCache.finish
    StaleCache.call StaleCache.answer StaleCache.count_eviction StaleCache.is_fresh
    StaleCache.answer_in StaleCache.count_hit StaleCache.count_miss new lookup insert lookup_host
    start_lookup finish_lookup success_deadline classify is_throttled ttl_for Text-discrete
program = tt

abbrev host : Text
host = b'a' ∷ []

abbrev gone : Text
gone = b'b' ∷ []

abbrev config : Config
config = record { failure = 60 * second; not_found = 3600 * second }

abbrev found : ℕ → Records ℕ
found n = record { hostname = host; sets = n; min_ttl = 120 * second }

abbrev rules : Policy (Records ℕ) LookupError
rules = policy 0 config

abbrev lost : Fetched (Records ℕ) LookupError
lost = Fetched.fail LookupError.unavailable

abbrev empty : Hosts ℕ
empty = new rules

empty-IsValid : IsValid Text-discrete rules empty
empty-IsValid = Invariant.new-IsValid Text-discrete rules

empty-IsExpired : (h : Text) (now : ℕ) → IsExpired Text-discrete rules h now empty
unfolding program
empty-IsExpired h now e p = absurd (ground arith)

-- the host was looked up at time 0
abbrev one : Hosts ℕ
one = (lookup_host 0 config host 0 (Fetched.ok (found 7)) empty).0

one-IsValid : IsValid Text-discrete rules one
unfolding lookup_host
one-IsValid = Sequences.call-IsValid Text-discrete rules host 0 (Fetched.ok (found 7)) empty-IsValid

abbrev entry : Entry (Records ℕ) LookupError
entry = record { records = found 7; err = none; state = State.ok; deadline = 120 * second }

one-held : held Text-discrete rules host one ≡ some entry
unfolding program
one-held = refl

one-IsExpired : IsExpired Text-discrete rules host (200 * second) one
one-IsExpired e h = ground (arith, one-held)

one-gone : IsExpired Text-discrete rules gone second one
unfolding program
one-gone e h = absurd (ground arith)

counts :
    ((lookup_host 0 config host second (Fetched.ok (found 8)) one).0.hits ≡ 1)
    × ((lookup_host 0 config host (200 * second) (Fetched.ok (found 8)) one).0.misses ≡ 2)
unfolding program
counts = (refl, refl)

-- What the provider answers in these runs.
abbrev Provided : Text → Fetched (Records ℕ) LookupError → Type 0
Provided h f = (f ≡ Fetched.ok (found 7)) ⊎ (f ≡ lost)

honest : (err : LookupError) → is_ok (rules.classify err) ≡ false
unfolding classify
honest LookupError.not_found = refl
honest LookupError.unavailable = refl
honest LookupError.self_throttled = refl
honest (LookupError.other x) = refl

abbrev caller : ℕ → Option ℕ → Stage → Pending Text
caller now pointer stage = record { key = host; now = now; pointer = pointer; stage = stage }

-- Two lookups of one host are under way.
abbrev asked_twice : Hosts ℕ
asked_twice = StaleCache.count_miss (StaleCache.count_miss empty)

Reach-asked_twice :
    Reach Text-discrete rules Provided asked_twice
      ([] ++ (caller 0 none asking ∷ caller 0 none asking ∷ []))
unfolding program
Reach-asked_twice =
    miss (caller 0 none asking ∷ []) [] (caller 0 none looked)
      (miss [] (caller 0 none looked ∷ []) (caller 0 none looked) (look (look begun host 0) host 0)
        refl refl)
      refl refl

-- The first of them is done.
abbrev answered_once : Hosts ℕ
answered_once =
    (StaleCache.finish Text-discrete rules host 0 none (Fetched.ok (found 7)) asked_twice).0

Reach-answered_once : Reach Text-discrete rules Provided answered_once (caller 0 none asking ∷ [])
unfolding program
Reach-answered_once =
    finished [] (caller 0 none asking ∷ []) (caller 0 none asking) Reach-asked_twice refl
      (Fetched.ok (found 7)) (inl refl)

-- A third one has read the deadline and the state of the entry.
abbrev answering : Hosts ℕ
answering = StaleCache.count_hit answered_once

Reach-answering :
    Reach Text-discrete rules Provided answering
      ([] ++ (caller second (some 0) (judged State.ok) ∷ caller 0 none asking ∷ []))
unfolding program
Reach-answering =
    judge [] (caller 0 none asking ∷ []) (caller second (some 0) fresh) 0
      (hit [] (caller 0 none asking ∷ []) (caller second (some 0) looked)
        (look Reach-answered_once host second) refl refl)
      refl refl

answers : StaleCache.answer_in rules State.ok (answering.heap 0) ≡ answered (found 7) none
unfolding program
answers = refl

answer_in_sound_example : Provided host (Fetched.ok (found 7))
answer_in_sound_example =
    Interleavings.answer_in_sound Text-discrete rules Provided honest [] (caller 0 none asking ∷ [])
      (caller second (some 0) (judged State.ok)) State.ok 0 (found 7) Reach-answering refl refl
      answers

finish_sound_example :
    ((r : Records ℕ) × (lost ≡ Fetched.ok r)
      × ((StaleCache.finish Text-discrete rules host 0 none lost asked_twice).1 ≡ r)
      × ((StaleCache.finish Text-discrete rules host 0 none lost asked_twice).2 ≡ none))
    ⊎ ((x : LookupError) × (lost ≡ Fetched.fail x)
        × ((StaleCache.finish Text-discrete rules host 0 none lost asked_twice).2 ≡ some x)
        × (((StaleCache.finish Text-discrete rules host 0 none lost asked_twice).1 ≡ rules.blank)
            ⊎ Provided host (
                Fetched.ok (StaleCache.finish Text-discrete rules host 0 none lost asked_twice).1)))
finish_sound_example =
    Interleavings.finish_sound Text-discrete rules Provided honest [] (caller 0 none asking ∷ [])
      (caller 0 none asking) lost Reach-asked_twice (inr refl)

other_host : ¬ (gone ≡ host)
other_host e = ground arith

call-after_example :
    (held Text-discrete rules gone
        (StaleCache.call Text-discrete rules host (200 * second) lost one).0
      ≡ ite
          (Text-discrete host gone)
          (after_call Text-discrete rules (200 * second) (held Text-discrete rules host one) lost).0
          (held Text-discrete rules gone one))
    × ((StaleCache.call Text-discrete rules host (200 * second) lost one).1
        ≡ (after_call Text-discrete rules
            (200 * second)
            (held Text-discrete rules host one)
            lost).1)
    × ((StaleCache.call Text-discrete rules host (200 * second) lost one).2
        ≡ (after_call Text-discrete rules
            (200 * second)
            (held Text-discrete rules host one)
            lost).2)
call-after_example =
    Refinement.call-after Text-discrete rules host gone (200 * second) lost one-IsValid
