-- ===== src/StaleCache/Interleavings.antt =====
-- service/dns/resolver/cached and service/github/profile/cached under concurrency: the steps of any
-- number of calls in any order, each with the pointer and the clock reading of its start.
use imagelet.Base.{
  ℕ, ◌≡◌, ◌≤◌, ◌<◌, true, false, List, [], ◌∷◌, ◌++◌, ◌⊎◌, Option, none, some, arith, ap, ◌∙◌, sym,
  refl, Option-cases, inl, inr, All, All-map, All-pick, if◌then◌else◌,
}
use imagelet.Base.Assoc.{lookup, lookup-insert}
use imagelet.StaleCache.{
  State, Entry, Cache, Policy, Fetched, answered, missed, is_ok, new, count_eviction, answer,
  answer_in, is_fresh, count_hit, count_miss, publish, start, keep_error, finish,
}
use imagelet.StaleCache.Invariant.{IsValid, new-IsValid, finish-IsValid}

-- How far a call has come: it has left the mutex with the pointer; it has read a deadline that has
-- not passed; it has read the state; or it has read a deadline that has passed, or found no entry,
-- and asks the upstream.
pub data Stage : Type 0 where
  looked : Stage
  fresh : Stage
  judged : State → Stage
  asking : Stage

-- A call under way.
pub record Pending (K : Type 0) : Type 0 where
  pub key : K
  pub now : ℕ
  pub pointer : Option ℕ
  pub stage : Stage

module _ {K R E : Type 0} (dec : Discrete K) (policy : Policy R E)
    (upstream : K → Fetched R E → Type 0) where
  -- The caches and the calls under way that the program can reach, when `upstream k f` says that
  -- the provider can answer `f` for the key `k`.
  pub data Reach : Cache K R E → List (Pending K) → Type 0 where
    begun : Reach (new policy) []
    look :
        {c : Cache K R E} {ps : List (Pending K)}
        → Reach c ps
        → (key : K) (now : ℕ)
        → Reach c (
            record { key = key; now = now; pointer = lookup dec key c.entries; stage = looked }
            ∷ ps)
    hit :
        {c : Cache K R E} (xs ys : List (Pending K)) (p : Pending K)
        → Reach c (xs ++ (p ∷ ys))
        → p.stage ≡ looked
        → is_fresh p.now p.pointer c ≡ true
        → Reach (count_hit c) (record p { stage = fresh } ∷ (xs ++ ys))
    judge :
        {c : Cache K R E} (xs ys : List (Pending K)) (p : Pending K) (a : ℕ)
        → Reach c (xs ++ (p ∷ ys))
        → p.stage ≡ fresh
        → p.pointer ≡ some a
        → Reach c (record p { stage = judged (c.heap a).state } ∷ (xs ++ ys))
    -- the call returns `answer_in`
    reply :
        {c : Cache K R E} (xs ys : List (Pending K)) (p : Pending K) (s : State)
        → Reach c (xs ++ (p ∷ ys))
        → p.stage ≡ judged s
        → Reach c (xs ++ ys)
    miss :
        {c : Cache K R E} (xs ys : List (Pending K)) (p : Pending K)
        → Reach c (xs ++ (p ∷ ys))
        → p.stage ≡ looked
        → is_fresh p.now p.pointer c ≡ false
        → Reach (count_miss c) (record p { stage = asking } ∷ (xs ++ ys))
    finished :
        {c : Cache K R E} (xs ys : List (Pending K)) (p : Pending K)
        → Reach c (xs ++ (p ∷ ys))
        → p.stage ≡ asking
        → (f : Fetched R E) → upstream p.key f
        → Reach (finish dec policy p.key p.now p.pointer f c).0 (xs ++ ys)

  -- Without an interruption the steps are `start`.
  pub start-steps :
      (key : K) (now : ℕ) (c : Cache K R E)
      → start dec policy key now c ≡ (
          if is_fresh now (lookup dec key c.entries) c
          then (
            count_hit c,
            elim (lookup dec key c.entries) [
              | none ↦ missed none
              | some a ↦ answer_in policy (c.heap a).state (c.heap a)
            ],
          )
          else (count_miss c, missed (lookup dec key c.entries)))
  unfolding start is_fresh count_hit count_miss answer answer_in
  start-steps key now c = elim (Option-cases (lookup dec key c.entries)) [
    | inl e ↦ rw (e, start) refl
    | inr (a, e) ↦ rw (e, start) refl
  ]

  -- A success under a key is an answer of the provider for it.
  abbrev pub IsGenuine : K → Entry R E → Type 0
  IsGenuine k e = is_ok e.state ≡ true → upstream k (Fetched.ok e.records)

  abbrev pub IsGenuineAt : K → Option ℕ → Cache K R E → Type 0
  IsGenuineAt k e c = (p : ℕ) → e ≡ some p → (p < c.next) × IsGenuine k (c.heap p)

  -- Later caches keep the records and the outcome of every entry.
  pub record IsLater (c d : Cache K R E) : Type 0 where
    pub grows : c.next ≤ d.next
    pub same :
        (p : ℕ)
        → p < c.next
        → ((d.heap p).records ≡ (c.heap p).records) × ((d.heap p).state ≡ (c.heap p).state)

  finish-IsLater :
      (key : K) (now : ℕ) (e : Option ℕ) (f : Fetched R E) (c : Cache K R E)
      → IsLater c (finish dec policy key now e f c).0
  unfolding finish keep_error publish count_eviction
  finish-IsLater key now none f c = record { grows = ground arith; same = λ p h. ground arith }
  finish-IsLater key now (some q) f c = record { grows = ground arith; same = λ p h. ground arith }

  -- a later cache keeps the successes of a call under way
  IsGenuineAt-later :
      {c d : Cache K R E}
      → IsLater c d
      → (q : Pending K) → IsGenuineAt q.key q.pointer c
      → IsGenuineAt q.key q.pointer d
  IsGenuineAt-later l q g p e =
      (omega (arith, l.grows, (g p e).0), λ o. ground (arith, l.same p (g p e).0, (g p e).1))

  -- the state that a call has read is that of its entry
  abbrev pub IsJudged : Pending K → Cache K R E → Type 0
  IsJudged q c =
      (s : State) → q.stage ≡ judged s → (p : ℕ) → q.pointer ≡ some p → (c.heap p).state ≡ s

  abbrev pub IsSafeCall : Cache K R E → Pending K → Type 0
  IsSafeCall c q = IsGenuineAt q.key q.pointer c × IsJudged q c

  IsSafeCall-later :
      {c d : Cache K R E} → IsLater c d → (q : Pending K) → IsSafeCall c q → IsSafeCall d q
  IsSafeCall-later l q g =
      (IsGenuineAt-later l q g.0, λ s e p h. (l.same p (g.0 p h).0).1 ∙ g.1 s e p h)

  pub record IsSafe (c : Cache K R E) (ps : List (Pending K)) : Type 0 where
    pub valid : IsValid dec policy c
    pub genuine : (k : K) (p : ℕ) → lookup dec k c.entries ≡ some p → IsGenuine k (c.heap p)
    pub pending : All (IsSafeCall c) ps

  -- the map of a call's second half: an unchanged pointer, or the call's new entry
  finish-IsGenuine :
      (key : K) (now : ℕ) (e : Option ℕ) (f : Fetched R E) {c : Cache K R E} {ps : List (Pending K)}
      → ((err : E) → is_ok (policy.classify err) ≡ false)
      → IsSafe c ps
      → upstream key f
      → (k : K) (p : ℕ) → lookup dec k (finish dec policy key now e f c).0.entries ≡ some p
      → IsGenuine k ((finish dec policy key now e f c).0.heap p)
  unfolding finish keep_error publish count_eviction
  finish-IsGenuine key now e (Fetched.ok r) {c} honest s u k p h o =
      ground (arith, lookup-insert dec key k c.next c.entries, s.genuine k p, s.valid.allocated k p)
  finish-IsGenuine key now none (Fetched.fail err) {c} honest s u k p h o = ground (
    arith,
    lookup-insert dec key k c.next c.entries,
    s.genuine k p,
    s.valid.allocated k p,
    honest err,
  )
  finish-IsGenuine key now (some q) (Fetched.fail err) {c} honest s u k p h o = ground (
    arith,
    lookup-insert dec key k c.next c.entries,
    s.genuine k p,
    s.valid.allocated k p,
    honest err,
  )

  module _ (honest : (err : E) → is_ok (policy.classify err) ≡ false) where
    -- a call goes on and changes no entry
    step-IsSafe :
        {c : Cache K R E} (d : Cache K R E) (xs ys : List (Pending K)) (p : Pending K) (t : Stage)
        → c.entries ≡ d.entries
        → c.heap ≡ d.heap
        → c.next ≡ d.next
        → ((s : State) → t ≡ judged s → (a : ℕ) → p.pointer ≡ some a → (d.heap a).state ≡ s)
        → IsSafe c (xs ++ (p ∷ ys))
        → IsSafe d (record p { stage = t } ∷ (xs ++ ys))
    step-IsSafe {c} d xs ys p t e h n j s =
        let l : IsLater c d = record {
          grows = omega (arith, n);
          same = λ a z. (ap (λ x. (x a).records) (sym h), ap (λ x. (x a).state) (sym h));
        } in
        let rest = All-pick (IsSafeCall d) xs p ys (All-map (IsSafeCall-later l) _ s.pending) in
        record {
          valid = record {
            allocated = rw (← e, ← n) s.valid.allocated;
            unshared = rw (← e) s.valid.unshared;
            sound = rw (← h, ← n) s.valid.sound;
          };
          genuine = rw (← e, ← h) s.genuine;
          pending = ((rest.0.0, j), rest.1);
        }

    -- If no error is classified as a success: whatever calls are under way, map and entries are
    -- valid, no key shares its entry, and every success in the cache, also in an entry that only a
    -- call still points to, is what the provider answered for that key.
    pub Reach-IsSafe : {c : Cache K R E} {ps : List (Pending K)} → Reach c ps → IsSafe c ps
    unfolding count_hit count_miss
    Reach-IsSafe begun = record {
      valid = new-IsValid dec policy;
      genuine = unfold new in λ k p h o. ground arith;
      pending = tt;
    }
    Reach-IsSafe (look {c} {ps} r key now) =
        let s = Reach-IsSafe r in
        record {
          valid = s.valid;
          genuine = s.genuine;
          pending =
              ((λ p e. (s.valid.allocated key p e, s.genuine key p e), λ x e p h. cc), s.pending);
        }
    Reach-IsSafe (hit {c} xs ys p r e h) =
        step-IsSafe (count_hit c) xs ys p fresh refl refl refl (λ x z. cc) (Reach-IsSafe r)
    Reach-IsSafe (judge {c} xs ys p a r e h) =
        step-IsSafe c xs ys p (judged (c.heap a).state) refl refl refl
          (λ x z b g. ground (arith, h)) (Reach-IsSafe r)
    Reach-IsSafe (reply {c} xs ys p x r e) =
        let s = Reach-IsSafe r in
        record {
          valid = s.valid;
          genuine = s.genuine;
          pending = (All-pick (IsSafeCall c) xs p ys s.pending).1;
        }
    Reach-IsSafe (miss {c} xs ys p r e h) =
        step-IsSafe (count_miss c) xs ys p asking refl refl refl (λ x z. cc) (Reach-IsSafe r)
    Reach-IsSafe (finished {c} xs ys p r e f u) =
        let s = Reach-IsSafe r in
        let rest = All-pick (IsSafeCall c) xs p ys s.pending in
        record {
          valid = finish-IsValid dec policy p.key p.now p.pointer f s.valid;
          genuine = finish-IsGenuine p.key p.now p.pointer f honest s u;
          pending =
              All-map (IsSafeCall-later (finish-IsLater p.key p.now p.pointer f c)) (xs ++ ys)
                rest.1;
        }

    -- If no error is classified as a success: in every interleaving of the steps, also where another
    -- call writes to the entry between two reads of it, a call that the cache answers without an
    -- error returns what the provider answered for the key of the call.
    pub answer_in_sound :
        {c : Cache K R E} (xs ys : List (Pending K)) (p : Pending K) (s : State) (a : ℕ) (r : R)
        → Reach c (xs ++ (p ∷ ys))
        → p.stage ≡ judged s
        → p.pointer ≡ some a
        → answer_in policy s (c.heap a) ≡ answered r none
        → upstream p.key (Fetched.ok r)
    unfolding answer_in
    answer_in_sound {c} xs ys p s a r reach e h x =
        let safe = Reach-IsSafe reach in
        let (g, j) = (All-pick (IsSafeCall c) xs p ys safe.pending).0 in
        ground (arith, g a h, j s e a h, safe.valid.sound a (g a h).0)

    -- what a failed call upstream is answered with
    finish-fail :
        (key : K) (now : ℕ) (e : Option ℕ) (x : E) (c : Cache K R E)
        → IsGenuineAt key e c
        → ((finish dec policy key now e (Fetched.fail x) c).2 ≡ some x)
          × (((finish dec policy key now e (Fetched.fail x) c).1 ≡ policy.blank)
              ⊎ upstream key (Fetched.ok (finish dec policy key now e (Fetched.fail x) c).1))
    unfolding finish keep_error
    finish-fail key now none x c g = (ground arith, inl (ground arith))
    finish-fail key now (some p) x c g = ground (arith, (g p refl).1)

    -- If no error is classified as a success: in every interleaving, a call that had to ask
    -- returns the provider's answer, or the provider's error with the zero value or with an
    -- earlier answer of the provider for the key.
    pub finish_sound :
        {c : Cache K R E} (xs ys : List (Pending K)) (p : Pending K) (f : Fetched R E)
        → Reach c (xs ++ (p ∷ ys))
        → upstream p.key f
        → ((r : R) × (f ≡ Fetched.ok r)
            × ((finish dec policy p.key p.now p.pointer f c).1 ≡ r)
            × ((finish dec policy p.key p.now p.pointer f c).2 ≡ none))
          ⊎ ((x : E) × (f ≡ Fetched.fail x)
              × ((finish dec policy p.key p.now p.pointer f c).2 ≡ some x)
              × (((finish dec policy p.key p.now p.pointer f c).1 ≡ policy.blank)
                  ⊎ upstream p.key (Fetched.ok (finish dec policy p.key p.now p.pointer f c).1)))
    unfolding finish
    finish_sound xs ys p (Fetched.ok r) reach u = inl (r, refl, refl, refl)
    finish_sound {c} xs ys p (Fetched.fail x) reach u =
        let s = Reach-IsSafe reach in
        let g = (All-pick (IsSafeCall c) xs p ys s.pending).0.0 in
        let (a, b) = finish-fail p.key p.now p.pointer x c g in inr (x, refl, a, b)
