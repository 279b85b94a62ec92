-- ===== src/HtmlCache/Flight.antt =====
-- internal/htmlcache/htmlcache.go: `Middleware` as the steps of requests that run at the same time.
-- A step ends where the code leaves the mutex, blocks on a channel or runs the next handler.
use imagelet.Base.{ℕ, Option, ◌≡◌, ◌+◌, Bool, true, false, [], none, some, ◌==◌, if◌then◌else◌, ite}
use imagelet.Base.Text.{Text}
use imagelet.HtmlCache.{Header, Cache, lookup, store, acquire_flight, release_flight}
use imagelet.HtmlCache.Headers.{copy_headers}
use imagelet.HtmlCache.Policy.{Captured, should_store, add_duration}

-- Where a request stands. `now` is the reading that the deadline is counted from.
pub data Phase (K : Type 0) : Type 0 where
  idle : Phase K
  missed : K → ℕ → Phase K
  waiting : K → ℕ → Phase K
  leading : K → ℕ → Phase K
  storing : K → Phase K
  -- the slot is given back, and the channel that was in it is still to be closed
  closing : Option ℕ → Phase K
  alone : K → Phase K
  finished : Phase K

pub record Machine (K : Type 0) : Type 0 where
  pub cache : Cache K
  pub closed : ℕ → Bool
  pub fresh : ℕ
  pub phase : ℕ → Phase K

abbrev pub update {ℓ} : {A : Type ℓ} → ℕ → A → (ℕ → A) → ℕ → A
update i a f j = if j == i then a else f j

-- What the handler wrote through `captureWriter`.
pub record Rendered : Type 0 where
  pub captured : Captured
  pub headers : Header
  pub body : Text

module _ {K : Type 0} (dec : Discrete K) where
  -- the first `lookup`: a hit is served
  unfoldable pub on_request : ℕ → K → ℕ → Machine K → Machine K
  on_request i key now m =
      let (c', hit) = lookup dec key now m.cache in
      let p : Phase K = elim hit [ some _ ↦ finished | none ↦ missed key now ] in
      record m { cache = c'; phase = update i p m.phase }

  unfoldable pub on_acquire : ℕ → K → ℕ → Machine K → Machine K
  on_acquire i key now m =
      let (c', ch, leader) = acquire_flight dec key m.fresh m.cache in
      record m {
        cache = c';
        fresh = if leader then m.fresh + 1 else m.fresh;
        phase = update i (if leader then leading key now else waiting key ch) m.phase;
      }

  -- behind `<-ch`: look again, or render without the slot
  unfoldable pub on_wake : ℕ → K → ℕ → Machine K → Machine K
  on_wake i key now m =
      let (c', hit) = lookup dec key now m.cache in
      let p : Phase K = elim hit [ some _ ↦ finished | none ↦ alone key ] in
      record m { cache = c'; phase = update i p m.phase }

  -- the leader's entry, if its response may be stored
  unfoldable pub keep : K → ℕ → Rendered → Cache K → Cache K
  keep key now r c = elim (should_store r.captured) [
    | none ↦ c
    | some ttl ↦
        store dec
          (record {
            key = key;
            status = r.captured.status_code;
            headers = copy_headers r.headers;
            body = r.body;
            deadline = add_duration now ttl;
          })
          c
  ]

  unfoldable pub on_render : ℕ → K → ℕ → Rendered → Machine K → Machine K
  unfolding keep
  on_render i key now r m = record m {
    cache = keep key now r m.cache;
    phase = update i (storing key) m.phase;
  }

  -- the deferred `releaseFlight`, up to its `mu.Unlock`
  unfoldable pub on_release : ℕ → K → Machine K → Machine K
  on_release i key m =
      let (c', ch) = release_flight dec key m.cache in
      record m { cache = c'; phase = update i (closing ch) m.phase }

  -- and from there on: `close`, if there was a channel
  unfoldable pub on_close : ℕ → Option ℕ → Machine K → Machine K
  on_close i ch m = record m {
    closed = elim ch [ none ↦ m.closed | some n ↦ update n true m.closed ];
    phase = update i finished m.phase;
  }

  unfoldable pub on_alone : ℕ → Machine K → Machine K
  on_alone i m = record m { phase = update i finished m.phase }

  pub data Step : Machine K → Machine K → Type 0 where
    request :
        (i : ℕ) (key : K) (now : ℕ) (m : Machine K)
        → m.phase i ≡ idle
        → Step m (on_request i key now m)
    acquire :
        (i : ℕ) (key : K) (now : ℕ) (m : Machine K)
        → m.phase i ≡ missed key now
        → Step m (on_acquire i key now m)
    wake :
        (i : ℕ) (key : K) (ch now : ℕ) (m : Machine K)
        → m.phase i ≡ waiting key ch
        → m.closed ch ≡ true
        → Step m (on_wake i key now m)
    render :
        (i : ℕ) (key : K) (now : ℕ) (r : Rendered) (m : Machine K)
        → m.phase i ≡ leading key now
        → Step m (on_render i key now r m)
    release :
        (i : ℕ) (key : K) (m : Machine K) → m.phase i ≡ storing key → Step m (on_release i key m)
    -- the handler panics: the deferred release still runs
    panic :
        (i : ℕ) (key : K) (now : ℕ) (m : Machine K)
        → m.phase i ≡ leading key now
        → Step m (on_release i key m)
    close :
        (i : ℕ) (ch : Option ℕ) (m : Machine K) → m.phase i ≡ closing ch → Step m (on_close i ch m)
    finish : (i : ℕ) (key : K) (m : Machine K) → m.phase i ≡ alone key → Step m (on_alone i m)

  pub data Reach (s : Machine K) : Machine K → Type 0 where
    here : Reach s s
    next : {t u : Machine K} → Reach s t → Step t u → Reach s u

  -- No request has begun.
  abbrev pub initial : Cache K → Machine K
  initial c = record {
    cache = record c { flight = [] };
    closed = λ _. false;
    fresh = 0;
    phase = λ _. idle;
  }

  -- a request that holds the slot of a key
  abbrev pub leads : Phase K → K → Bool
  leads idle key = false
  leads (missed k now) key = false
  leads (waiting k ch) key = false
  leads (leading k now) key = ite (dec k key) true false
  leads (storing k) key = ite (dec k key) true false
  leads (closing ch) key = false
  leads (alone k) key = false
  leads finished key = false
