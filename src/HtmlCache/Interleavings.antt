-- ===== src/HtmlCache/Interleavings.antt =====
-- internal/htmlcache/htmlcache.go: every interleaving of the requests keeps the
-- channels in order.
use imagelet.Base.{ℕ, ◌≡◌, ◌⊎◌, refl, true, false, some, inl, inr}
use imagelet.Base.Assoc
use imagelet.Base.Assoc.{lookup-insert, lookup-delete}
use imagelet.HtmlCache.{Cache, release_flight}
use imagelet.HtmlCache.Flight.{
  waiting, Machine, Step, request, acquire, wake, render, release, panic, close, closing, finish,
  Reach, here, next, initial, leads,
}
use imagelet.HtmlCache.Singleflight.{
  IsOrderly, request-IsOrderly, acquire-IsOrderly, wake-IsOrderly, render-IsOrderly,
  release-IsOrderly, close-IsOrderly, alone-IsOrderly,
}

module _ {K : Type 0} (dec : Discrete K) where
  Step-IsOrderly : {m m' : Machine K} → Step dec m m' → IsOrderly dec m → IsOrderly dec m'
  Step-IsOrderly (request i key now m e) o = request-IsOrderly dec i key now m e o
  Step-IsOrderly (acquire i key now m e) o = acquire-IsOrderly dec i key now m e o
  Step-IsOrderly (wake i key ch now m e _) o = wake-IsOrderly dec i key ch now m e o
  Step-IsOrderly (render i key now r m e) o = render-IsOrderly dec i key now r m e o
  Step-IsOrderly (release i key m e) o = release-IsOrderly dec i key m (λ q. rw e) (λ ch z. cc) o
  Step-IsOrderly (panic i key now m e) o = release-IsOrderly dec i key m (λ q. rw e) (λ ch z. cc) o
  Step-IsOrderly (close i ch m e) o = close-IsOrderly dec i ch m e o
  Step-IsOrderly (finish i key m e) o = alone-IsOrderly dec i key m e o

  initial-IsOrderly : (c : Cache K) → IsOrderly dec (initial dec c)
  unfolding Assoc.lookup
  initial-IsOrderly c = record {
    unique = λ i j key h h'. cc;
    owned = λ i key h. cc;
    led = λ key ch h. cc;
    waited = λ i key ch h. cc;
    below = λ key ch h. cc;
    closed_below = λ ch h. cc;
    apart = λ key key' ch h h'. cc;
    open_in_flight = λ key ch h. refl;
    closing_below = λ i ch h. cc;
    closing_open = λ i ch h. cc;
    closing_once = λ i j ch h h'. cc;
    closing_gone = λ i ch key h f. cc;
  }

  -- Every state that the requests can reach is orderly.
  pub Reach-IsOrderly :
      (c : Cache K) {m : Machine K} → Reach dec (initial dec c) m → IsOrderly dec m
  Reach-IsOrderly c here = initial-IsOrderly c
  Reach-IsOrderly c (next r s) = Step-IsOrderly s (Reach-IsOrderly c r)

  -- In no interleaving do two requests render the same key with the slot.
  pub Reach-unique_leader :
      (c : Cache K) {m : Machine K} (i j : ℕ) (key : K)
      → Reach dec (initial dec c) m
      → leads dec (m.phase i) key ≡ true
      → leads dec (m.phase j) key ≡ true
      → i ≡ j
  Reach-unique_leader c i j key r = (Reach-IsOrderly c r).unique i j key

  -- A request never waits in vain: its channel is closed, or a request that will close it holds the
  -- slot, or a request has given the slot back and is about to close it.
  pub Reach-waiting :
      (c : Cache K) {m : Machine K} (i : ℕ) (key : K) (ch : ℕ)
      → Reach dec (initial dec c) m
      → m.phase i ≡ waiting key ch
      → (m.closed ch ≡ true)
        ⊎ ((j : ℕ) × (leads dec (m.phase j) key ≡ true)
            × ((release_flight dec key m.cache).1 ≡ some ch))
        ⊎ ((j : ℕ) × (m.phase j ≡ closing (some ch)))
  unfolding release_flight
  Reach-waiting c i key ch r h =
      let o = Reach-IsOrderly c r in
      elim (o.waited i key ch h) [
        | inl shut ↦ inl shut
        | inr (inl found) ↦ let (j, l) = o.led key ch found in inr (inl (j, l, found))
        | inr (inr soon) ↦ inr (inr soon)
      ]

  -- A channel that is about to be closed is open, and no other request is about to close it: `close`
  -- never panics.
  pub Reach-closing :
      (c : Cache K) {m : Machine K} (i ch : ℕ)
      → Reach dec (initial dec c) m
      → m.phase i ≡ closing (some ch)
      → (m.closed ch ≡ false) × ((j : ℕ) → m.phase j ≡ closing (some ch) → i ≡ j)
  Reach-closing c i ch r h =
      let o = Reach-IsOrderly c r in (o.closing_open i ch h, λ j h'. o.closing_once i j ch h h')
