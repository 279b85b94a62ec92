-- ===== src/IpLimit.antt =====
-- middleware/iplimit/iplimit.go: `Limiter`, with golang.org/x/time/rate's token bucket as a
-- parameter. A time is a number of nanoseconds.
mod Buckets
mod Tests
use imagelet.Base.{
  ℕ, [], ◌∷◌, ◌*◌, ◌^◌, ◌-◌, List, Bool, true, false, Option, none, some, ltb, if◌then◌else◌,
}
use imagelet.Base.Assoc.{lookup, insert, delete}
use imagelet.Base.Text.{Text, Text-discrete, trim_space}

abbrev pub default_cleanup : ℕ
default_cleanup = 300 * 10 ^ 9

-- `L` is a `rate.Limiter`.
pub record Bucket (L : Type 0) : Type 0 where
  pub lim : L
  pub last_seen : ℕ

pub record Limiter (L : Type 0) : Type 0 where
  pub cleanup : ℕ
  pub buckets : List (Text × Bucket L)

-- `fresh` is `rate.NewLimiter(l.rateLimit, l.burst)`, which has the two numbers that `New` is given,
-- and `allow_n` is `AllowN(now, 1)`.
module _ {L : Type 0} (fresh : L) (allow_n : ℕ → L → L × Bool) where
  unfoldable pub new : Limiter L
  new = record { cleanup = default_cleanup; buckets = [] }

  -- `now.Sub(b.lastSeen) > l.cleanup`
  abbrev pub is_stale : ℕ → ℕ → Bucket L → Bool
  is_stale cleanup now b = ltb cleanup (now - b.last_seen)

  -- the loop that deletes stale buckets
  unfoldable pub collect : ℕ → ℕ → List (Text × Bucket L) → List (Text × Bucket L)
  collect cleanup now [] = []
  collect cleanup now ((ip, b) ∷ l) =
      let rest = collect cleanup now l in if is_stale cleanup now b then rest else (ip, b) ∷ rest

  -- the token of a request whose address is known
  unfoldable pub take_token : Text → ℕ → Limiter L → Limiter L × Bool
  unfolding collect
  take_token ip now l =
      let kept = collect l.cleanup now l.buckets in
      let lim : L = elim (lookup Text-discrete ip kept) [ none ↦ fresh | some b ↦ b.lim ] in
      let (lim', allowed) = allow_n now lim in
      (
        record l {
          buckets = insert Text-discrete ip (record { lim = lim'; last_seen = now }) kept;
        },
        allowed,
      )

  unfoldable pub allow : Text → ℕ → Limiter L → Limiter L × Bool
  unfolding take_token
  allow [] now l = (l, true)
  allow (c ∷ ip) now l = take_token (c ∷ ip) now l

  -- `clientIP`: the header, or the address of the peer, which `split` cuts into host and port
  unfoldable pub client_ip : (Text → Option Text) → Text → Option Text → Text
  client_ip split header peer = elim (trim_space header) [
    | c ∷ v ↦ c ∷ v
    | [] ↦ elim peer [
      | none ↦ []
      | some remote_addr ↦ elim (split remote_addr) [ none ↦ remote_addr | some host ↦ host ]
    ]
  ]

  -- `Middleware`: `limited` and `next` stand for what the two handlers answer
  unfoldable pub middleware : {A : Type 0} → A → A → Text → ℕ → Limiter L → Limiter L × A
  unfolding allow
  middleware limited next ip now l =
      let (l', allowed) = allow ip now l in (l', if allowed then next else limited)
