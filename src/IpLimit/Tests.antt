-- ===== src/IpLimit/Tests.antt =====
-- Runs of middleware/iplimit with a bucket that counts tokens down, and the theorem at an input
-- that meets its hypotheses.
use imagelet.Base.{ℕ, [], ◌∷◌, ◌-◌, ◌≡◌, Bool, true, false, none, some, ltb, refl, ite}
use imagelet.Base.Assoc.{lookup, insert}
use imagelet.Base.Order.{Distinct}
use imagelet.Base.Text.{Text, Text-discrete, trim_space, trim_left}
use imagelet.Recency.{keys}
use imagelet.IpLimit.{Limiter, collect, take_token, allow, client_ip, middleware}
use imagelet.IpLimit.Buckets
use imagelet.IpLimit.Buckets.{met, unless_stale}

program : Unit {0}
unfolding collect take_token allow client_ip middleware lookup insert Text-discrete trim_space
    trim_left
program = tt

-- two tokens, never refilled
abbrev allow_n : ℕ → ℕ → ℕ × Bool
allow_n now tokens = (tokens - 1, ltb 0 tokens)

abbrev a : Text
a = b'a' ∷ []

abbrev b : Text
b = b'b' ∷ []

-- "a" has one token left, and "b" was last seen long ago
abbrev limiter : Limiter ℕ
limiter = record {
  cleanup = 300;
  buckets =
      (a, record { lim = 1; last_seen = 1000 }) ∷ (b, record { lim = 0; last_seen = 500 }) ∷ [];
}

one_left :
    ((allow 2 allow_n a 1000 limiter).1 ≡ true)
    × ((allow 2 allow_n a 1001 (allow 2 allow_n a 1000 limiter).0).1 ≡ false)
unfolding program
one_left = (refl, refl)

stale_is_full : (allow 2 allow_n b 1000 limiter).1 ≡ true
unfolding program
stale_is_full = refl

no_address : (middleware 2 allow_n {A = ℕ} 0 1 [] 1000 limiter).1 ≡ 1
unfolding program
no_address = refl

header_first : client_ip 2 allow_n (λ s. none) (b' ' ∷ a) (some b) ≡ a
unfolding program
header_first = refl

distinct : Distinct Text-discrete (keys limiter.buckets)
unfolding program
distinct = (refl, (refl, tt))

allow_lem_example :
    ((allow 2 allow_n a 1000 limiter).1 ≡ (allow_n 1000 (met 2 allow_n a 1000 limiter)).1)
    × (lookup Text-discrete b (allow 2 allow_n a 1000 limiter).0.buckets
        ≡ ite
            (Text-discrete a b)
            (some
              (record { lim = (allow_n 1000 (met 2 allow_n a 1000 limiter)).0; last_seen = 1000 }))
            (unless_stale 2 allow_n 300 1000 (lookup Text-discrete b limiter.buckets)))
    × Distinct Text-discrete (keys (allow 2 allow_n a 1000 limiter).0.buckets)
allow_lem_example = Buckets.allow_lem 2 allow_n b'a' [] b 1000 limiter distinct
