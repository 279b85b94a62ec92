-- ===== src/QuoteCache/Tests.antt =====
-- Runs of service/stock/quote/cached, and each theorem at an input that meets its hypotheses.
use imagelet.Base.{ℕ, List, [], ◌∷◌, ◌≡◌, true, false, none, some, refl, arith}
use imagelet.Base.Assoc.{lookup, insert}
use imagelet.Base.Text.{Text, Text-discrete}
use imagelet.QuoteCache.{
  Entry, Provider, Fetched, new_with_ttl, publish, start, finish, get, get_at,
}
use imagelet.QuoteCache.Later
use imagelet.QuoteCache.Later.{Call, gets}
use imagelet.QuoteCache.Refresh
use imagelet.QuoteCache.Refresh.{held}

program : Unit {0}
unfolding new_with_ttl publish start finish get get_at lookup insert Text-discrete
program = tt

abbrev symbol : Text
symbol = b'T' ∷ []

-- the errors are numbers, and so are the quotes
abbrev empty : Provider ℕ ℕ
empty = new_with_ttl 0 60 600

-- the symbol was asked for at time 0
abbrev one : Provider ℕ ℕ
one = (get 0 symbol 0 (Fetched.ok 7) empty).0

abbrev entry : Entry ℕ ℕ
entry = record { quote = 7; err = none; deadline = 60; has_quote = true }

one-held : held 0 symbol one ≡ some entry
unfolding program
one-held = refl

failure_ttl_kept : one.failure_ttl ≡ 600
unfolding program
failure_ttl_kept = refl

one-IsValid : Later.IsValid 0 one
one-IsValid = Later.get-IsValid 0 symbol 0 (Fetched.ok 7) (Later.new_with_ttl-IsValid 0 60 600)

-- calls between the failed refresh and the last one
abbrev between : List (Call ℕ ℕ)
between =
    record { symbol = symbol; now = 200; answer = Fetched.ok 9 }
    ∷ record { symbol = b'U' ∷ []; now = 300; answer = Fetched.ok 1 }
    ∷ []

gets_fail_example :
    ((get 0 symbol 100 (Fetched.fail 5) one).1 ≡ 7)
    × ((get 0 symbol 100 (Fetched.fail 5) one).2 ≡ some 5)
    × ((get 0 symbol 699
          (Fetched.ok 8)
          (gets 0 between (get 0 symbol 100 (Fetched.fail 5) one).0)).1
        ≡ 7)
    × ((get 0 symbol 699
          (Fetched.ok 8)
          (gets 0 between (get 0 symbol 100 (Fetched.fail 5) one).0)).2
        ≡ none)
gets_fail_example =
    Later.gets_fail 0 symbol 100 699 5 (Fetched.ok 8) entry between one one-IsValid one-held refl
      (omega arith) (omega (arith, failure_ttl_kept), (omega (arith, failure_ttl_kept), tt))
      (omega (arith, failure_ttl_kept))

nothing_held : (e : Entry ℕ ℕ) → held 0 symbol empty ≡ some e → e.has_quote ≡ false
unfolding program
nothing_held e h = absurd (ground arith)

empty-IsExpired : Refresh.IsExpired 0 symbol 100 empty
unfolding program
empty-IsExpired e h = absurd (ground arith)

no_history : get_at {Q = ℕ} {E = ℕ} 0 {D = ℕ} 9 none symbol 20260102 ≡ (0, some 9)
unfolding program
no_history = refl
