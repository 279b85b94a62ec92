-- ===== src/QuoteCache.antt =====
-- service/stock/quote/cached/cached.go: `Provider`. Its entries are pointers, and a failed refresh
-- writes through the pointer that was read before it, so the model keeps a heap. A time is a
-- number of nanoseconds.
mod Refresh
mod Later
mod Tests
use imagelet.Base.{
  ℕ, suc, [], ◌+◌, ◌*◌, ◌^◌, List, Bool, true, false, Option, none, some, ltb, ◌==◌, if◌then◌else◌,
}
use imagelet.Base.Assoc.{lookup, insert}
use imagelet.Base.Text.{Text, Text-discrete}

abbrev pub default_success_ttl : ℕ
default_success_ttl = 60 * 10 ^ 9

abbrev pub default_failure_ttl : ℕ
default_failure_ttl = 600 * 10 ^ 9

pub record Entry (Q E : Type 0) : Type 0 where
  pub quote : Q
  pub err : Option E
  pub deadline : ℕ
  pub has_quote : Bool

pub record Provider (Q E : Type 0) : Type 0 where
  pub success_ttl : ℕ
  pub failure_ttl : ℕ
  pub entries : List (Text × ℕ)
  pub heap : ℕ → Entry Q E
  pub next : ℕ

-- what the inner provider answered
pub data Fetched (Q E : Type 0) : Type 0 where
  ok : Q → Fetched Q E
  fail : E → Fetched Q E

-- how the first half of `Get` ends: with its result, or with the pointer `e` and a refresh
pub data Started (Q E : Type 0) : Type 0 where
  answered : Q → Option E → Started Q E
  missed : Option ℕ → Started Q E

abbrev pub write : {A : Type 0} → ℕ → A → (ℕ → A) → ℕ → A
write p a heap q = if p == q then a else heap q

-- `blank` is the zero `quote.Quote`.
module _ {Q E : Type 0} (blank : Q) where
  unfoldable pub new_with_ttl : ℕ → ℕ → Provider Q E
  new_with_ttl success failure = record {
    success_ttl = success;
    failure_ttl = failure;
    entries = [];
    heap = λ p. record { quote = blank; err = none; deadline = 0; has_quote = false };
    next = 0;
  }

  -- `New`
  unfoldable pub new : Provider Q E
  unfolding new_with_ttl
  new = new_with_ttl default_success_ttl default_failure_ttl

  -- `p.entries[symbol] = &entry{…}`
  unfoldable pub publish : Text → Entry Q E → Provider Q E → Provider Q E
  publish symbol e p = record p {
    entries = insert Text-discrete symbol p.next p.entries;
    heap = write p.next e p.heap;
    next = suc p.next;
  }

  -- `Get` up to its singleflight call
  unfoldable pub start : Text → ℕ → Provider Q E → Started Q E
  start symbol now p = elim (lookup Text-discrete symbol p.entries) [
    | none ↦ missed none
    | some a ↦
        if ltb now (p.heap a).deadline
        then (if (p.heap a).has_quote
            then answered (p.heap a).quote none
            else answered blank (p.heap a).err)
        else missed (some a)
  ]

  -- `Get` from its singleflight call on
  unfoldable pub finish :
      Text → ℕ → Option ℕ → Fetched Q E → Provider Q E → Provider Q E × Q × Option E
  finish symbol now e (Fetched.ok q) p = (
    publish symbol
        (record { quote = q; err = none; deadline = now + p.success_ttl; has_quote = true }) p,
    q,
    none,
  )
  finish symbol now e (Fetched.fail err) p =
      let replaced : Provider Q E × Q × Option E = (
        publish symbol
            (record {
              quote = blank;
              err = some err;
              deadline = now + p.failure_ttl;
              has_quote = false;
            })
            p,
        blank,
        some err,
      ) in
      elim e [
        | none ↦ replaced
        | some a ↦
            if (p.heap a).has_quote
            then (
              record p {
                heap =
                    write a (record (p.heap a) { deadline = now + p.failure_ttl; err = some err })
                      p.heap;
              },
              (p.heap a).quote,
              some err,
            )
            else replaced
      ]

  -- `Get`, when no other call interrupts it
  unfoldable pub get : Text → ℕ → Fetched Q E → Provider Q E → Provider Q E × Q × Option E
  get symbol now fetched p = elim (start symbol now p) [
    | answered q err ↦ (p, q, err)
    | missed e ↦ finish symbol now e fetched p
  ]

  -- `GetAt`: the inner provider's historical lookup, if it has one
  unfoldable pub get_at :
      {D : Type 0} → E → Option (Text → D → Q × Option E) → Text → D → Q × Option E
  get_at unavailable none symbol as_of = (blank, some unavailable)
  get_at unavailable (some historical) symbol as_of = historical symbol as_of
