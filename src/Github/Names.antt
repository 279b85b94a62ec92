-- ===== src/Github/Names.antt =====
-- service/github/github.go: the names of users and repositories that the handlers take.
use imagelet.Base.{
  ℕ, Bool, true, false, not, ◌||◌, ◌&&◌, [], ◌∷◌, ltb, leb, ◌==◌, if◌then◌else◌, length,
}
use imagelet.Base.Text.{Text}
use imagelet.Dns.Hosts.{is_alnum, byte_length}

-- `loginRe` as an automaton: where it stands in a login
pub data LoginPlace : Type 0 where
  outset : LoginPlace
  -- after a letter or a digit: here a login may end
  letter : LoginPlace
  dash : LoginPlace
  -- no match any more
  off : LoginPlace

unfoldable pub next_login_place : LoginPlace → ℕ → LoginPlace
unfolding is_alnum
next_login_place outset c = if is_alnum c then letter else off
next_login_place letter c = if is_alnum c then letter else if c == b'-' then dash else off
next_login_place dash c = if is_alnum c then letter else off
next_login_place off c = off

unfoldable pub ends_login : LoginPlace → Bool
ends_login letter = true
ends_login _ = false

unfoldable pub login_from : LoginPlace → Text → Bool
unfolding next_login_place ends_login
login_from p [] = ends_login p
login_from p (c ∷ s) = login_from (next_login_place p c) s

-- `loginRe.MatchString(login)`
unfoldable pub matches_login_re : Text → Bool
unfolding login_from
matches_login_re = login_from outset

abbrev pub login_max_len : ℕ
login_max_len = 39

-- `[A-Za-z0-9._-]`
unfoldable pub is_repo_char : ℕ → Bool
unfolding is_alnum
is_repo_char c = is_alnum c || c == b'.' || c == b'_' || c == b'-'

unfoldable pub all_repo_chars : Text → Bool
unfolding is_repo_char
all_repo_chars [] = true
all_repo_chars (c ∷ s) = is_repo_char c && all_repo_chars s

-- `repoRe.MatchString(name)`
unfoldable pub matches_repo_re : Text → Bool
unfolding all_repo_chars
matches_repo_re name = leb 1 (length name) && leb (length name) 100 && all_repo_chars name

-- the tests of `serveUser` and of `serveRepo`
unfoldable pub is_bad_login : Text → Bool
unfolding byte_length matches_login_re
is_bad_login login = ltb login_max_len (byte_length login) || not (matches_login_re login)

unfoldable pub is_bad_path : Text → Text → Bool
unfolding is_bad_login matches_repo_re
is_bad_path owner name = is_bad_login owner || not (matches_repo_re name)
