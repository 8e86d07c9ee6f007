-- ===== src/Auth/Sessions.antt =====
-- internal/auth/session.go: the table of web sessions, from the hash of a token to its idle expiry.
-- `hash_token` (SHA-256 of the token, in hex) is a parameter. Times are nanoseconds since the zero
-- time, and an operation reads the clock once; a random token is an input, `none` where
-- `rand.Read` fails.
pub mod Automaton
pub mod Lifetime
mod Tests
use qfn_pgx.Base.{
  ℕ, ◌+◌, Bool, true, false, Option, none, some, String, String_eq, ◌==◌, [], length, leb, ltb,
  if◌then◌else◌,
}
use qfn_pgx.Base.Dict.{Dict, lookup, insert, erase, sweep}

pub record Sessions : Type 0 where
  pub table : Dict String ℕ
  pub idle : ℕ

abbrev pub new_sessions : ℕ → Sessions
new_sessions idle = record { table = []; idle = idle }

-- `now.Before(exp)`
abbrev pub is_live : ℕ → ℕ → Bool
is_live now exp = ltb now exp

unfoldable pub prune_locked : ℕ → Sessions → Sessions
prune_locked now s = record s { table = sweep (is_live now) s.table }

unfoldable pub len : ℕ → Sessions → Sessions × ℕ
unfolding prune_locked
len now s = let s' = prune_locked now s in (s', length s'.table)

module _ (hash_token : String → String) where
  unfoldable pub create : ℕ → Option String → Sessions → Sessions × Option String
  unfolding prune_locked
  create now none s = (s, none)
  create now (some tok) s =
      let s' = prune_locked now s in
      (record s' { table = insert (hash_token tok) (now + s.idle) s'.table }, some tok)

  -- The branches of `Validate` on the entry of the token.
  abbrev validate_entry : ℕ → String → Option ℕ → Sessions → Sessions × Bool
  validate_entry now key none s = (s, false)
  validate_entry now key (some exp) s =
      if leb exp now
      then (record s { table = erase key s.table }, false)
      else (record s { table = insert key (now + s.idle) s.table }, true)

  unfoldable pub validate : ℕ → String → Sessions → Sessions × Bool
  validate now tok s =
      if tok == ""
      then (s, false)
      else validate_entry now (hash_token tok) (lookup (hash_token tok) s.table) s

  unfoldable pub revoke : String → Sessions → Sessions
  revoke tok s = record s { table = erase (hash_token tok) s.table }
