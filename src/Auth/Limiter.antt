-- ===== src/Auth/Limiter.antt =====
-- internal/auth/ratelimit.go: the login lockout, one `IpState` for a source address.
-- A `time.Time` is its nanoseconds since the zero Time, a positive `time.Duration` its nanoseconds;
-- `a.Sub(b) > d` with d ≥ 0 is `d < a - b` in truncated subtraction. An operation reads the clock
-- once. The JSON file of lockouts is the map that was last written to it.
pub mod Gate
pub mod Guesses
pub mod Restart
pub mod Traffic
mod Tests
use qfn_pgx.Base.{
  ℕ, ◌+◌, ◌-◌, ◌*◌, ◌^◌, min, Bool, true, false, Option, none, some, String, [], String_eq, ltb,
  if◌then◌else◌,
}
use qfn_pgx.Base.Dict.{Dict, lookup, insert, erase, sweep}

abbrev pub second : ℕ
second = 1000000000

abbrev pub attempts_per_window : ℕ
attempts_per_window = 5

abbrev pub window : ℕ
window = 60 * second

abbrev pub lockout_base : ℕ
lockout_base = 60 * second

abbrev pub lockout_max : ℕ
lockout_max = 64 * 60 * second

pub record IpState : Type 0 where
  pub attempts : ℕ
  pub window_start : ℕ
  pub streak : ℕ
  pub blocked_until : ℕ

-- `&ipState{}`
abbrev pub fresh : IpState
fresh = record { attempts = 0; window_start = 0; streak = 0; blocked_until = 0 }

pub record Limiter : Type 0 where
  pub has_path : Bool
  pub state : Dict String IpState
  pub file : Option (Dict String IpState)

-- `allow` on the address's entry: may an attempt proceed, and if not, for how long.
unfoldable pub gate : ℕ → Option IpState → Bool × ℕ
gate now none = (true, 0)
gate now (some st) = if ltb now st.blocked_until then (false, st.blocked_until - now) else (true, 0)

unfoldable pub allow : ℕ → String → Limiter → Bool × ℕ
unfolding gate
allow now ip l = gate now (lookup ip l.state)

-- `lockoutBase << min(st.Streak, 6)`, then the cap.
unfoldable pub lockout : ℕ → ℕ
lockout streak =
    let d = lockout_base * 2 ^ min streak 6 in if ltb lockout_max d then lockout_max else d

abbrev pub open_window : ℕ → IpState → IpState
open_window now st =
    if ltb window (now - st.window_start)
    then record st { window_start = now; attempts = 0 }
    else st

-- What `Fail` does to the address's entry.
unfoldable pub record_failure : ℕ → IpState → IpState
record_failure now st0 =
    let st1 = open_window now st0 in
    let st = record st1 { attempts = st1.attempts + 1 } in
    let d = lockout st.streak in
    if ltb attempts_per_window st.attempts
    then record {
      attempts = 0;
      window_start = now + d;
      streak = st.streak + 1;
      blocked_until = now + d;
    }
    else st

abbrev pub entry_or_fresh : Option IpState → IpState
entry_or_fresh none = fresh
entry_or_fresh (some st) = st

-- `written` says whether the temporary file was written and renamed.
unfoldable pub persist_locked : Bool → Limiter → Limiter
persist_locked written l =
    if l.has_path then (if written then record l { file = some l.state } else l) else l

unfoldable pub fail : ℕ → Bool → String → Limiter → Limiter
unfolding persist_locked
fail now written ip l = persist_locked written (record l {
  state = insert ip (record_failure now (entry_or_fresh (lookup ip l.state))) l.state;
})

abbrev success_at : Option IpState → Bool → String → Limiter → Limiter
success_at none written ip l = l
success_at (some st) written ip l = persist_locked written (record l { state = erase ip l.state })

unfoldable pub success : Bool → String → Limiter → Limiter
unfolding persist_locked
success written ip l = success_at (lookup ip l.state) written ip l

abbrev blocked_at : ℕ → Option IpState → ℕ × Bool
blocked_at now none = (0, false)
blocked_at now (some st) =
    if ltb 0 (st.blocked_until - now) then (st.blocked_until - now, true) else (0, false)

unfoldable pub blocked : ℕ → String → Limiter → ℕ × Bool
blocked now ip l = blocked_at now (lookup ip l.state)

-- `time.Until(st.BlockedUntil) > -window`
unfoldable pub is_recent : ℕ → IpState → Bool
is_recent now st = ltb now (st.blocked_until + window)

-- `load` fills an empty map from the file; a missing or corrupt file is `none`.
unfoldable pub load : ℕ → Limiter → Limiter
unfolding is_recent
load now l =
    if l.has_path
    then elim l.file [
      | none ↦ l
      | some persisted ↦ record l { state = sweep (is_recent now) persisted }
    ]
    else l

unfoldable pub new_limiter : ℕ → Bool → Option (Dict String IpState) → Limiter
unfolding load
new_limiter now has_path file = load now (record { has_path = has_path; state = []; file = file })
