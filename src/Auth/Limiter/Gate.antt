-- ===== src/Auth/Limiter/Gate.antt =====
-- What one wrong password does to its address (`Fail`, then `Allow`), and what it leaves alone.
use qfn_pgx.Base.{
  ℕ, zero, suc, ◌+◌, ◌-◌, ◌*◌, ◌^◌, ◌≤◌, min, ◌≡◌, Bool, true, false, Option, some, String,
  String_eq, ◌==◌, arith, ltb, if◌then◌else◌, eq_iff,
}
use qfn_pgx.Base.Dict.{lookup, insert, lookup-insert}
use qfn_pgx.Auth.Limiter.{
  IpState, Limiter, attempts_per_window, lockout_base, lockout_max, gate, allow, lockout,
  open_window, entry_or_fresh, record_failure, fail, persist_locked,
}

pow_bounds : (k : ℕ) → k ≤ 6 → (1 ≤ 2 ^ k) × (2 ^ k ≤ 64)
pow_bounds zero h = omega arith
pow_bounds (suc zero) h = omega arith
pow_bounds (suc (suc zero)) h = omega arith
pow_bounds (suc (suc (suc zero))) h = omega arith
pow_bounds (suc (suc (suc (suc zero)))) h = omega arith
pow_bounds (suc (suc (suc (suc (suc zero))))) h = omega arith
pow_bounds (suc (suc (suc (suc (suc (suc zero)))))) h = omega arith
pow_bounds (suc (suc (suc (suc (suc (suc (suc k))))))) h = absurd (omega arith)

-- A lockout lasts exactly 2 ^ min(streak, 6) minutes, between one minute and `lockout_max`: the
-- cap of the code never decides.
pub lockout_exact :
    (s : ℕ)
    → (lockout s ≡ lockout_base * 2 ^ min s 6)
      × (lockout_base ≤ lockout s)
      × (lockout s ≤ lockout_max)
unfolding lockout
lockout_exact s =
    let b = pow_bounds (min s 6) (omega arith) in
    (ground (arith, b.0, b.1), ground (arith, b.0, b.1), ground (arith, b.0, b.1))

state-persist_locked : (written : Bool) (l : Limiter) → (persist_locked written l).state ≡ l.state
unfolding persist_locked
state-persist_locked written l = ground arith

pub state-fail :
    (now : ℕ) (written : Bool) (ip : String) (l : Limiter)
    → (fail now written ip l).state
      ≡ insert ip (record_failure now (entry_or_fresh (lookup ip l.state))) l.state
unfolding fail
state-fail now written ip l = state-persist_locked written _

pub lookup-fail :
    (now : ℕ) (written : Bool) (ip j : String) (l : Limiter)
    → lookup j (fail now written ip l).state ≡ (
        if ip == j
        then some (record_failure now (entry_or_fresh (lookup ip l.state)))
        else lookup j l.state)
lookup-fail now written ip j l = rw state-fail (lookup-insert ip j _ l.state)

-- The gate after a failure, by what the failure found: at the sixth one of a window the address is
-- shut for exactly `lockout streak` from then on; before it, nothing changes at the gate.
gate-record_failure :
    (now t : ℕ) (st : IpState)
    → gate t (some (record_failure now st)) ≡ (
        if ltb attempts_per_window ((open_window now st).attempts + 1)
        then (if ltb t (now + lockout st.streak)
            then (false, now + lockout st.streak - t)
            else (true, 0))
        else gate t (some st))
unfolding gate record_failure
gate-record_failure now t st = ground arith

gate-entry_or_fresh : (t : ℕ) (o : Option IpState) → gate t (some (entry_or_fresh o)) ≡ gate t o
unfolding gate
gate-entry_or_fresh t o = ground arith

-- After `Fail` for an address, `Allow` answers at every time t for that address: shut until
-- now + lockout(streak), with the time left, if the failure was the sixth of its window, and what it
-- answered before otherwise; for every other address it answers what it answered before.
pub allow-fail :
    (now t : ℕ) (written : Bool) (ip j : String) (l : Limiter)
    → let st = entry_or_fresh (lookup ip l.state) in
      allow t j (fail now written ip l) ≡ (
        if ip == j
        then (if ltb attempts_per_window ((open_window now st).attempts + 1)
            then (if ltb t (now + lockout st.streak)
                then (false, now + lockout st.streak - t)
                else (true, 0))
            else allow t j l)
        else allow t j l)
unfolding allow
allow-fail now t written ip j l =
    let o = lookup ip l.state in
    rw lookup-fail (
      ground
        (arith, eq_iff ip j, gate-record_failure now t (entry_or_fresh o), gate-entry_or_fresh t o))
