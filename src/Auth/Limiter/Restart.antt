-- ===== src/Auth/Limiter/Restart.antt =====
-- What survives a restart of the console: `NewLimiter` on the file that the last `Fail` wrote.
use qfn_pgx.Base.{ℕ, ◌+◌, ◌≤◌, ◌≡◌, true, Option, some, String, String_eq, arith, ltb}
use qfn_pgx.Base.Dict.{Dict, lookup, lookup-sweep, keep_if, IsMap, insert-IsMap}
use qfn_pgx.Auth.Limiter.{IpState, Limiter, window, gate, allow, fail, new_limiter}
use qfn_pgx.Auth.Limiter.Gate.{state-fail}

-- A limiter started on a file has exactly the entries whose lockout ended less than a minute before
-- the start, or has not ended, as the file holds them: any other streak or count is forgotten.
pub lookup-new_limiter :
    (now : ℕ) (m : Dict String IpState) (ip : String)
    → IsMap m
    → lookup ip (new_limiter now true (some m)).state
      ≡ keep_if (λ st. ltb now (st.blocked_until + window)) (lookup ip m)
unfolding new_limiter
lookup-new_limiter now m ip h = lookup-sweep _ ip m h

file-fail :
    (now : ℕ) (ip : String) (l : Limiter)
    → l.has_path ≡ true
    → (fail now true ip l).file ≡ some (fail now true ip l).state
unfolding fail
file-fail now ip l h = ground arith

gate-keep_if :
    (now t : ℕ) (o : Option IpState)
    → now ≤ t
    → gate t (keep_if (λ st. ltb now (st.blocked_until + window)) o) ≡ gate t o
unfolding gate
gate-keep_if now t o h = ground arith

-- A restart resets no lockout: on the file that `Fail` wrote, a limiter started at `now` answers
-- `Allow` for every address and every time from `now` on as the limiter that was running does. The
-- limiter persists, the write succeeded, and its map has one entry for an address.
pub allow-restart :
    (before now t : ℕ) (ip j : String) (l : Limiter)
    → l.has_path ≡ true
    → IsMap l.state
    → now ≤ t
    → allow t j (new_limiter now true (fail before true ip l).file)
      ≡ allow t j (fail before true ip l)
unfolding allow
allow-restart before now t ip j l p m h =
    let kept : IsMap (fail before true ip l).state = rw state-fail (insert-IsMap ip _ l.state m) in
    rw (file-fail before ip l p, lookup-new_limiter now _ j kept) (gate-keep_if now t _ h)
