-- ===== src/Auth/Limiter/Tests.antt =====
-- The limiter on concrete addresses and times.
use qfn_pgx.Base.{ℕ, ◌+◌, ◌-◌, ◌*◌, ◌≤◌, refl, true, none, String, String_eq, List, [], ◌∷◌, arith}
use qfn_pgx.Base.Dict.{lookup}
use qfn_pgx.Auth.Limiter.{IpState, Limiter, fresh, second, window}
use qfn_pgx.Auth.Limiter.Guesses.{guesses_bounded}
use qfn_pgx.Auth.Limiter.Traffic.{
  Event, asks, fails, Traffic, run, let_through, overtaken, count_of, last_time,
}

abbrev started : ℕ
started = 1000 * second

abbrev address : String
address = "10.0.0.7"

-- Five failures in a window that is still open.
abbrev five_failures : IpState
five_failures = record { attempts = 5; window_start = started; streak = 2; blocked_until = 0 }

abbrev limiter : Limiter
limiter = record {
  has_path = true;
  state = ("10.0.0.7", five_failures) ∷ ("10.0.0.8", fresh) ∷ [];
  file = none;
}

-- Two attempts at once, of which one has not failed yet, and one of another address.
abbrev events : List Event
events =
    asks "10.0.0.9" started
    ∷ asks "10.0.0.9" (started + 1)
    ∷ asks "10.0.0.7" (started + 1)
    ∷ fails "10.0.0.9" (started + 2) true
    ∷ []

abbrev quiet : Traffic
quiet = record { limiter = limiter; checking = [] }

guesses_bounded_example :
    let_through "10.0.0.9" events quiet * window
    ≤ 6 * (last_time started events - started)
      + 6 * window
      + (overtaken "10.0.0.9" events quiet + count_of "10.0.0.9" (run events quiet).checking)
        * window
unfolding lookup
guesses_bounded_example =
    guesses_bounded "10.0.0.9" started events quiet (omega arith)
      (omega arith, (omega arith, (omega arith, (omega arith, tt)))) refl refl
