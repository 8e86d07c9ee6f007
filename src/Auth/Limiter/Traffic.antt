-- ===== src/Auth/Limiter/Traffic.antt =====
-- The calls that logins with a wrong password make of the limiter, as `hLogin` of internal/server/server.go makes
-- them: `Allow`, then the hash of the password with no lock held, then `Fail`. Logins interleave.
use qfn_pgx.Base.{
  ℕ, ◌+◌, ◌≤◌, ◌≡◌, refl, Bool, true, false, not, ◌&&◌, ◌||◌, String, String_eq, ◌==◌, List, [],
  ◌∷◌, arith, if◌then◌else◌, eq_iff, subst, Bool-cases, inl, inr, sym,
}
use qfn_pgx.Auth.Limiter.{Limiter, allow, fail}

-- What logins with a wrong password do at the limiter: one asks `Allow`, and, once its password has been hashed,
-- calls `Fail`, with the time and whether the lockout file was written. Others may come in between.
pub data Event : Type 0 where
  asks : String → ℕ → Event
  fails : String → ℕ → Bool → Event

-- The limiter, and the addresses of the logins that were let through and have not called `Fail`.
pub record Traffic : Type 0 where
  pub limiter : Limiter
  pub checking : List String

unfoldable pub is_checking : String → List String → Bool
is_checking ip [] = false
is_checking ip (j ∷ js) = j == ip || is_checking ip js

unfoldable pub without_one : String → List String → List String
without_one ip [] = []
without_one ip (j ∷ js) = let rest = without_one ip js in if j == ip then js else j ∷ rest

-- The two calls that `hLogin` makes of the limiter for a wrong password, each a step of its own.
unfoldable pub happen : Event → Traffic → Traffic
unfolding is_checking without_one
happen (asks ip t) tr =
    if (allow t ip tr.limiter).0 then record tr { checking = ip ∷ tr.checking } else tr
happen (fails ip t written) tr =
    if is_checking ip tr.checking
    then record { limiter = fail t written ip tr.limiter; checking = without_one ip tr.checking }
    else tr

unfoldable pub run : List Event → Traffic → Traffic
run [] tr = tr
run (e ∷ es) tr = run es (happen e tr)

abbrev pub count_if : Bool → ℕ
count_if true = 1
count_if false = 0

-- An attempt of the address is let through; one fails while the gate is open, or has been overtaken by a lockout.
abbrev pub passes : String → Event → Traffic → Bool
passes ip (asks j t) tr = j == ip && (allow t j tr.limiter).0
passes ip (fails j t written) tr = false

abbrev pub is_timely : String → Event → Traffic → Bool
is_timely ip (asks j t) tr = false
is_timely ip (fails j t written) tr =
    is_checking j tr.checking && ((allow t j tr.limiter).0 && j == ip)

abbrev pub is_overtaken : String → Event → Traffic → Bool
is_overtaken ip (asks j t) tr = false
is_overtaken ip (fails j t written) tr =
    is_checking j tr.checking && (not (allow t j tr.limiter).0 && j == ip)

-- How many attempts of one address are let through to the password check.
unfoldable pub let_through : String → List Event → Traffic → ℕ
let_through ip [] tr = 0
let_through ip (e ∷ es) tr = count_if (passes ip e tr) + let_through ip es (happen e tr)

unfoldable pub timely : String → List Event → Traffic → ℕ
timely ip [] tr = 0
timely ip (e ∷ es) tr = count_if (is_timely ip e tr) + timely ip es (happen e tr)

-- How many of them fail when a lockout has already shut the gate again.
unfoldable pub overtaken : String → List Event → Traffic → ℕ
overtaken ip [] tr = 0
overtaken ip (e ∷ es) tr = count_if (is_overtaken ip e tr) + overtaken ip es (happen e tr)

unfoldable pub count_of : String → List String → ℕ
count_of ip [] = 0
count_of ip (j ∷ js) = count_if (j == ip) + count_of ip js

abbrev pub at_of : Event → ℕ
at_of (asks ip t) = t
at_of (fails ip t written) = t

-- The events come in the order of their times, none before t.
abbrev pub InOrder : ℕ → List Event → Type 0
InOrder t [] = Unit
InOrder t (e ∷ es) = (t ≤ at_of e) × InOrder (at_of e) es

abbrev pub last_time : ℕ → List Event → ℕ
last_time t [] = t
last_time t (e ∷ es) = last_time (at_of e) es

pub last_time-ge : (t : ℕ) (es : List Event) → InOrder t es → t ≤ last_time t es
last_time-ge t [] o = omega arith
last_time-ge t (e ∷ es) o = omega (arith, o.0, last_time-ge (at_of e) es o.1)

count_of-without_one :
    (ip j : String) (js : List String)
    → is_checking j js ≡ true
    → count_of ip js ≡ count_if (j == ip) + count_of ip (without_one j js)
unfolding is_checking without_one count_of
count_of-without_one ip j [] h = cc
count_of-without_one ip j (k ∷ js) h = elim (Bool-cases (k == j)) [
  | inl p ↦ rw p (
      subst (λ x. count_if (x == ip) + count_of ip js ≡ count_if (j == ip) + count_of ip js)
        (sym ((eq_iff k j).0 p)) refl)
  | inr p ↦ rw p (omega (arith, count_of-without_one ip j js (ground (arith, h, p))))
]

-- An event moves its login, and no other.
step_conserved :
    (ip : String) (e : Event) (tr : Traffic)
    → count_of ip tr.checking + count_if (passes ip e tr)
      ≡ (count_if (is_timely ip e tr) + count_if (is_overtaken ip e tr))
        + count_of ip (happen e tr).checking
unfolding happen count_of
step_conserved ip (asks j t) tr = elim (Bool-cases (allow t j tr.limiter).0) [
  | inl p ↦ rw p (ground arith)
  | inr p ↦ rw p (ground arith)
]
step_conserved ip (fails j t written) tr = elim (Bool-cases (is_checking j tr.checking)) [
  | inl p ↦ rw p (ground (arith, count_of-without_one ip j tr.checking p))
  | inr p ↦ rw p (ground arith)
]

-- An attempt that was let through fails in time, fails overtaken, or has not failed yet.
pub attempts_conserved :
    (ip : String) (es : List Event) (tr : Traffic)
    → count_of ip tr.checking + let_through ip es tr
      ≡ (timely ip es tr + overtaken ip es tr) + count_of ip (run es tr).checking
unfolding let_through timely overtaken run
attempts_conserved ip [] tr = omega arith
attempts_conserved ip (e ∷ es) tr =
    omega (arith, step_conserved ip e tr, attempts_conserved ip es (happen e tr))
