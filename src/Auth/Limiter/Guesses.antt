-- ===== src/Auth/Limiter/Guesses.antt =====
-- How many passwords one address can have checked, whatever the timing of the attempts and
-- whatever other addresses do in between.
use qfn_pgx.Base.{
  ℕ, zero, suc, ◌+◌, ◌-◌, ◌*◌, ◌^◌, min, ◌≤◌, ◌<◌, ◌≡◌, refl, ap, ◌⊎◌, true, false, Option, none,
  some, String, String_eq, ◌==◌, List, [], ◌∷◌, arith, eq_iff, subst, sym, Bool-cases, inl, inr,
}
use native.Mathlib.Nat.{add-zero, add_assoc, add-mul}
use qfn_pgx.Base.Dict.{lookup}
use qfn_pgx.Auth.Limiter.{
  IpState, window, lockout, gate, allow, fresh, entry_or_fresh, record_failure,
}
use qfn_pgx.Auth.Limiter.Gate.{lockout_exact, lookup-fail}
use qfn_pgx.Auth.Limiter.Traffic.{
  Event, asks, fails, Traffic, is_checking, happen, run, count_if, is_timely, let_through, timely,
  overtaken, count_of, at_of, InOrder, last_time, last_time-ge, attempts_conserved,
}

-- What holds of the address's entry after n timely failures from t0 on, the last event being at t.
record Paced (t0 n t : ℕ) (st : IpState) : Type 0 where
  few : st.attempts ≤ 5
  started : t0 ≤ st.window_start
  past : (st.window_start ≤ t) ⊎ (st.window_start ≤ st.blocked_until)
  paid : n * window + 6 * t0 ≤ 6 * st.window_start + st.attempts * window
  bounded : n * window + 6 * t0 ≤ 6 * t + 6 * window
  shut :
      (st.blocked_until ≤ t)
      ⊎ ((st.window_start ≡ st.blocked_until)
          × (n * window + 6 * t0 ≤ 6 * st.window_start)
          × (st.blocked_until ≤ t + lockout st.streak))

abbrev Entry : ℕ → ℕ → ℕ → Option IpState → Type 0
Entry t0 n t none = n ≡ 0
Entry t0 n t (some st) = Paced t0 n t st

Paced-later : {t0 n t : ℕ} (u : ℕ) {st : IpState} → t ≤ u → Paced t0 n t st → Paced t0 n u st
Paced-later u h p = ground arith

pow_same : (a b : ℕ) → a ≡ b → 2 ^ a ≤ 2 ^ b
pow_same a b e = subst (λ c. 2 ^ a ≤ 2 ^ c) e (omega arith)

pow_mono : (k : ℕ) → 2 ^ min k 6 ≤ 2 ^ min (k + 1) 6
pow_mono zero = omega arith
pow_mono (suc zero) = omega arith
pow_mono (suc (suc zero)) = omega arith
pow_mono (suc (suc (suc zero))) = omega arith
pow_mono (suc (suc (suc (suc zero)))) = omega arith
pow_mono (suc (suc (suc (suc (suc zero))))) = omega arith
pow_mono (suc (suc (suc (suc (suc (suc k)))))) = pow_same _ _ (omega arith)

lockout_mono : (s : ℕ) → lockout s ≤ lockout (s + 1)
lockout_mono s = omega (arith, (lockout_exact s).0, (lockout_exact (s + 1)).0, pow_mono s)

first_failure : (t0 t : ℕ) → window < t0 → t0 ≤ t → Paced t0 1 t (record_failure t fresh)
unfolding record_failure
first_failure t0 t h k = ground arith

next_failure :
    (t0 n t u : ℕ) (st : IpState)
    → t ≤ u
    → (gate u (some st)).0 ≡ true
    → Paced t0 n t st
    → Paced t0 (n + 1) u (record_failure u st)
unfolding record_failure gate
next_failure t0 n t u st h k p = ground (arith, lockout_exact st.streak, lockout_mono st.streak)

-- A failure while the gate is shut can only lengthen the lockout.
late_failure :
    (t0 n t u : ℕ) (st : IpState)
    → t ≤ u
    → (gate u (some st)).0 ≡ false
    → Paced t0 n t st
    → Paced t0 n u (record_failure u st)
unfolding record_failure gate
late_failure t0 n t u st h k p = ground (arith, lockout_mono st.streak)

Entry-later : (t0 n t u : ℕ) (o : Option IpState) → t ≤ u → Entry t0 n t o → Entry t0 n u o
Entry-later t0 n t u none h e = e
Entry-later t0 n t u (some st) h p = Paced-later u h p

Entry-fail :
    (t0 n t u : ℕ) (o : Option IpState)
    → window < t0
    → t0 ≤ t
    → t ≤ u
    → (gate u o).0 ≡ true
    → Entry t0 n t o
    → Paced t0 (n + 1) u (record_failure u (entry_or_fresh o))
Entry-fail t0 n t u none w k h a e = rw e (first_failure t0 u w (omega arith))
Entry-fail t0 n t u (some st) w k h a p = next_failure t0 n t u st h a p

Entry-bound :
    (t0 n t : ℕ) (o : Option IpState)
    → t0 ≤ t
    → Entry t0 n t o
    → n * window + 6 * t0 ≤ 6 * t + 6 * window
Entry-bound t0 n t none k e = omega arith
Entry-bound t0 n t (some st) k p = p.bounded

Entry-late :
    (t0 n t u : ℕ) (o : Option IpState)
    → t ≤ u
    → (gate u o).0 ≡ false
    → Entry t0 n t o
    → Paced t0 n u (record_failure u (entry_or_fresh o))
unfolding gate
Entry-late t0 n t u none k a e = cc
Entry-late t0 n t u (some st) k a p = late_failure t0 n t u st k a p

Entry-happen :
    (ip : String) (t0 n t : ℕ) (e : Event) (tr : Traffic)
    → window < t0
    → t0 ≤ t
    → t ≤ at_of e
    → Entry t0 n t (lookup ip tr.limiter.state)
    → Entry t0 (n + count_if (is_timely ip e tr)) (at_of e) (lookup ip (happen e tr).limiter.state)
unfolding happen
Entry-happen ip t0 n t (asks j u) tr w k h e = elim (Bool-cases (allow u j tr.limiter).0) [
  | inl p ↦ rw (p, add-zero) (Entry-later t0 n t u (lookup ip tr.limiter.state) h e)
  | inr p ↦ rw (p, add-zero) (Entry-later t0 n t u (lookup ip tr.limiter.state) h e)
]
Entry-happen ip t0 n t (fails j u written) tr w k h e =
    let later = Entry-later t0 n t u (lookup ip tr.limiter.state) h e in
    elim (Bool-cases (is_checking j tr.checking)) [
      | inr p ↦ rw (p, add-zero) later
      | inl p ↦ elim (Bool-cases (j == ip)) [
        | inr other ↦ elim (Bool-cases (allow u j tr.limiter).0) [
          | inl a ↦ rw (p, a, lookup-fail, other, add-zero) later
          | inr a ↦ rw (p, a, lookup-fail, other, add-zero) later
        ]
        | inl same ↦
            let e' =
              subst (λ i. Entry t0 n t (lookup i tr.limiter.state)) (sym ((eq_iff j ip).0 same))
                e in
            elim (Bool-cases (allow u j tr.limiter).0) [
              | inl a ↦
                  rw (p, a, lookup-fail, same)
                    (Entry-fail t0 n t u (lookup j tr.limiter.state) w k h (unfold allow in a) e')
              | inr a ↦
                  rw (p, a, lookup-fail, same, add-zero)
                    (Entry-late t0 n t u (lookup j tr.limiter.state) h (unfold allow in a) e')
            ]
      ]
    ]

timely_bound :
    (ip : String) (t0 n t : ℕ) (es : List Event) (tr : Traffic)
    → window < t0
    → t0 ≤ t
    → InOrder t es
    → Entry t0 n t (lookup ip tr.limiter.state)
    → (n + timely ip es tr) * window + 6 * t0 ≤ 6 * last_time t es + 6 * window
unfolding timely
timely_bound ip t0 n t [] tr w k o e =
    rw add-zero (Entry-bound t0 n t (lookup ip tr.limiter.state) k e)
timely_bound ip t0 n t (e ∷ es) tr w k o h =
    let c = count_if (is_timely ip e tr) in
    rw (← add_assoc n c (timely ip es (happen e tr))) (
      timely_bound ip t0 (n + c) (at_of e) es (happen e tr) w (omega (arith, k, o.0)) o.1
        (Entry-happen ip t0 n t e tr w k o.0 h))

-- However logins with wrong passwords interleave, each asking `Allow` and calling `Fail` later, after
-- its password was hashed, of one address at most 6, and 6 more for each whole or begun minute since t0, are
-- let through to the password check up to the last event, apart from those that failed when another failure
-- had already locked the address out and those that have not failed yet. The address has no entry and no
-- login is being checked at the start, the events come in order of time, and the clock is more than a minute
-- past the zero time.
pub guesses_bounded :
    (ip : String) (t0 : ℕ) (es : List Event) (tr : Traffic)
    → window < t0
    → InOrder t0 es
    → lookup ip tr.limiter.state ≡ none
    → tr.checking ≡ []
    → let_through ip es tr * window
      ≤ 6 * (last_time t0 es - t0)
        + 6 * window
        + (overtaken ip es tr + count_of ip (run es tr).checking) * window
unfolding count_of
guesses_bounded ip t0 es tr w o e idle =
    let bound = timely_bound ip t0 0 t0 es tr w (omega arith) o (rw e refl) in
    let parts = attempts_conserved ip es tr in
    let all : let_through ip es tr
        ≡ timely ip es tr + (overtaken ip es tr + count_of ip (run es tr).checking) =
      omega (arith, parts, ap (count_of ip) idle) in
    rw (all, add-mul) (omega (arith, bound, last_time-ge t0 es o))
