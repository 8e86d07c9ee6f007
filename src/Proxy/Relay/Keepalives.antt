-- ===== src/Proxy/Relay/Keepalives.antt =====
-- How often keepalives are sent, and where they land.
use qfn_pgx.Base.{
  ℕ, ◌+◌, ◌≤◌, ◌≡◌, refl, ◌≢◌, true, false, Option, List, [], ◌∷◌, ◌++◌, arith, if◌then◌else◌,
  List_eq, ℕ_eq,
}
use mathlib.Core.List.{append_assoc}
use qfn_pgx.Base.Bytes.{Text}
use qfn_pgx.Proxy.Registry.{Request}
use qfn_pgx.Proxy.Relay.{
  SseEvent, Out, relayed, keepalive, Relay, Input, client_gone, tick, line, upstream_closed, start,
  relay_step, relay,
}

abbrev pub keepalives : List Out → ℕ
keepalives [] = 0
keepalives (relayed l ∷ os) = keepalives os
keepalives (keepalive ∷ os) = keepalives os + 1

abbrev pub is_blank : Text → ℕ
is_blank [] = 1
is_blank (c ∷ l) = 0

-- The blank lines that come in.
abbrev pub blanks : List (ℕ × Input) → ℕ
blanks [] = 0
blanks ((now, line l written) ∷ is') = is_blank l + blanks is'
blanks ((now, client_gone) ∷ is') = blanks is'
blanks ((now, tick written) ∷ is') = blanks is'
blanks ((now, upstream_closed status) ∷ is') = blanks is'

keepalives-append : (os ps : List Out) → keepalives (os ++ ps) ≡ keepalives os + keepalives ps
keepalives-append [] ps = omega arith
keepalives-append (relayed l ∷ os) ps = keepalives-append os ps
keepalives-append (keepalive ∷ os) ps = omega (arith, keepalives-append os ps)

abbrev credit : Relay → ℕ
credit s = keepalives s.out + (if s.at_boundary then 1 else 0)

step_credit :
    (decode : Text → Option SseEvent) (now : ℕ) (i : Input) (s : Relay)
    → credit (relay_step decode now i s) ≤ credit s + blanks ((now, i) ∷ [])
unfolding relay_step
step_credit decode now client_gone s = ground arith
step_credit decode now (tick written) s = ground (arith, keepalives-append s.out (keepalive ∷ []))
step_credit decode now (line [] written) s =
    ground (arith, keepalives-append s.out (relayed [] ∷ []))
step_credit decode now (line (c ∷ l) written) s =
    ground (arith, keepalives-append s.out (relayed (c ∷ l) ∷ []))
step_credit decode now (upstream_closed status) s = ground arith

blanks-cons :
    (now : ℕ) (i : Input) (is' : List (ℕ × Input))
    → blanks ((now, i) ∷ is') ≡ blanks ((now, i) ∷ []) + blanks is'
blanks-cons now client_gone is' = omega arith
blanks-cons now (tick written) is' = omega arith
blanks-cons now (line l written) is' = omega arith
blanks-cons now (upstream_closed status) is' = omega arith

credit-relay :
    (decode : Text → Option SseEvent) (is' : List (ℕ × Input)) (s : Relay)
    → credit (relay decode is' s) ≤ credit s + blanks is'
unfolding relay
credit-relay decode [] s = omega arith
credit-relay decode ((now, i) ∷ is') s = omega (
  arith,
  credit-relay decode is' (relay_step decode now i s),
  step_credit decode now i s,
  blanks-cons now i is',
)

-- However long the upstream is silent, at most one keepalive is sent until its next blank line: in a
-- whole stream there are at most one more than blank lines have come.
pub keepalives_bounded :
    (decode : Text → Option SseEvent) (is' : List (ℕ × Input)) (req : Request)
    → keepalives (relay decode is' (start req)).out ≤ blanks is' + 1
keepalives_bounded decode is' req = omega (arith, credit-relay decode is' (start req))

-- A keepalive can land inside an event: at a boundary, when a line that is not blank has been relayed
-- and the ticker fires before the next line, the keepalive and its blank line come right after
-- it, before the rest of its event.
pub keepalive_inside_event :
    (decode : Text → Option SseEvent) (s : Relay) (t0 t1 : ℕ) (l : Text)
    → s.ended ≡ false
    → s.at_boundary ≡ true
    → l ≢ []
    → (relay decode ((t0, line l true) ∷ (t1, tick true) ∷ []) s).out
      ≡ s.out ++ relayed l ∷ keepalive ∷ []
unfolding relay relay_step
keepalive_inside_event decode s t0 t1 [] h b n = absurd (n refl)
keepalive_inside_event decode s t0 t1 (c ∷ l) h b n =
    ground (arith, append_assoc s.out (relayed (c ∷ l) ∷ []) (keepalive ∷ []))
