-- ===== src/Proxy/Relay/Transparency.antt =====
-- What the client receives of the upstream's lines.
use qfn_pgx.Base.{ℕ, ◌≡◌, refl, Bool, true, false, Option, List, [], ◌∷◌, ◌++◌, arith, ap}
use mathlib.Core.List.{append-nil, append_assoc}
use qfn_pgx.Base.Bytes.{Text}
use qfn_pgx.Proxy.Relay.{
  SseEvent, Out, relayed, keepalive, Relay, Input, client_gone, tick, line, upstream_closed, start,
  relay_step, relay,
}
use qfn_pgx.Proxy.Registry.{Request}

-- The relayed lines among what was written.
abbrev pub lines_of : List Out → List Text
lines_of [] = []
lines_of (relayed l ∷ os) = l ∷ lines_of os
lines_of (keepalive ∷ os) = lines_of os

lines_of-append : (os ps : List Out) → lines_of (os ++ ps) ≡ lines_of os ++ lines_of ps
lines_of-append [] ps = refl
lines_of-append (relayed l ∷ os) ps = ap (λ ls. l ∷ ls) (lines_of-append os ps)
lines_of-append (keepalive ∷ os) ps = lines_of-append os ps

-- The upstream's lines, up to the end of the stream or of the client.
abbrev pub upstream : List (ℕ × Input) → List Text
upstream [] = []
upstream ((now, client_gone) ∷ is') = []
upstream ((now, tick written) ∷ is') = upstream is'
upstream ((now, line l written) ∷ is') = l ∷ upstream is'
upstream ((now, upstream_closed status) ∷ is') = []

-- Every write of a line succeeds.
abbrev pub Written : List (ℕ × Input) → Type 0
Written [] = Unit
Written ((now, line l written) ∷ is') = (written ≡ true) × Written is'
Written ((now, client_gone) ∷ is') = Written is'
Written ((now, tick written) ∷ is') = Written is'
Written ((now, upstream_closed status) ∷ is') = Written is'

step_ended :
    (decode : Text → Option SseEvent) (now : ℕ) (i : Input) (s : Relay)
    → s.ended ≡ true
    → relay_step decode now i s ≡ s
unfolding relay_step
step_ended decode now i s h = rw h

relay_ended :
    (decode : Text → Option SseEvent) (is' : List (ℕ × Input)) (s : Relay)
    → s.ended ≡ true
    → relay decode is' s ≡ s
unfolding relay
relay_ended decode [] s h = refl
relay_ended decode ((now, i) ∷ is') s h =
    rw (step_ended decode now i s h) (relay_ended decode is' s h)

step_gone :
    (decode : Text → Option SseEvent) (now : ℕ) (s : Relay)
    → s.ended ≡ false
    → ((relay_step decode now client_gone s).out ≡ s.out)
      × ((relay_step decode now client_gone s).ended ≡ true)
unfolding relay_step
step_gone decode now s h = ground arith

step_closed :
    (decode : Text → Option SseEvent) (now status : ℕ) (s : Relay)
    → s.ended ≡ false
    → ((relay_step decode now (upstream_closed status) s).out ≡ s.out)
      × ((relay_step decode now (upstream_closed status) s).ended ≡ true)
unfolding relay_step
step_closed decode now status s h = ground arith

step_line :
    (decode : Text → Option SseEvent) (now : ℕ) (l : Text) (s : Relay)
    → s.ended ≡ false
    → ((relay_step decode now (line l true) s).out ≡ s.out ++ relayed l ∷ [])
      × ((relay_step decode now (line l true) s).ended ≡ false)
unfolding relay_step
step_line decode now l s h = ground arith

step_tick :
    (decode : Text → Option SseEvent) (now : ℕ) (written : Bool) (s : Relay)
    → s.ended ≡ false
    → (lines_of (relay_step decode now (tick written) s).out ≡ lines_of s.out)
      × ((relay_step decode now (tick written) s).ended ≡ false)
unfolding relay_step
step_tick decode now written s h =
    ground (arith, lines_of-append s.out (keepalive ∷ []), append-nil (lines_of s.out))

relay_lines_from :
    (decode : Text → Option SseEvent) (is' : List (ℕ × Input)) (s : Relay)
    → s.ended ≡ false
    → Written is'
    → lines_of (relay decode is' s).out ≡ lines_of s.out ++ upstream is'
unfolding relay
relay_lines_from decode [] s h w = rw append-nil
relay_lines_from decode ((now, client_gone) ∷ is') s h w =
    let e = step_gone decode now s h in
    rw (relay_ended decode is' (relay_step decode now client_gone s) e.1, e.0, append-nil)
relay_lines_from decode ((now, upstream_closed status) ∷ is') s h w =
    let e = step_closed decode now status s h in
    rw (
      relay_ended decode is' (relay_step decode now (upstream_closed status) s) e.1,
      e.0,
      append-nil,
    )
relay_lines_from decode ((now, tick written) ∷ is') s h w =
    let e = step_tick decode now written s h in
    rw (relay_lines_from decode is' (relay_step decode now (tick written) s) e.1 w, e.0)
relay_lines_from decode ((now, line l written) ∷ is') s h w =
    let e = step_line decode now l s h in
    rw w.0 (
      rw
        (
          relay_lines_from decode is' (relay_step decode now (line l true) s) e.1 w.1,
          e.0,
          lines_of-append s.out (relayed l ∷ []),
          append_assoc,
        )
        refl)

-- Whatever ticks come in between, and apart from the keepalives that they write, which may stand anywhere
-- between two lines, what a client is sent is the upstream's lines, all of them, in order and unchanged, up
-- to the end of the stream or of the client. Every write of a line succeeds.
pub relay_lines :
    (decode : Text → Option SseEvent) (is' : List (ℕ × Input)) (req : Request)
    → Written is'
    → lines_of (relay decode is' (start req)).out ≡ upstream is'
relay_lines decode is' req w = relay_lines_from decode is' (start req) refl w
