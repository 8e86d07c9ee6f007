-- ===== src/Proxy/Messages/Stream/Content.antt =====
-- What the upstream says against what the client reads.
use qfn_pgx.Base.{
  ℕ, ◌≡◌, refl, ◌∙◌, ap, true, false, Option, String, List, [], ◌∷◌, ◌++◌, Bool-cases, inl, inr,
  ◌==◌, ℕ_eq, List_eq, String_eq, if◌then◌else◌,
}
use qfn_pgx.Base.Int.{Int_eq}
use qfn_pgx.Base.Bytes.{Text, codes, has_prefix, trim_space, trim_prefix}
use qfn_pgx.Proxy.Registry.{Request}
use qfn_pgx.Proxy.Messages.Stream.{
  Chunk, Kind, ping, message_delta, message_stop, Streamer, emit, close_opened, close_block,
  take_chunk,
}
use qfn_pgx.Proxy.Messages.Stream.Loop.{
  map_stop_reason, running, finished, gone, Session, begin, Input, client_gone, tick, line,
  upstream_closed, conclude, take_payload, take_line, round, go_on, serve, relay_events,
}
use qfn_pgx.Proxy.Messages.Stream.Said.{
  written, chunk_part, written-emit, Adds, Adds-trans, nothing-Adds, close_opened-Adds,
}
use qfn_pgx.Proxy.Messages.Stream.Chunks.{take_chunk-Adds}

-- The payload of a line of the upstream.
abbrev pub payload_of : Text → Text
payload_of l = trim_space (trim_prefix l (codes "data:"))

-- What the upstream says of the kind until it ends or the client leaves.
unfoldable pub upstream_part : (Text → Option Chunk) → Kind → List (ℕ × Input) → Text
upstream_part decode k [] = []
upstream_part decode k ((now, client_gone) ∷ is') = []
upstream_part decode k ((now, tick) ∷ is') = upstream_part decode k is'
upstream_part decode k ((now, upstream_closed) ∷ is') = []
upstream_part decode k ((now, line l) ∷ is') =
    let rest = upstream_part decode k is' in
    if has_prefix l (codes "data:")
    then (if payload_of l == codes "[DONE]"
        then []
        else chunk_part k (decode (payload_of l)) ++ rest)
    else rest

conclude-Adds : (k : Kind) (status now : ℕ) (s : Streamer) → Adds k [] s (conclude status now s)
unfolding conclude close_block
conclude-Adds k status now s =
    let closed = close_opened s.opened s in
    let told = message_delta (map_stop_reason closed.stop) closed.tokens_in closed.tokens_out in
    Adds-trans k [] [] s closed (conclude status now s) (close_opened-Adds k s.opened s) (
      Adds-trans k [] [] closed (emit told closed) (emit message_stop (emit told closed))
        (written-emit k told closed) (written-emit k message_stop (emit told closed)))

module _ (decode : Text → Option Chunk) (fresh : ℕ → String) (status : ℕ) where
  serve-finished :
      (is' : List (ℕ × Input)) (s : Streamer)
      → (serve decode fresh status is' (record { streamer = s; progress = finished })).streamer ≡ s
  unfolding serve go_on
  serve-finished [] s = refl
  serve-finished ((now, i) ∷ is') s = serve-finished is' s

  serve-gone :
      (is' : List (ℕ × Input)) (s : Streamer)
      → (serve decode fresh status is' (record { streamer = s; progress = gone })).streamer ≡ s
  unfolding serve go_on
  serve-gone [] s = refl
  serve-gone ((now, i) ∷ is') s = serve-gone is' s

module _ (decode : Text → Option Chunk) (fresh : ℕ → String) (status now : ℕ) (l : Text)
    (s : Streamer) where
  take_line_done :
      has_prefix l (codes "data:") ≡ true
      → (payload_of l == codes "[DONE]") ≡ true
      → take_line decode fresh status now l s
        ≡ record { streamer = conclude status now s; progress = finished }
  unfolding take_line take_payload
  take_line_done p q = rw (p, q) refl

  take_line_chunk :
      has_prefix l (codes "data:") ≡ true
      → (payload_of l == codes "[DONE]") ≡ false
      → take_line decode fresh status now l s
        ≡ record { streamer = take_chunk fresh now (decode (payload_of l)) s; progress = running }
  unfolding take_line take_payload
  take_line_chunk p q = rw (p, q) refl

  take_line_other :
      has_prefix l (codes "data:") ≡ false
      → take_line decode fresh status now l s ≡ record { streamer = s; progress = running }
  unfolding take_line
  take_line_other p = rw p refl

module _ (decode : Text → Option Chunk) (fresh : ℕ → String) (status : ℕ) (k : Kind) where
  abbrev running_with : Streamer → Session
  running_with s = record { streamer = s; progress = running }

  ended-Adds :
      (now : ℕ) (is' : List (ℕ × Input)) (s : Streamer)
      → Adds k [] s
          (serve decode fresh status is'
            (record { streamer = conclude status now s; progress = finished })).streamer
  ended-Adds now is' s = rw serve-finished (conclude-Adds k status now s)

  serve-Adds :
      (is' : List (ℕ × Input)) (s : Streamer)
      → Adds k
          (upstream_part decode k is')
          s
          (serve decode fresh status is' (running_with s)).streamer
  unfolding serve go_on round upstream_part
  serve-Adds [] s = nothing-Adds k s s refl
  serve-Adds ((now, client_gone) ∷ is') s =
      rw (serve-gone decode fresh status)
        (nothing-Adds k s (round decode fresh status now client_gone s).streamer refl)
  serve-Adds ((now, tick) ∷ is') s =
      Adds-trans k [] (upstream_part decode k is') s (emit ping s)
        (serve decode fresh status is' (running_with (emit ping s))).streamer
        (written-emit k ping s) (serve-Adds is' (emit ping s))
  serve-Adds ((now, upstream_closed) ∷ is') s = ended-Adds now is' s
  serve-Adds ((now, line l) ∷ is') s =
      let from_line : (ss : Session) (t : Text)
          → take_line decode fresh status now l s ≡ ss
          → t ≡ upstream_part decode k ((now, line l) ∷ is')
          → Adds k t s (serve decode fresh status is' ss).streamer
          → Adds k (upstream_part decode k ((now, line l) ∷ is')) s
              (serve decode fresh status ((now, line l) ∷ is') (running_with s)).streamer =
        λ ss t e u h.
          ap (λ x. written k (serve decode fresh status is' x).streamer.out) e
          ∙ h
          ∙ ap (λ x. written k s.out ++ x) u in
      elim (Bool-cases (has_prefix l (codes "data:"))) [
        | inl p ↦ elim (Bool-cases (payload_of l == codes "[DONE]")) [
          | inl q ↦
              from_line _ _ (take_line_done decode fresh status now l s p q) (rw (p, q) refl)
                (ended-Adds now is' s)
          | inr q ↦
              let s' = take_chunk fresh now (decode (payload_of l)) s in
              from_line _ _ (take_line_chunk decode fresh status now l s p q) (rw (p, q) refl) (
                Adds-trans k (chunk_part k (decode (payload_of l))) (upstream_part decode k is') s
                  s' (serve decode fresh status is' (running_with s')).streamer
                  (take_chunk-Adds fresh k now (decode (payload_of l)) s) (serve-Adds is' s'))
        ]
        | inr p ↦
            from_line _ _ (take_line_other decode fresh status now l s p) (rw p refl)
              (serve-Adds is' s)
      ]

-- No word is lost, doubled, reordered or moved to another kind: of each kind, what the deltas say that
-- the client reads is what the upstream's payloads say, in order, up to the upstream's end or the
-- client's leaving; a payload that cannot be decoded or that carries an error says nothing.
pub stream-content :
    (decode : Text → Option Chunk) (fresh : ℕ → String) (status : ℕ) (k : Kind) (msg_id : String)
    (req : Request) (is' : List (ℕ × Input))
    → written k (relay_events decode fresh status msg_id req is').streamer.out
      ≡ upstream_part decode k is'
unfolding relay_events written begin
stream-content decode fresh status k msg_id req is' =
    serve-Adds decode fresh status k is' (begin msg_id req)
