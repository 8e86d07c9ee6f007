-- ===== src/Proxy/Messages/Stream/Order.antt =====
-- Every stream is a message of the protocol, whatever the upstream sends.
use qfn_pgx.Base.{
  ℕ, ◌≡◌, refl, subst, Bool, true, false, Option, some, String, List, [], ◌∷◌, arith, Bool-cases,
  inl, inr, ◌==◌, ℕ_eq, List_eq, String_eq,
}
use qfn_pgx.Base.Int.{Int_eq}
use qfn_pgx.Base.Bytes.{Text, codes, has_prefix, trim_space, trim_prefix}
use qfn_pgx.Base.Dict.{lookup}
use qfn_pgx.Proxy.Registry.{Request}
use qfn_pgx.Proxy.Messages.Stream.{
  Chunk, ping, message_delta, message_stop, Streamer, emit, close_block,
}
use qfn_pgx.Proxy.Messages.Stream.Protocol.{
  Watch, going, over, check, watch, watch_from, watch-emit, Sound, kept-Sound, close_block-Agrees,
}
use qfn_pgx.Proxy.Messages.Stream.Blocks.{take_chunk-Sound, emit-Sound}
use qfn_pgx.Proxy.Messages.Stream.Loop.{
  map_stop_reason, Progress, running, finished, gone, Session, begin, Input, client_gone, tick,
  line, upstream_closed, conclude, take_payload, take_line, round, go_on, serve, relay_events,
}

abbrev Expected : Progress → Streamer → Type 0
Expected running s = Sound s
Expected gone s = Sound s
Expected finished s = watch s.out ≡ some over

-- Where the reader stands for how the loop stands.
abbrev Told : Session → Type 0
Told ss = Expected ss.progress ss.streamer

conclude-over :
    (status now : ℕ) (s : Streamer) → Sound s → watch (conclude status now s).out ≡ some over
unfolding conclude check emit
conclude-over status now s (tools, h) =
    let told =
      message_delta (map_stop_reason (close_block s).stop) (close_block s).tokens_in
        (close_block s).tokens_out in
    let (g, closed) = close_block-Agrees s tools h in
    ground (
      arith,
      g.state,
      closed,
      watch-emit told (close_block s),
      watch-emit message_stop (emit told (close_block s)),
    )

begin-Sound : (msg_id : String) (req : Request) → Sound (begin msg_id req)
unfolding begin watch watch_from check lookup
begin-Sound msg_id req =
    ([], record { state = refl; known = λ i b found. ground (arith, found); begun = refl })

module _ (decode : Text → Option Chunk) (fresh : ℕ → String) (status : ℕ) where
  take_payload-Told :
      (now : ℕ) (payload : Text) (s : Streamer)
      → Sound s
      → Told (take_payload decode fresh status now payload s)
  unfolding take_payload
  take_payload-Told now payload s h = elim (Bool-cases (payload == codes "[DONE]")) [
    | inl p ↦ rw p (conclude-over status now s h)
    | inr p ↦ rw p (take_chunk-Sound fresh now (decode payload) s h)
  ]

  take_line-Told :
      (now : ℕ) (l : Text) (s : Streamer) → Sound s → Told (take_line decode fresh status now l s)
  unfolding take_line
  take_line-Told now l s h = elim (Bool-cases (has_prefix l (codes "data:"))) [
    | inl p ↦ rw p (take_payload-Told now (trim_space (trim_prefix l (codes "data:"))) s h)
    | inr p ↦ rw p h
  ]

  round-Told :
      (now : ℕ) (i : Input) (s : Streamer) → Sound s → Told (round decode fresh status now i s)
  unfolding round check
  round-Told now client_gone s h = kept-Sound _ _ refl refl refl refl h
  round-Told now tick s (tools, h) = emit-Sound ping s tools refl h
  round-Told now (line l) s h = take_line-Told now l s h
  round-Told now upstream_closed s h = conclude-over status now s h

  go_on-Told :
      (p : Progress) (now : ℕ) (i : Input) (ss : Session)
      → ss.progress ≡ p
      → Told ss
      → Told (go_on decode fresh status p now i ss)
  unfolding go_on
  go_on-Told running now i ss eq h =
      round-Told now i ss.streamer (subst (λ q. Expected q ss.streamer) eq h)
  go_on-Told finished now i ss eq h = h
  go_on-Told gone now i ss eq h = h

  serve-Told :
      (is' : List (ℕ × Input)) (ss : Session) → Told ss → Told (serve decode fresh status is' ss)
  unfolding serve
  serve-Told [] ss h = h
  serve-Told ((now, i) ∷ is') ss h = serve-Told is' _ (go_on-Told ss.progress now i ss refl h)

-- How the reader stands for how the loop stands.
abbrev pub outcome : Progress → Option Watch → Bool
outcome finished (some over) = true
outcome running (some (going n opened tools)) = true
outcome gone (some (going n opened tools)) = true
outcome _ _ = false

outcome_of_Expected : (p : Progress) (s : Streamer) → Expected p s → outcome p (watch s.out) ≡ true
outcome_of_Expected running s (tools, h) = rw h.state refl
outcome_of_Expected gone s (tools, h) = rw h.state refl
outcome_of_Expected finished s h = rw h refl

-- Whatever the upstream sends, in whatever order, and however often the ticker fires, the order of the events
-- that the client reads is as follows: the message begins once, its blocks are numbered from zero in the
-- order in which they begin, one is open at a time, a thinking or text delta belongs to the open block and is
-- of its kind, an argument delta belongs to a tool block that has begun, which may have stopped since, though the
-- Messages protocol has no such delta, and a relay that finished has closed its last block and sent the
-- message's delta and its stop, once and last; a relay that has not has sent neither.
pub stream-well_formed :
    (decode : Text → Option Chunk) (fresh : ℕ → String) (status : ℕ) (msg_id : String)
    (req : Request) (is' : List (ℕ × Input))
    → let ss = relay_events decode fresh status msg_id req is' in
      outcome ss.progress (watch ss.streamer.out) ≡ true
unfolding relay_events
stream-well_formed decode fresh status msg_id req is' = outcome_of_Expected _ _ (
    serve-Told decode fresh status is' (record { streamer = begin msg_id req; progress = running })
      (begin-Sound msg_id req))
