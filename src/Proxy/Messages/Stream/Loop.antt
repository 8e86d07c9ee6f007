-- ===== src/Proxy/Messages/Stream/Loop.antt =====
-- `relayAnthropicSSE` of internal/proxy/anthropic.go: the loop that reads the upstream's lines and ends the
-- message. One round of its `select` is one input, with its time. `decode` (JSON of a data payload) is a
-- parameter.
use qfn_pgx.Base.{
  ℕ, Bool, true, false, Option, none, some, String, String_eq, ℕ_eq, List_eq, ◌==◌, List, [], ◌∷◌,
  if◌then◌else◌,
}
use qfn_pgx.Base.Bytes.{Text, codes, has_prefix, trim_space, trim_prefix}
use qfn_pgx.Proxy.Registry.{Request, Phase, done, error, aborted}
use qfn_pgx.Proxy.Messages.Stream.{
  Chunk, message_start, ping, message_delta, message_stop, Streamer, emit, close_block, take_chunk,
}

-- `mapStopReason`
unfoldable pub map_stop_reason : String → String
map_stop_reason fr =
    if fr == "length" then "max_tokens" else if fr == "tool_calls" then "tool_use" else "end_turn"

-- How the loop stands: it runs, it has ended the message, or it has returned because the client left.
pub data Progress : Type 0 where
  running finished gone : Progress

pub record Session : Type 0 where
  pub streamer : Streamer
  pub progress : Progress

-- The streamer when the loop starts, with the message's id.
unfoldable pub begin : String → Request → Streamer
begin msg_id req = record {
  idx = 0;
  opened = none;
  cur = "";
  tool = [];
  stop = "";
  tokens_in = 0;
  tokens_out = 0;
  out = message_start msg_id req.model ∷ ping ∷ [];
  row = req;
  counted = false;
}

pub data Input : Type 0 where
  client_gone tick : Input
  line : Text → Input
  upstream_closed : Input

abbrev is_error : Phase → Bool
is_error error = true
is_error _ = false

-- The last `Finish`, with the upstream's status.
close_row : ℕ → ℕ → Request → Request
close_row now status x = record x {
  done_at = some now;
  status = status;
  phase = if is_error x.phase then x.phase else done;
}

abort_row : ℕ → Request → Request
abort_row now x = record x { done_at = some now; is_aborted = true; phase = aborted }

-- What follows the loop.
unfoldable pub conclude : ℕ → ℕ → Streamer → Streamer
unfolding close_block emit close_row map_stop_reason
conclude status now s0 =
    let s = close_block s0 in
    let told = emit (message_delta (map_stop_reason s.stop) s.tokens_in s.tokens_out) s in
    let ended = emit message_stop told in record ended { row = close_row now status ended.row }

module _ (decode : Text → Option Chunk) (fresh : ℕ → String) (status : ℕ) where
  unfoldable pub take_payload : ℕ → Text → Streamer → Session
  unfolding take_chunk conclude
  take_payload now payload s =
      if payload == codes "[DONE]"
      then record { streamer = conclude status now s; progress = finished }
      else record { streamer = take_chunk fresh now (decode payload) s; progress = running }

  unfoldable pub take_line : ℕ → Text → Streamer → Session
  unfolding take_payload
  take_line now l s =
      if has_prefix l (codes "data:")
      then take_payload now (trim_space (trim_prefix l (codes "data:"))) s
      else record { streamer = s; progress = running }

  unfoldable pub round : ℕ → Input → Streamer → Session
  unfolding take_line conclude abort_row emit
  round now client_gone s = record {
    streamer = record s { row = abort_row now s.row };
    progress = gone;
  }
  round now tick s = record { streamer = emit ping s; progress = running }
  round now (line l) s = take_line now l s
  round now upstream_closed s = record { streamer = conclude status now s; progress = finished }

  unfoldable pub go_on : Progress → ℕ → Input → Session → Session
  unfolding round
  go_on running now i ss = round now i ss.streamer
  go_on finished now i ss = ss
  go_on gone now i ss = ss

  unfoldable pub serve : List (ℕ × Input) → Session → Session
  unfolding go_on
  serve [] ss = ss
  serve ((now, i) ∷ is') ss = serve is' (go_on ss.progress now i ss)

  -- The whole relay.
  unfoldable pub relay_events : String → Request → List (ℕ × Input) → Session
  unfolding serve begin
  relay_events msg_id req is' =
      serve is' (record { streamer = begin msg_id req; progress = running })
