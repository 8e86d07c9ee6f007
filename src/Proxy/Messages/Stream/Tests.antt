-- ===== src/Proxy/Messages/Stream/Tests.antt =====
-- A short chat stream, and the events that it becomes.
use qfn_pgx.Base.{
  ℕ, ◌≡◌, refl, true, false, Option, none, some, String, List, [], ◌∷◌, ◌==◌, ℕ_eq, List_eq,
  String_eq, if◌then◌else◌,
}
use qfn_pgx.Base.Int.{pos, Int_eq}
use qfn_pgx.Base.Bytes.{Text, codes, has_prefix, trim_space, trim_prefix}
use qfn_pgx.Base.Dict.{lookup, insert}
use qfn_pgx.Proxy.Registry.{Request, prefill}
use qfn_pgx.Proxy.Messages.Stream.{
  ToolCall, Chunk, tool_use, thinking_block, text_block, tool_block, thinking_delta, text_delta,
  input_json_delta, message_start, ping, block_start, block_delta, block_stop, message_delta,
  message_stop,
}
use qfn_pgx.Proxy.Messages.Stream.Loop.{Input, tick, line, relay_events}
use qfn_pgx.Proxy.Messages.Stream.Protocol.{watch}
use qfn_pgx.Proxy.Messages.Stream.Order.{outcome, stream-well_formed}
use qfn_pgx.Proxy.Messages.Stream.Said.{written}
use qfn_pgx.Proxy.Messages.Stream.Content.{upstream_part, stream-content}

abbrev row : Request
row = record {
  id = codes "r1";
  endpoint = "/v1/messages";
  model = "qwen";
  client = "laptop";
  started_at = 5;
  first_token_at = none;
  done_at = none;
  phase = prefill;
  stream = true;
  tokens = 0;
  prompt_tokens = 3;
  status = 0;
  is_aborted = false;
}

abbrev delta : Text → Text → List ToolCall → String → Option Chunk
delta content reasoning tool_calls finish_reason = some (record {
  choices =
      record {
        content = content;
        reasoning = reasoning;
        tool_calls = tool_calls;
        finish_reason = finish_reason;
      }
      ∷ [];
  usage = none;
  failure = none;
})

abbrev fragment : ℕ → String → String → String → ToolCall
fragment index id name arguments = record {
  index = pos index;
  id = id;
  name = name;
  arguments = codes arguments;
}

-- Five payloads.
abbrev five : Text → Option Chunk
five payload =
    if payload == codes "1"
    then delta [] (codes "hm") [] ""
    else if payload == codes "2"
    then delta (codes "Hi") [] [] ""
    else if payload == codes "3"
    then delta [] [] (fragment 0 "call_1" "ls" "{" ∷ []) ""
    else if payload == codes "4"
    then delta [] [] (fragment 0 "" "" "}" ∷ []) "tool_calls"
    else none

abbrev ids : ℕ → String
ids i = "toolu_1"

abbrev stream : List (ℕ × Input)
stream =
    (6, line (codes "data: 1"))
    ∷ (7, tick)
    ∷ (8, line (codes "data: 2"))
    ∷ (9, line (codes "data: 3"))
    ∷ (10, line [])
    ∷ (11, line (codes "data: 4"))
    ∷ (12, line (codes "data: [DONE]"))
    ∷ []

events :
    (relay_events five ids 200 "msg_1" row stream).streamer.out
    ≡ message_start "msg_1" "qwen"
      ∷ ping
      ∷ block_start 0 thinking_block
      ∷ block_delta 0 (thinking_delta (codes "hm"))
      ∷ ping
      ∷ block_stop 0
      ∷ block_start 1 text_block
      ∷ block_delta 1 (text_delta (codes "Hi"))
      ∷ block_stop 1
      ∷ block_start 2 (tool_block "call_1" "ls")
      ∷ block_delta 2 (input_json_delta (codes "{"))
      ∷ block_delta 2 (input_json_delta (codes "}"))
      ∷ block_stop 2
      ∷ message_delta "tool_use" 0 0
      ∷ message_stop
      ∷ []
unfolding relay_events has_prefix trim_space trim_prefix lookup insert
events = refl

-- A fragment that comes after a later block began goes to its own block, which has been stopped.
late_fragment :
    (relay_events five ids 200 "msg_1" row (
      (1, line (codes "data: 3"))
      ∷ (2, line (codes "data: 2"))
      ∷ (3, line (codes "data: 4"))
      ∷ [])).streamer.out
    ≡ message_start "msg_1" "qwen"
      ∷ ping
      ∷ block_start 0 (tool_block "call_1" "ls")
      ∷ block_delta 0 (input_json_delta (codes "{"))
      ∷ block_stop 0
      ∷ block_start 1 text_block
      ∷ block_delta 1 (text_delta (codes "Hi"))
      ∷ block_delta 0 (input_json_delta (codes "}"))
      ∷ []
unfolding relay_events has_prefix trim_space trim_prefix lookup insert
late_fragment = refl

stream-well_formed_example :
    let ss = relay_events five ids 200 "msg_1" row stream in
    outcome ss.progress (watch ss.streamer.out) ≡ true
stream-well_formed_example = stream-well_formed five ids 200 "msg_1" row stream

stream-content_example :
    written tool_use (relay_events five ids 200 "msg_1" row stream).streamer.out
    ≡ upstream_part five tool_use stream
stream-content_example = stream-content five ids 200 tool_use "msg_1" row stream
