-- ===== src/Proxy/Messages/Stream.antt =====
-- `translateChunk` and `anthropicStreamer` of internal/proxy/anthropic.go: the chunks of a chat stream,
-- re-emitted as the events of the Messages protocol. `fresh` is a parameter: the id that the random bytes
-- of `shortID` give the block with a number. The code does not look at the result of a write.
pub mod Loop
pub mod Protocol
pub mod Blocks
pub mod Order
pub mod Said
pub mod Chunks
pub mod Content
mod Tests
use qfn_pgx.Base.{
  ℕ, ◌+◌, ◌-◌, Bool, true, false, not, ◌&&◌, ◌||◌, Option, none, some, String, String_eq, List_eq,
  ℕ_eq, ◌==◌, List, [], ◌∷◌, ◌++◌, if◌then◌else◌,
}
use qfn_pgx.Base.Int.{ℤ, Int_eq}
use qfn_pgx.Base.Bytes.{Text}
use qfn_pgx.Base.Dict.{Dict, lookup, insert}
use qfn_pgx.Proxy.Registry.{Request, Phase, decoding, error}

-- A fragment of a tool call in a chunk.
pub record ToolCall : Type 0 where
  pub index : ℤ
  pub id : String
  pub name : String
  pub arguments : Text

-- `finish_reason` is "" where it is null or absent.
pub record Choice : Type 0 where
  pub content : Text
  pub reasoning : Text
  pub tool_calls : List ToolCall
  pub finish_reason : String

-- `usage` is the prompt and the completion tokens, `failure` the message of an error.
pub record Chunk : Type 0 where
  pub choices : List Choice
  pub usage : Option (ℕ × ℕ)
  pub failure : Option Text

pub data Kind : Type 0 where
  thinking text tool_use : Kind

-- A `content_block`.
pub data Block : Type 0 where
  thinking_block text_block : Block
  tool_block : String → String → Block

pub data Delta : Type 0 where
  thinking_delta text_delta input_json_delta : Text → Delta

pub data Event : Type 0 where
  message_start : String → String → Event
  ping : Event
  block_start : ℕ → Block → Event
  block_delta : ℕ → Delta → Event
  block_stop : ℕ → Event
  message_delta : String → ℕ → ℕ → Event
  message_stop : Event
  error_event : Text → Event

-- `anthropicStreamer` with what it has written, the row of the request, and `counted` of the chunk at
-- hand. `opened` is none for "".
pub record Streamer : Type 0 where
  pub idx : ℕ
  pub opened : Option Kind
  pub cur : String
  pub tool : Dict ℤ ℕ
  pub stop : String
  pub tokens_in : ℕ
  pub tokens_out : ℕ
  pub out : List Event
  pub row : Request
  pub counted : Bool

abbrev pub kind_eq : Kind → Kind → Bool
kind_eq thinking thinking = true
kind_eq text text = true
kind_eq tool_use tool_use = true
kind_eq _ _ = false

abbrev pub is_open : Kind → Option Kind → Bool
is_open k none = false
is_open k (some j) = kind_eq k j

abbrev pub kind_of : Block → Kind
kind_of thinking_block = thinking
kind_of text_block = text
kind_of (tool_block id name) = tool_use

unfoldable pub emit : Event → Streamer → Streamer
emit ev s = record s { out = s.out ++ ev ∷ [] }

pub close_opened : Option Kind → Streamer → Streamer
unfolding emit
close_opened none s = s
close_opened (some k) s = record (emit (block_stop (s.idx - 1)) s) { opened = none; cur = "" }

unfoldable pub close_block : Streamer → Streamer
unfolding close_opened
close_block s = close_opened s.opened s

abbrev id_or : String → Block → String
id_or cur (tool_block id name) = id
id_or cur thinking_block = cur
id_or cur text_block = cur

unfoldable pub open_block : Block → Streamer → Streamer
unfolding close_block
open_block b s0 =
    let s = close_block s0 in
    record (emit (block_start s.idx b) s) {
      idx = s.idx + 1;
      opened = some (kind_of b);
      cur = id_or s.cur b;
    }

abbrev pub first_token : ℕ → Option ℕ → Request → Request
first_token now none x = record x { first_token_at = some now; phase = decoding }
first_token now (some t) x = x

-- `markTok`
unfoldable pub mark_tok : ℕ → Streamer → Streamer
mark_tok now s =
    let x = first_token now s.row.first_token_at s.row in
    if s.counted then s else record s { counted = true; row = record x { tokens = x.tokens + 1 } }

-- A delta of the block of its kind, which is opened first.
unfoldable pub add_delta : ℕ → Block → Delta → Streamer → Streamer
unfolding open_block mark_tok
add_delta now b d s0 =
    let s = if is_open (kind_of b) s0.opened then s0 else open_block b s0 in
    mark_tok now (emit (block_delta (s.idx - 1) d) s)

pub add_reasoning : ℕ → Text → Streamer → Streamer
unfolding add_delta
add_reasoning now [] s = s
add_reasoning now (c ∷ t) s = add_delta now thinking_block (thinking_delta (c ∷ t)) s

pub add_content : ℕ → Text → Streamer → Streamer
unfolding add_delta
add_content now [] s = s
add_content now (c ∷ t) s = add_delta now text_block (text_delta (c ∷ t)) s

pub add_arguments : ℕ → ℕ → Text → Streamer → Streamer
unfolding mark_tok emit
add_arguments now block [] s = s
add_arguments now block (c ∷ t) s =
    mark_tok now (emit (block_delta block (input_json_delta (c ∷ t))) s)

-- `firstNonZero`
unfoldable pub first_non_zero : String → String → String
first_non_zero a b = if a == "" then b else a

abbrev pub finished_with : String → String → String
finished_with reason stop = if reason == "" then stop else reason

-- `if ev.Usage != nil`
note_usage : Option (ℕ × ℕ) → Streamer → Streamer
note_usage none s = s
note_usage (some (prompt, completion)) s = record s {
  tokens_in = prompt;
  tokens_out = completion;
  row = record s.row { prompt_tokens = prompt; tokens = completion };
}

module _ (fresh : ℕ → String) where
  -- The block of a fragment: the one of its index, or a new one.
  open_tool : ToolCall → Streamer → Streamer
  unfolding open_block first_non_zero
  open_tool tc s0 =
      let s = open_block (tool_block (first_non_zero tc.id (fresh s0.idx)) tc.name) s0 in
      record s { tool = insert tc.index (s.idx - 1) s.tool }

  call_at : ℕ → ToolCall → Option ℕ → Streamer → Streamer
  unfolding open_tool add_arguments
  call_at now tc none s = let s' = open_tool tc s in add_arguments now (s'.idx - 1) tc.arguments s'
  call_at now tc (some block) s =
      if not (tc.id == "") && not (s.cur == tc.id)
      then (let s' = open_tool tc s in add_arguments now (s'.idx - 1) tc.arguments s')
      else add_arguments now block tc.arguments s

  unfoldable pub tool_call : ℕ → ToolCall → Streamer → Streamer
  unfolding call_at
  tool_call now tc s = call_at now tc (lookup tc.index s.tool) s

  unfoldable pub calls : ℕ → List ToolCall → Streamer → Streamer
  unfolding tool_call
  calls now [] s = s
  calls now (tc ∷ tcs) s = calls now tcs (tool_call now tc s)

  unfoldable pub choice : ℕ → Choice → Streamer → Streamer
  unfolding calls add_reasoning add_content
  choice now ch s0 =
      let s =
        calls now ch.tool_calls (add_content now ch.content (add_reasoning now ch.reasoning s0)) in
      record s { stop = finished_with ch.finish_reason s.stop }

  unfoldable pub choices : ℕ → List Choice → Streamer → Streamer
  unfolding choice
  choices now [] s = s
  choices now (ch ∷ chs) s = choices now chs (choice now ch s)

  translate : ℕ → Option Text → List Choice → Streamer → Streamer
  unfolding choices
  translate now (some message) chs s = record (emit (error_event message) s) {
    row = record s.row { phase = error };
  }
  translate now none chs s = choices now chs (record s { counted = false })

  unfoldable pub translate_chunk : ℕ → Chunk → Streamer → Streamer
  unfolding translate
  translate_chunk now ev s = translate now ev.failure ev.choices s

  unfoldable pub take_chunk : ℕ → Option Chunk → Streamer → Streamer
  unfolding translate_chunk note_usage
  take_chunk now none s = s
  take_chunk now (some ev) s = note_usage ev.usage (translate_chunk now ev s)
