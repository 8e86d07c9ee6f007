-- ===== src/Proxy/Messages/Answer.antt =====
-- `relayAnthropicJSON` of internal/proxy/anthropic.go: the engine's whole answer as a message. The answer
-- is given as it is decoded, with zero values where fields are absent; `V` stands for JSON values.
use qfn_pgx.Base.{ℕ, ltb, leb, Option, none, some, String, List, [], ◌∷◌, ◌++◌, map, if◌then◌else◌}
use qfn_pgx.Base.Bytes.{Text, codes}
use qfn_pgx.Proxy.Registry.{Request, done, error}
use qfn_pgx.Proxy.Messages.Stream.Loop.{map_stop_reason}

pub record CallAnswer : Type 0 where
  pub id : String
  pub name : String
  pub arguments : Text

pub record ChoiceAnswer : Type 0 where
  pub content : Text
  pub reasoning : Text
  pub tool_calls : List CallAnswer
  pub finish_reason : String

-- `failure` is the message of the error.
pub record ChatAnswer : Type 0 where
  pub choices : List ChoiceAnswer
  pub prompt_tokens : ℕ
  pub completion_tokens : ℕ
  pub cached_tokens : ℕ
  pub failure : Option Text

pub data Content (V : Type 0) : Type 0 where
  thinking_content text_content : Text → Content V
  tool_content : String → String → V → Content V

pub record Message (V : Type 0) : Type 0 where
  pub id : String
  pub model : String
  pub content : List (Content V)
  pub stop_reason : String
  pub input_tokens : ℕ
  pub output_tokens : ℕ
  pub cached : Option ℕ

-- A message, or the text of the error that is written with the status 502.
pub data Answered (V : Type 0) : Type 0 where
  bad_gateway : Text → Answered V
  message : Message V → Answered V

-- The row of the request, which the code changes in place before it is finished.
unfoldable pub answer_row : ℕ → ℕ → ChatAnswer → Request → Request
answer_row now status a x = record x {
  done_at = some now;
  status = status;
  first_token_at = some x.started_at;
  prompt_tokens = a.prompt_tokens;
  tokens = a.completion_tokens;
  phase = if leb 400 status then error else done;
}

unfoldable pub failure_text : Option Text → Text
failure_text none = codes "upstream error"
failure_text (some []) = codes "upstream error"
failure_text (some (c ∷ t)) = c ∷ t

abbrev reasoning_content : {V : Type 0} → Text → List (Content V)
reasoning_content [] = []
reasoning_content (c ∷ t) = thinking_content (c ∷ t) ∷ []

abbrev said_content : {V : Type 0} → Text → List (Content V)
said_content [] = []
said_content (c ∷ t) = text_content (c ∷ t) ∷ []

abbrev or_empty : {V : Type 0} → V → Option V → V
or_empty e none = e
or_empty e (some v) = v

module _ {V : Type 0} (decode_input : Text → Option V) (empty_object : V) where
  unfoldable pub call_content : CallAnswer → Content V
  call_content tc = tool_content tc.id tc.name (or_empty empty_object (decode_input tc.arguments))

  unfoldable pub contents : ChoiceAnswer → List (Content V)
  unfolding call_content
  contents ch =
      reasoning_content ch.reasoning ++ said_content ch.content ++ map call_content ch.tool_calls

  first_choice : String → String → ChatAnswer → List ChoiceAnswer → Answered V
  unfolding failure_text contents map_stop_reason
  first_choice id model a [] = bad_gateway (failure_text a.failure)
  first_choice id model a (ch ∷ chs) = message (record {
    id = id;
    model = model;
    content = contents ch;
    stop_reason = map_stop_reason ch.finish_reason;
    input_tokens = a.prompt_tokens;
    output_tokens = a.completion_tokens;
    cached = if ltb 0 a.cached_tokens then some a.cached_tokens else none;
  })

  -- What is written, with the id that is drawn and the model of the request.
  unfoldable pub answer_message : String → String → ℕ → ChatAnswer → Answered V
  unfolding first_choice
  answer_message id model status a =
      if leb 400 status
      then bad_gateway (failure_text a.failure)
      else first_choice id model a a.choices
