-- ===== src/Proxy/Messages/Request.antt =====
-- `buildOpenAIChat` of internal/proxy/anthropic.go and its helpers: a request of the Messages API as one of
-- the chat API. The request is given as encoding/json decodes it: a raw field is none where it is absent, a
-- message is none where it does not decode. `marshal` (`json.Marshal` of a value) is a parameter.
pub mod Order
pub mod Outputs
mod Tests
use qfn_pgx.Base.{
  ℕ, Bool, true, false, not, ◌&&◌, ◌||◌, Option, none, some, String, String_eq, List_eq, ℕ_eq, ◌==◌,
  List, [], ◌∷◌, ◌++◌, map, if◌then◌else◌,
}
use qfn_pgx.Base.Int.{ℤ}
use qfn_pgx.Base.Bytes.{Text, codes}
use qfn_pgx.Proxy.Messages.Json.{
  Json, null, string, object, Fields, get, as_string, as_object, as_blocks, decode_string, ◌>>=◌,
}

pub record Turn : Type 0 where
  pub role : Text
  pub content : Option Json

pub record Tool : Type 0 where
  pub name : Text
  pub description : Text
  pub input_schema : Option Json

pub record AnthropicReq : Type 0 where
  pub model : String
  pub system : Option Json
  pub messages : List (Option Turn)
  pub max_tokens : Option ℤ
  pub stream : Bool
  pub temperature : Option Text
  pub top_p : Option Text
  pub top_k : Option Json
  pub stop_sequences : List Text
  pub tools : List Tool
  pub tool_choice : Option Json

-- A tool call: its id, the tool's name and the arguments as text.
pub record CallOut : Type 0 where
  pub id : Text
  pub name : Text
  pub arguments : Text

-- A message of the chat API: with a text, with an image, a tool's output, and an assistant's turn whose content may
-- be null.
pub data ChatMessage : Type 0 where
  said shown : Text → Text → ChatMessage
  tool_output : Text → Text → ChatMessage
  assistant : Option Text → List CallOut → ChatMessage

pub data ToolChoice : Type 0 where
  choice_word choice_function : Text → ToolChoice

pub record Chat : Type 0 where
  pub model : String
  pub messages : List ChatMessage
  pub max_tokens : Option ℤ
  pub temperature : Option Text
  pub top_p : Option Text
  pub top_k : Option Json
  pub stop : List Text
  pub tools : List Tool
  pub tool_choice : Option ToolChoice
  pub stream : Bool

-- `anthropicImageURL`
unfoldable pub image_url : Fields → Text
unfolding get
image_url b =
    let src = as_object (get "source" b) in
    let media_type = as_string (get "media_type" src) in
    let data' = as_string (get "data" src) in
    if not (as_string (get "url" src) == [])
    then as_string (get "url" src)
    else if not (media_type == []) && not (data' == [])
    then codes "data:" ++ (media_type ++ (codes ";base64," ++ data'))
    else []

-- The texts of a list of blocks, a line each, after what is written.
unfoldable pub flatten_blocks : Text → List Fields → Text
unfolding get
flatten_blocks sb [] = sb
flatten_blocks sb (b ∷ bs) =
    let s = as_string (get "text" b) in
    flatten_blocks
      (if as_string (get "type" b) == codes "text" && not (s == [])
        then (if sb == [] then s else sb ++ (codes "\n" ++ s))
        else sb)
      bs

abbrev blocks_text : Option (List Fields) → Text
blocks_text none = []
blocks_text (some bs) = flatten_blocks [] bs

-- `flattenRaw`
unfoldable pub flatten_raw : Json → Text
unfolding flatten_blocks as_blocks
flatten_raw v = blocks_text (as_blocks v)

abbrev string_or : Json → Option Text → Text
string_or v (some s) = s
string_or v none = flatten_raw v

-- `flattenText`
unfoldable pub flatten_text : Option Json → Text
unfolding flatten_raw
flatten_text none = []
flatten_text (some v) = string_or v (decode_string v)

-- The content of a tool's result.
unfoldable pub result_text : Json → Text
unfolding flatten_raw
result_text (string s) = s
result_text v = flatten_raw v

-- A turn while its blocks are read: the messages so far, and the turn's text, calls and outputs.
pub record Gathered : Type 0 where
  pub msgs : List ChatMessage
  pub text : Text
  pub tool_calls : List CallOut
  pub pre_msgs : List ChatMessage

abbrev pub is_empty {ℓ} : {A : Type ℓ} → List A → Bool
is_empty [] = true
is_empty (x ∷ xs) = false

-- What a turn ends with.
unfoldable pub close_turn : Text → Gathered → List ChatMessage
close_turn role g =
    let msgs = g.msgs ++ g.pre_msgs in
    if role == codes "assistant"
    then (if not (is_empty g.text)
        then msgs ++ assistant (some g.text) g.tool_calls ∷ []
        else if not (is_empty g.tool_calls)
        then msgs ++ assistant none g.tool_calls ∷ []
        else msgs)
    else if is_empty g.text && not (is_empty g.pre_msgs)
    then msgs
    else msgs ++ said role g.text ∷ []

abbrev pub plain_text : Option Json → Text
plain_text (some (string s)) = s
plain_text _ = []

-- A content as blocks: none where it does not decode as them.
unfoldable pub content_blocks : Option Json → Option (List Fields)
unfolding as_blocks
content_blocks none = none
content_blocks (some v) = as_blocks v

abbrev word_of : Text → Text → Option ToolChoice
word_of type name =
    if type == codes "auto"
    then some (choice_word (codes "auto"))
    else if type == codes "any"
    then some (choice_word (codes "required"))
    else if type == codes "tool"
    then some (choice_function name)
    else if type == codes "none"
    then some (choice_word (codes "none"))
    else none

-- The fields `type` and `name` must decode as strings.
object_choice : Json → Json → Option ToolChoice
object_choice type name = do t ← decode_string type; n ← decode_string name; word_of t n

-- `tool_choice`: a string as it is, and the objects of the Messages API.
unfoldable pub choice_of : Option Json → Option ToolChoice
unfolding get object_choice
choice_of none = none
choice_of (some (string s)) = some (choice_word s)
choice_of (some null) = some (choice_word [])
choice_of (some (object fs)) = object_choice (get "type" fs) (get "name" fs)
choice_of (some v) = none

module _ (marshal : Json → Text) where
  add_image : Text → Text → Gathered → Gathered
  add_image role url g = if url == [] then g else record g { msgs = g.msgs ++ shown role url ∷ [] }

  unfoldable pub call_out : Fields → CallOut
  unfolding get
  call_out b = record {
    id = as_string (get "id" b);
    name = as_string (get "name" b);
    arguments = marshal (get "input" b);
  }

  -- The `switch` on a block's type; none for the error of a type that is not supported.
  unfoldable pub block : Text → Fields → Gathered → Option Gathered
  unfolding get add_image image_url call_out result_text
  block role b g =
      let t = as_string (get "type" b) in
      if t == codes "text"
      then some (record g { text = g.text ++ as_string (get "text" b) })
      else if t == codes "thinking" || t == codes "redacted_thinking"
      then some g
      else if t == codes "image"
      then some (add_image role (image_url b) g)
      else if t == codes "tool_use"
      then some (record g { tool_calls = g.tool_calls ++ call_out b ∷ [] })
      else if t == codes "tool_result"
      then some (record g {
        pre_msgs =
            g.pre_msgs
            ++ tool_output (as_string (get "tool_use_id" b)) (result_text (get "content" b)) ∷ [];
      })
      else none

  unfoldable pub blocks : Text → List Fields → Gathered → Option Gathered
  unfolding block
  blocks role [] g = some g
  blocks role (b ∷ bs) g = do g' ← block role b g; blocks role bs g'

  -- The blocks of a content: a list of blocks, or a text, which is "" where it is neither.
  pub turn_blocks :
      Text → Option Json → Option (List Fields) → List ChatMessage → Option (List ChatMessage)
  unfolding blocks close_turn
  turn_blocks role content none msgs = some (msgs ++ said role (plain_text content) ∷ [])
  turn_blocks role content (some bs) msgs = do
    g ← blocks role bs (record { msgs = msgs; text = []; tool_calls = []; pre_msgs = [] })
    some (close_turn role g)

  unfoldable pub turn : Option Turn → List ChatMessage → Option (List ChatMessage)
  unfolding turn_blocks content_blocks
  turn none msgs = none
  turn (some m) msgs = turn_blocks m.role m.content (content_blocks m.content) msgs

  unfoldable pub turns : List (Option Turn) → List ChatMessage → Option (List ChatMessage)
  unfolding turn
  turns [] msgs = some msgs
  turns (m ∷ ms) msgs = do msgs' ← turn m msgs; turns ms msgs'

  -- The messages of the chat.
  unfoldable pub chat_messages : AnthropicReq → Option (List ChatMessage)
  unfolding turns flatten_text
  chat_messages a =
      let sys = flatten_text a.system in
      turns a.messages (if is_empty sys then [] else said (codes "system") sys ∷ [])

  -- `buildOpenAIChat`: none for an error.
  unfoldable pub build_openai_chat : AnthropicReq → Option Chat
  unfolding chat_messages choice_of
  build_openai_chat a = do
    msgs ← chat_messages a
    some (record {
      model = if a.model == "" then "qwen3.8-flash-next" else a.model;
      messages = msgs;
      max_tokens = a.max_tokens;
      temperature = a.temperature;
      top_p = a.top_p;
      top_k = a.top_k;
      stop = a.stop_sequences;
      tools = a.tools;
      tool_choice = choice_of a.tool_choice;
      stream = a.stream;
    })
