-- ===== src/Proxy/Messages/Request/Tests.antt =====
-- A conversation with a tool call, its result and an image.
use qfn_pgx.Base.{
  ◌≡◌, refl, true, not, Option, none, some, String, String_eq, List, [], ◌∷◌, ◌++◌, all, List_eq,
  ℕ_eq, if◌then◌else◌,
}
use qfn_pgx.Base.Bytes.{Text, codes}
use qfn_pgx.Proxy.Messages.Json.{
  Json, null, string, array, object, Items, no_items, item, Fields, no_fields, field,
}
use qfn_pgx.Proxy.Messages.Request.{
  Turn, AnthropicReq, Chat, ChatMessage, said, shown, tool_output, assistant, is_empty, turn_blocks,
  build_openai_chat, choice_of, choice_word,
}
use qfn_pgx.Proxy.Messages.Request.Order.{images, texts, outputs, known, calls, own, turn_exact}
use qfn_pgx.Proxy.Messages.Request.Outputs.{
  only_objects, chat_outputs, is_known, sent_outputs, outputs-build,
}

abbrev text_field : String → String → Fields → Fields
text_field k s fs = field k (string (codes s)) fs

abbrev question : Fields
question = text_field "type" "text" (text_field "text" "ls?" no_fields)

abbrev tool_use : Fields
tool_use = text_field "type" "tool_use" (text_field "id" "t1" (text_field "name" "ls" no_fields))

abbrev result : Fields
result =
    text_field "type" "tool_result"
      (text_field "tool_use_id" "t1" (text_field "content" "a.txt" no_fields))

abbrev picture : Fields
picture =
    text_field "type" "image" (field "source" (object (text_field "url" "u" no_fields)) no_fields)

abbrev blocks_of : List Fields → Items
blocks_of [] = no_items
blocks_of (b ∷ bs) = item (object b) (blocks_of bs)

abbrev says : String → List Fields → Option Turn
says role bs = some (record { role = codes role; content = some (array (blocks_of bs)) })

abbrev request : List (Option Turn) → AnthropicReq
request messages = record {
  model = "";
  system = none;
  messages = messages;
  max_tokens = none;
  stream = true;
  temperature = none;
  top_p = none;
  top_k = none;
  stop_sequences = [];
  tools = [];
  tool_choice = none;
}

abbrev empty_input : Json → Text
empty_input v = codes "{}"

abbrev talk : List (Option Turn)
talk =
    says "user" (question ∷ []) ∷ says "assistant" (tool_use ∷ []) ∷ says "user" (result ∷ []) ∷ []

abbrev messages_of : Option Chat → List ChatMessage
messages_of none = []
messages_of (some c) = c.messages

translated :
    messages_of (build_openai_chat empty_input (request talk))
    ≡ said (codes "user") (codes "ls?")
      ∷ assistant none (record { id = codes "t1"; name = codes "ls"; arguments = codes "{}" } ∷ [])
      ∷ tool_output (codes "t1") (codes "a.txt")
      ∷ []
unfolding build_openai_chat
translated = refl

-- The image of a turn comes before the output of its tool.
image_first :
    messages_of (build_openai_chat empty_input (request (says "user" (result ∷ picture ∷ []) ∷ [])))
    ≡ shown (codes "user") (codes "u") ∷ tool_output (codes "t1") (codes "a.txt") ∷ []
unfolding build_openai_chat
image_first = refl

-- A turn that is an image alone is followed by an empty message.
empty_after_image :
    messages_of (build_openai_chat empty_input (request (says "user" (picture ∷ []) ∷ [])))
    ≡ shown (codes "user") (codes "u") ∷ said (codes "user") [] ∷ []
unfolding build_openai_chat
empty_after_image = refl

-- A null tool choice becomes an empty word.
null_choice : choice_of (some null) ≡ some (choice_word [])
unfolding choice_of
null_choice = refl

turn_exact_example :
    turn_blocks empty_input (codes "user") none (some (result ∷ picture ∷ [])) [] ≡ (
      if known (result ∷ picture ∷ [])
      then some (
          (([] ++ images (codes "user") (result ∷ picture ∷ [])) ++ outputs (result ∷ picture ∷ []))
          ++ own
              (codes "user")
              (texts (result ∷ picture ∷ []))
              (calls empty_input (result ∷ picture ∷ []))
              (not (is_empty (outputs (result ∷ picture ∷ [])))))
      else none)
turn_exact_example = turn_exact empty_input (codes "user") none (result ∷ picture ∷ []) []

outputs-build_example :
    chat_outputs (build_openai_chat empty_input (request talk))
    ≡ (if all is_known talk then some (sent_outputs talk) else none)
unfolding only_objects
outputs-build_example = outputs-build empty_input (request talk) refl
