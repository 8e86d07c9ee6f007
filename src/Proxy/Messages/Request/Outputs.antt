-- ===== src/Proxy/Messages/Request/Outputs.antt =====
-- Which requests are translated, and what happens to the outputs of tools in them.
use qfn_pgx.Base.{
  ◌≡◌, refl, ◌∙◌, ap, sym, arith, Bool, true, false, not, ◌&&◌, Option, none, some, String_eq,
  List_eq, ℕ_eq, List, [], ◌∷◌, ◌++◌, all, if◌then◌else◌, Bool-cases, inl, inr,
}
use mathlib.Core.List.{append-nil, append_assoc}
use qfn_pgx.Base.Bytes.{Text, codes}
use qfn_pgx.Proxy.Messages.Json.{
  Json, null, boolean, number, string, array, object, Items, no_items, item, Fields, maps_of,
  as_blocks, ◌>>=◌,
}
use qfn_pgx.Proxy.Messages.Request.{
  Turn, AnthropicReq, ChatMessage, said, shown, tool_output, assistant, CallOut, Chat, image_url,
  flatten_text, is_empty, plain_text, content_blocks, turn_blocks, turn, turns, chat_messages,
  build_openai_chat,
}
use qfn_pgx.Proxy.Messages.Request.Order.{
  Sort, text_block, thinking_block, image_block, use_block, result_block, unknown_block, sort,
  image_of, output_of, shown_at, images, outputs, known, texts, calls, own, turn_exact,
}

-- The output of every tool, in order.
unfoldable pub tool_outputs : List ChatMessage → List ChatMessage
tool_outputs [] = []
tool_outputs (tool_output id t ∷ ms) = tool_output id t ∷ tool_outputs ms
tool_outputs (said role t ∷ ms) = tool_outputs ms
tool_outputs (shown role url ∷ ms) = tool_outputs ms
tool_outputs (assistant t cs ∷ ms) = tool_outputs ms

abbrev blocks_outputs : Option (List Fields) → List ChatMessage
blocks_outputs none = []
blocks_outputs (some bs) = outputs bs

abbrev blocks_known : Option (List Fields) → Bool
blocks_known none = true
blocks_known (some bs) = known bs

-- The blocks of a turn, as the code decodes them, give these outputs.
abbrev turn_outputs : Option Turn → List ChatMessage
turn_outputs none = []
turn_outputs (some m) = blocks_outputs (content_blocks m.content)

unfoldable gathered_outputs : List (Option Turn) → List ChatMessage
gathered_outputs [] = []
gathered_outputs (m ∷ ms) = turn_outputs m ++ gathered_outputs ms

abbrev pub outputs_after : Option (List ChatMessage) → Option (List ChatMessage)
outputs_after none = none
outputs_after (some ms) = some (tool_outputs ms)

-- A turn that decodes, and whose blocks are of known types.
abbrev turn_known : Option Turn → Bool
turn_known none = false
turn_known (some m) = blocks_known (content_blocks m.content)

tool_outputs-append :
    (xs ys : List ChatMessage) → tool_outputs (xs ++ ys) ≡ tool_outputs xs ++ tool_outputs ys
unfolding tool_outputs
tool_outputs-append [] ys = refl
tool_outputs-append (tool_output id t ∷ xs) ys =
    ap (λ ms. tool_output id t ∷ ms) (tool_outputs-append xs ys)
tool_outputs-append (said role t ∷ xs) ys = tool_outputs-append xs ys
tool_outputs-append (shown role url ∷ xs) ys = tool_outputs-append xs ys
tool_outputs-append (assistant t cs ∷ xs) ys = tool_outputs-append xs ys

shown_at-no_outputs : (role url : Text) → tool_outputs (shown_at role url) ≡ []
unfolding tool_outputs
shown_at-no_outputs role [] = refl
shown_at-no_outputs role (c ∷ url) = refl

image_of-no_outputs : (role : Text) (k : Sort) (b : Fields) → tool_outputs (image_of role k b) ≡ []
unfolding tool_outputs
image_of-no_outputs role text_block b = refl
image_of-no_outputs role thinking_block b = refl
image_of-no_outputs role image_block b = shown_at-no_outputs role (image_url b)
image_of-no_outputs role use_block b = refl
image_of-no_outputs role result_block b = refl
image_of-no_outputs role unknown_block b = refl

images-no_outputs : (role : Text) (bs : List Fields) → tool_outputs (images role bs) ≡ []
unfolding images tool_outputs
images-no_outputs role [] = refl
images-no_outputs role (b ∷ bs) =
    tool_outputs-append (image_of role (sort b) b) (images role bs)
    ∙ rw (image_of-no_outputs role (sort b) b) (images-no_outputs role bs)

output_of-outputs : (k : Sort) (b : Fields) → tool_outputs (output_of k b) ≡ output_of k b
unfolding tool_outputs
output_of-outputs text_block b = refl
output_of-outputs thinking_block b = refl
output_of-outputs image_block b = refl
output_of-outputs use_block b = refl
output_of-outputs result_block b = refl
output_of-outputs unknown_block b = refl

tool_outputs-outputs : (bs : List Fields) → tool_outputs (outputs bs) ≡ outputs bs
unfolding outputs tool_outputs
tool_outputs-outputs [] = refl
tool_outputs-outputs (b ∷ bs) =
    tool_outputs-append (output_of (sort b) b) (outputs bs)
    ∙ rw (output_of-outputs (sort b) b, tool_outputs-outputs bs) refl

tool_outputs-append4 :
    (a b c d : List ChatMessage)
    → tool_outputs (((a ++ b) ++ c) ++ d)
      ≡ ((tool_outputs a ++ tool_outputs b) ++ tool_outputs c) ++ tool_outputs d
tool_outputs-append4 a b c d =
    rw
      (
        tool_outputs-append ((a ++ b) ++ c) d,
        tool_outputs-append (a ++ b) c,
        tool_outputs-append a b,
      )
      refl

abbrev pub chat_outputs : Option Chat → Option (List ChatMessage)
chat_outputs none = none
chat_outputs (some c) = some (tool_outputs c.messages)

first-no_outputs :
    (sys : Text) → tool_outputs (if is_empty sys then [] else said (codes "system") sys ∷ []) ≡ []
unfolding tool_outputs
first-no_outputs [] = refl
first-no_outputs (c ∷ sys) = refl

own-no_outputs :
    (role t : Text) (cs : List CallOut) (told : Bool) → tool_outputs (own role t cs told) ≡ []
unfolding tool_outputs
own-no_outputs role t cs told = ground arith

module _ (marshal : Json → Text) where
  turn_blocks-outputs :
      (role : Text) (content : Option Json) (o : Option (List Fields)) (msgs : List ChatMessage)
      → outputs_after (turn_blocks marshal role content o msgs)
        ≡ (if blocks_known o then some (tool_outputs msgs ++ blocks_outputs o) else none)
  unfolding turn_blocks tool_outputs
  turn_blocks-outputs role content none msgs =
      ap some (tool_outputs-append msgs (said role (plain_text content) ∷ []))
  turn_blocks-outputs role content (some bs) msgs =
      rw (turn_exact marshal role content bs msgs) (elim (Bool-cases (known bs)) [
        | inl p ↦
            let end = own role (texts bs) (calls marshal bs) (not (is_empty (outputs bs))) in
            rw p (
              ap some (
                tool_outputs-append4 msgs (images role bs) (outputs bs) end
                ∙ rw
                    (
                      own-no_outputs,
                      tool_outputs-outputs,
                      images-no_outputs,
                      append-nil (tool_outputs msgs),
                      append-nil (tool_outputs msgs ++ outputs bs),
                    )
                    refl))
        | inr p ↦ rw p refl
      ])

  turn-outputs :
      (m : Option Turn) (msgs : List ChatMessage)
      → outputs_after (turn marshal m msgs)
        ≡ (if turn_known m then some (tool_outputs msgs ++ turn_outputs m) else none)
  unfolding turn
  turn-outputs none msgs = refl
  turn-outputs (some m) msgs = turn_blocks-outputs m.role m.content (content_blocks m.content) msgs

  then_turns-outputs :
      (ms : List (Option Turn)) (msgs os : List ChatMessage) (known' : Bool)
      (o : Option (List ChatMessage))
      → ((out : List ChatMessage)
          → outputs_after (turns marshal ms out)
            ≡ (if all turn_known ms then some (tool_outputs out ++ gathered_outputs ms) else none))
      → outputs_after o ≡ (if known' then some (tool_outputs msgs ++ os) else none)
      → outputs_after (o >>= turns marshal ms) ≡ (
          if known' && all turn_known ms
          then some (tool_outputs msgs ++ (os ++ gathered_outputs ms))
          else none)
  then_turns-outputs ms msgs os known' none next h = ground (arith, h)
  then_turns-outputs ms msgs os known' (some out) next h =
      ground (arith, h, next out, append_assoc (tool_outputs msgs) os (gathered_outputs ms))

  turns-outputs :
      (ms : List (Option Turn)) (msgs : List ChatMessage)
      → outputs_after (turns marshal ms msgs)
        ≡ (if all turn_known ms then some (tool_outputs msgs ++ gathered_outputs ms) else none)
  unfolding turns gathered_outputs
  turns-outputs [] msgs = ap some (sym (append-nil (tool_outputs msgs)))
  turns-outputs (m ∷ ms) msgs =
      then_turns-outputs ms msgs (turn_outputs m) (turn_known m) (turn marshal m msgs)
        (turns-outputs ms) (turn-outputs m msgs)

  chat_outputs-build :
      (a : AnthropicReq) (o : Option (List ChatMessage))
      → chat_messages marshal a ≡ o
      → chat_outputs (build_openai_chat marshal a) ≡ outputs_after o
  unfolding build_openai_chat
  chat_outputs-build a none h = rw h refl
  chat_outputs-build a (some ms) h = rw h refl

  gathered-build :
      (a : AnthropicReq)
      → chat_outputs (build_openai_chat marshal a)
        ≡ (if all turn_known a.messages then some (gathered_outputs a.messages) else none)
  unfolding chat_messages
  gathered-build a =
      chat_outputs-build a (chat_messages marshal a) refl
      ∙ turns-outputs a.messages (
          if is_empty (flatten_text a.system)
          then []
          else said (codes "system") (flatten_text a.system) ∷ [])
      ∙ rw (first-no_outputs (flatten_text a.system)) refl

-- The objects among the elements of an array, whatever the others are.
unfoldable pub objects : Items → List Fields
objects no_items = []
objects (item (object fs) vs) = fs ∷ objects vs
objects (item v vs) = objects vs

unfoldable pub only_objects : Items → Bool
only_objects no_items = true
only_objects (item (object fs) vs) = only_objects vs
only_objects (item v vs) = false

abbrev pub parts : Option Json → List Fields
parts (some (array vs)) = objects vs
parts _ = []

abbrev pub plain_or_objects : Option Json → Bool
plain_or_objects (some (array vs)) = only_objects vs
plain_or_objects _ = true

-- A message whose content, where it is an array, holds only objects.
abbrev pub turn_plain : Option Turn → Bool
turn_plain none = true
turn_plain (some m) = plain_or_objects m.content

-- The results of tools that a message carries, read off its JSON.
abbrev pub carried : Option Turn → List ChatMessage
carried none = []
carried (some m) = outputs (parts m.content)

unfoldable pub sent_outputs : List (Option Turn) → List ChatMessage
sent_outputs [] = []
sent_outputs (m ∷ ms) = carried m ++ sent_outputs ms

-- A message that decodes, and whose parts are of known types.
abbrev pub is_known : Option Turn → Bool
is_known none = false
is_known (some m) = known (parts m.content)

maps_of-objects : (vs : Items) → only_objects vs ≡ true → maps_of vs ≡ some (objects vs)
unfolding maps_of only_objects objects
maps_of-objects no_items h = refl
maps_of-objects (item null vs) h = cc
maps_of-objects (item (boolean b) vs) h = cc
maps_of-objects (item (number t) vs) h = cc
maps_of-objects (item (string t) vs) h = cc
maps_of-objects (item (array ws) vs) h = cc
maps_of-objects (item (object fs) vs) h = rw (maps_of-objects vs h) refl

-- The code's decoding of a content gives its parts.
decoded_parts :
    (c : Option Json)
    → plain_or_objects c ≡ true
    → (blocks_outputs (content_blocks c) ≡ outputs (parts c))
      × (blocks_known (content_blocks c) ≡ known (parts c))
unfolding content_blocks as_blocks outputs known
decoded_parts none h = (refl, refl)
decoded_parts (some null) h = (refl, refl)
decoded_parts (some (boolean b)) h = (refl, refl)
decoded_parts (some (number t)) h = (refl, refl)
decoded_parts (some (string t)) h = (refl, refl)
decoded_parts (some (array vs)) h = rw (maps_of-objects vs h) (refl, refl)
decoded_parts (some (object fs)) h = (refl, refl)

turn_parts :
    (m : Option Turn)
    → turn_plain m ≡ true
    → (turn_outputs m ≡ carried m) × (turn_known m ≡ is_known m)
turn_parts none h = (refl, refl)
turn_parts (some m) h = decoded_parts m.content h

all_parts :
    (ms : List (Option Turn))
    → all turn_plain ms ≡ true
    → (gathered_outputs ms ≡ sent_outputs ms) × (all turn_known ms ≡ all is_known ms)
unfolding gathered_outputs sent_outputs
all_parts [] h = (refl, refl)
all_parts (m ∷ ms) h =
    let one = turn_parts m (ground (arith, h)) in
    let rest = all_parts ms (ground (arith, h)) in
    ((λ i. one.0 i ++ rest.0 i), (λ i. one.1 i && rest.1 i))

pub outputs-build :
    (marshal : Json → Text) (a : AnthropicReq)
    → all turn_plain a.messages ≡ true
    → chat_outputs (build_openai_chat marshal a)
      ≡ (if all is_known a.messages then some (sent_outputs a.messages) else none)
outputs-build marshal a h =
    let read = all_parts a.messages h in gathered-build marshal a ∙ rw (read.0, read.1) refl
