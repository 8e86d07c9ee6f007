-- ===== src/Proxy/Messages/Request/Order.antt =====
-- What a turn becomes, without the loop that gathers it: its images, then the outputs of its tools, then
-- its own message.
use qfn_pgx.Base.{
  ◌≡◌, refl, ap, sym, Bool, true, false, not, ◌&&◌, ◌||◌, Option, none, some, String_eq, List_eq,
  ℕ_eq, ◌==◌, List, [], ◌∷◌, ◌++◌, if◌then◌else◌, Bool-cases, inl, inr,
}
use mathlib.Core.List.{append-nil, append_assoc}
use qfn_pgx.Base.Bytes.{Text, codes}
use qfn_pgx.Proxy.Messages.Json.{Json, Fields, get, as_string}
use qfn_pgx.Proxy.Messages.Request.{
  ChatMessage, said, shown, tool_output, assistant, CallOut, image_url, result_text, Gathered,
  add_image, call_out, block, blocks, is_empty, close_turn, turn_blocks,
}

-- The types of blocks that the translation knows.
pub data Sort : Type 0 where
  text_block thinking_block image_block use_block result_block unknown_block : Sort

abbrev pub sort_of : Text → Sort
sort_of t =
    if t == codes "text"
    then text_block
    else if t == codes "thinking" || t == codes "redacted_thinking"
    then thinking_block
    else if t == codes "image"
    then image_block
    else if t == codes "tool_use"
    then use_block
    else if t == codes "tool_result"
    then result_block
    else unknown_block

abbrev pub sort : Fields → Sort
sort b = sort_of (as_string (get "type" b))

abbrev pub is_known : Sort → Bool
is_known unknown_block = false
is_known _ = true

abbrev pub shown_at : Text → Text → List ChatMessage
shown_at role [] = []
shown_at role (c ∷ url) = shown role (c ∷ url) ∷ []

abbrev pub image_of : Text → Sort → Fields → List ChatMessage
image_of role image_block b = shown_at role (image_url b)
image_of role _ b = []

abbrev pub text_of : Sort → Fields → Text
text_of text_block b = as_string (get "text" b)
text_of _ b = []

abbrev pub output_of : Sort → Fields → List ChatMessage
output_of result_block b =
    tool_output (as_string (get "tool_use_id" b)) (result_text (get "content" b)) ∷ []
output_of _ b = []

-- What the blocks of a turn hold, each kind in order.
unfoldable pub images : Text → List Fields → List ChatMessage
images role [] = []
images role (b ∷ bs) = image_of role (sort b) b ++ images role bs

unfoldable pub texts : List Fields → Text
texts [] = []
texts (b ∷ bs) = text_of (sort b) b ++ texts bs

unfoldable pub outputs : List Fields → List ChatMessage
outputs [] = []
outputs (b ∷ bs) = output_of (sort b) b ++ outputs bs

unfoldable pub known : List Fields → Bool
known [] = true
known (b ∷ bs) = is_known (sort b) && known bs

-- The turn's own message, none for one that has nothing more to say.
abbrev pub own : Text → Text → List CallOut → Bool → List ChatMessage
own role t cs told =
    if role == codes "assistant"
    then (if not (is_empty t)
        then assistant (some t) cs ∷ []
        else if not (is_empty cs)
        then assistant none cs ∷ []
        else [])
    else if is_empty t && told
    then []
    else said role t ∷ []

-- A turn with more blocks.
abbrev gathered : List ChatMessage → Text → List CallOut → List ChatMessage → Gathered → Gathered
gathered shown' said' called told g = record {
  msgs = g.msgs ++ shown';
  text = g.text ++ said';
  tool_calls = g.tool_calls ++ called;
  pre_msgs = g.pre_msgs ++ told;
}

gathered-twice :
    (a c : List ChatMessage) (t u : Text) (x y : List CallOut) (o v : List ChatMessage)
    (g : Gathered)
    → gathered c u y v (gathered a t x o g) ≡ gathered (a ++ c) (t ++ u) (x ++ y) (o ++ v) g
gathered-twice a c t u x y o v g =
    rw
      (
        append_assoc g.msgs a c,
        append_assoc g.text t u,
        append_assoc g.tool_calls x y,
        append_assoc g.pre_msgs o v,
      )
      refl

gathered-nothing : (g : Gathered) → gathered [] [] [] [] g ≡ g
gathered-nothing g =
    rw (append-nil g.msgs, append-nil g.text, append-nil g.tool_calls, append-nil g.pre_msgs) refl

module _ (marshal : Json → Text) where
  abbrev pub call_of : Sort → Fields → List CallOut
  call_of use_block b = call_out marshal b ∷ []
  call_of _ b = []

  unfoldable pub calls : List Fields → List CallOut
  calls [] = []
  calls (b ∷ bs) = call_of (sort b) b ++ calls bs

  abbrev gather_one : Text → Sort → Fields → Gathered → Option Gathered
  gather_one role k b g =
      if is_known k
      then some (gathered (image_of role k b) (text_of k b) (call_of k b) (output_of k b) g)
      else none

  add_image-exact :
      (role url : Text) (g : Gathered)
      → add_image marshal role url g ≡ record g { msgs = g.msgs ++ shown_at role url }
  unfolding add_image
  add_image-exact role [] g = rw (append-nil g.msgs) refl
  add_image-exact role (c ∷ url) g = refl

  block_exact :
      (role : Text) (b : Fields) (g : Gathered)
      → block marshal role b g ≡ gather_one role (sort b) b g
  unfolding block
  block_exact role b g =
      let t = as_string (get "type" b) in
      elim (Bool-cases (t == codes "text")) [
        | inl p ↦ rw (p, append-nil g.msgs, append-nil g.tool_calls, append-nil g.pre_msgs) refl
        | inr p ↦ elim (Bool-cases (t == codes "thinking" || t == codes "redacted_thinking")) [
          | inl q ↦
              rw
                (
                  p,
                  q,
                  append-nil g.msgs,
                  append-nil g.text,
                  append-nil g.tool_calls,
                  append-nil g.pre_msgs,
                )
                refl
          | inr q ↦ elim (Bool-cases (t == codes "image")) [
            | inl i ↦
                rw
                  (
                    p,
                    q,
                    i,
                    add_image-exact,
                    append-nil g.text,
                    append-nil g.tool_calls,
                    append-nil g.pre_msgs,
                  )
                  refl
            | inr i ↦ elim (Bool-cases (t == codes "tool_use")) [
              | inl u ↦
                  rw (p, q, i, u, append-nil g.msgs, append-nil g.text, append-nil g.pre_msgs) refl
              | inr u ↦ elim (Bool-cases (t == codes "tool_result")) [
                | inl r ↦
                    rw
                      (p, q, i, u, r, append-nil g.msgs, append-nil g.text, append-nil g.tool_calls)
                      refl
                | inr r ↦ rw (p, q, i, u, r) refl
              ]
            ]
          ]
        ]
      ]

  blocks_exact :
      (role : Text) (bs : List Fields) (g : Gathered)
      → blocks marshal role bs g ≡ (
          if known bs
          then some (gathered (images role bs) (texts bs) (calls bs) (outputs bs) g)
          else none)
  unfolding blocks known images texts calls outputs
  blocks_exact role [] g = ap some (sym (gathered-nothing g))
  blocks_exact role (b ∷ bs) g = rw (block_exact role b g) (elim (Bool-cases (is_known (sort b))) [
    | inl p ↦ rw (p, blocks_exact role bs, gathered-twice) refl
    | inr p ↦ rw p refl
  ])

  close_turn-own :
      (role : Text) (g : Gathered)
      → close_turn role g
        ≡ (g.msgs ++ g.pre_msgs) ++ own role g.text g.tool_calls (not (is_empty g.pre_msgs))
  unfolding close_turn
  close_turn-own role g = elim (Bool-cases (role == codes "assistant")) [
    | inl p ↦ elim (Bool-cases (is_empty g.text)) [
      | inl q ↦ elim (Bool-cases (is_empty g.tool_calls)) [
        | inl u ↦ rw (p, q, u, append-nil (g.msgs ++ g.pre_msgs)) refl
        | inr u ↦ rw (p, q, u) refl
      ]
      | inr q ↦ rw (p, q) refl
    ]
    | inr p ↦ elim (Bool-cases (is_empty g.text && not (is_empty g.pre_msgs))) [
      | inl q ↦ rw (p, q, append-nil (g.msgs ++ g.pre_msgs)) refl
      | inr q ↦ rw (p, q) refl
    ]
  ]

  -- A turn of blocks becomes exactly its images, then the outputs of its tools, then its own message with
  -- the texts joined and, for the assistant, the tool calls; it is refused just where a block's type is not
  -- known. So an image comes before the tool outputs of the same turn.
  pub turn_exact :
      (role : Text) (content : Option Json) (bs : List Fields) (msgs : List ChatMessage)
      → turn_blocks marshal role content (some bs) msgs ≡ (
          if known bs
          then some (
              ((msgs ++ images role bs) ++ outputs bs)
              ++ own role (texts bs) (calls bs) (not (is_empty (outputs bs))))
          else none)
  unfolding turn_blocks close_turn
  turn_exact role content bs msgs = rw blocks_exact (elim (Bool-cases (known bs)) [
    | inl p ↦ rw p (
        ap some (
          close_turn-own role (
            gathered (images role bs) (texts bs) (calls bs) (outputs bs)
              (record { msgs = msgs; text = []; tool_calls = []; pre_msgs = [] }))))
    | inr p ↦ rw p refl
  ])
