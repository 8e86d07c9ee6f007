-- ===== src/Proxy/Messages/Stream/Chunks.antt =====
-- What a chunk adds to what the events say of a kind.
use qfn_pgx.Base.{
  ℕ, ◌-◌, ◌≡◌, refl, ◌∙◌, ap, subst, false, not, ◌&&◌, Option, none, some, String, List, [], ◌∷◌,
  ◌++◌, arith, Bool-cases, inl, inr, ◌==◌, ℕ_eq, List_eq, String_eq,
}
use qfn_pgx.Base.Int.{Int_eq}
use qfn_pgx.Base.Bytes.{Text}
use qfn_pgx.Base.Dict.{lookup}
use qfn_pgx.Proxy.Messages.Stream.{
  ToolCall, Choice, Chunk, Kind, thinking, text, tool_use, tool_block, thinking_delta, text_delta,
  input_json_delta, error_event, Streamer, kind_eq, add_reasoning, add_content, add_arguments,
  first_non_zero, open_tool, call_at, tool_call, calls, choice, choices, translate, translate_chunk,
  note_usage, take_chunk,
}
use mathlib.Core.List.{append-nil}
use qfn_pgx.Proxy.Messages.Stream.Said.{
  part, written, calls_part, choice_part, choices_part, failure_part, chunk_part, written-emit,
  Adds, Adds-trans, nothing-Adds, open_block-Adds, add_reasoning-Adds, add_content-Adds,
  add_arguments-Adds,
}

abbrev tools_part : Kind → List ToolCall → Text
tools_part k [] = []
tools_part k (tc ∷ tcs) = part k (input_json_delta tc.arguments) ++ tools_part k tcs

tools_none : (k : Kind) (tcs : List ToolCall) → kind_eq k tool_use ≡ false → tools_part k tcs ≡ []
tools_none k [] h = refl
tools_none thinking (tc ∷ tcs) h = tools_none thinking tcs h
tools_none text (tc ∷ tcs) h = tools_none text tcs h
tools_none tool_use (tc ∷ tcs) h = ground (arith, h)

tools_all : (tcs : List ToolCall) → tools_part tool_use tcs ≡ calls_part tcs
unfolding calls_part
tools_all [] = refl
tools_all (tc ∷ tcs) = ap (λ t. tc.arguments ++ t) (tools_all tcs)

choice_parts :
    (k : Kind) (ch : Choice)
    → part k (thinking_delta ch.reasoning)
        ++ (part k (text_delta ch.content) ++ tools_part k ch.tool_calls)
      ≡ choice_part k ch
choice_parts thinking ch =
    ap (λ t. ch.reasoning ++ t) (tools_none thinking ch.tool_calls refl) ∙ append-nil ch.reasoning
choice_parts text ch =
    ap (λ t. ch.content ++ t) (tools_none text ch.tool_calls refl) ∙ append-nil ch.content
choice_parts tool_use ch = tools_all ch.tool_calls

module _ (fresh : ℕ → String) (k : Kind) (now : ℕ) where
  started_tool-Adds :
      (tc : ToolCall) (s : Streamer)
      → Adds k
          (part k (input_json_delta tc.arguments))
          s
          (add_arguments now ((open_tool fresh tc s).idx - 1) tc.arguments (open_tool fresh tc s))
  unfolding open_tool
  started_tool-Adds tc s =
      let block = tool_block (first_non_zero tc.id (fresh s.idx)) tc.name in
      add_arguments-Adds k now _ tc.arguments (open_tool fresh tc s)
      ∙ ap (λ t. t ++ part k (input_json_delta tc.arguments))
          (open_block-Adds k block s ∙ append-nil (written k s.out))

  call_at-Adds :
      (tc : ToolCall) (o : Option ℕ) (s : Streamer)
      → Adds k (part k (input_json_delta tc.arguments)) s (call_at fresh now tc o s)
  unfolding call_at
  call_at-Adds tc none s = started_tool-Adds tc s
  call_at-Adds tc (some block) s = elim (Bool-cases (not (tc.id == "") && not (s.cur == tc.id))) [
    | inl p ↦ rw p (started_tool-Adds tc s)
    | inr p ↦ rw p (add_arguments-Adds k now block tc.arguments s)
  ]

  calls-Adds :
      (tcs : List ToolCall) (s : Streamer) → Adds k (tools_part k tcs) s (calls fresh now tcs s)
  unfolding calls tool_call
  calls-Adds [] s = nothing-Adds k s s refl
  calls-Adds (tc ∷ tcs) s =
      Adds-trans k (part k (input_json_delta tc.arguments)) (tools_part k tcs) s
        (tool_call fresh now tc s) (calls fresh now (tc ∷ tcs) s)
        (call_at-Adds tc (lookup tc.index s.tool) s) (calls-Adds tcs (tool_call fresh now tc s))

  choice-Adds : (ch : Choice) (s : Streamer) → Adds k (choice_part k ch) s (choice fresh now ch s)
  unfolding choice
  choice-Adds ch s =
      let thought = add_reasoning now ch.reasoning s in
      let told = add_content now ch.content thought in
      let whole =
        Adds-trans k _ _ s thought (calls fresh now ch.tool_calls told)
          (add_reasoning-Adds k now ch.reasoning s)
          (Adds-trans k _ _ thought told (calls fresh now ch.tool_calls told)
            (add_content-Adds k now ch.content thought) (calls-Adds ch.tool_calls told)) in
      subst (λ t. Adds k t s (choice fresh now ch s)) (choice_parts k ch) whole

  choices-Adds :
      (chs : List Choice) (s : Streamer) → Adds k (choices_part k chs) s (choices fresh now chs s)
  unfolding choices choices_part
  choices-Adds [] s = nothing-Adds k s s refl
  choices-Adds (ch ∷ chs) s =
      Adds-trans k (choice_part k ch) (choices_part k chs) s (choice fresh now ch s)
        (choices fresh now (ch ∷ chs) s) (choice-Adds ch s)
        (choices-Adds chs (choice fresh now ch s))

  translate-Adds :
      (failure : Option Text) (chs : List Choice) (s : Streamer)
      → Adds k (failure_part k failure chs) s (translate fresh now failure chs s)
  unfolding translate
  translate-Adds (some message) chs s = written-emit k (error_event message) s
  translate-Adds none chs s = choices-Adds chs (record s { counted = false })

  note_usage-out : (u : Option (ℕ × ℕ)) (s : Streamer) → (note_usage u s).out ≡ s.out
  unfolding note_usage
  note_usage-out none s = refl
  note_usage-out (some (prompt, completion)) s = refl

  pub take_chunk-Adds :
      (o : Option Chunk) (s : Streamer) → Adds k (chunk_part k o) s (take_chunk fresh now o s)
  unfolding take_chunk translate_chunk
  take_chunk-Adds none s = nothing-Adds k s s refl
  take_chunk-Adds (some ev) s =
      ap (written k) (note_usage-out ev.usage _) ∙ translate-Adds ev.failure ev.choices s
