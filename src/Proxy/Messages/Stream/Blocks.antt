-- ===== src/Proxy/Messages/Stream/Blocks.antt =====
-- Every operation of the streamer keeps its events in the protocol.
use qfn_pgx.Base.{
  ℕ, ◌+◌, ◌-◌, ◌≡◌, refl, ◌∙◌, ap, true, false, not, ◌&&◌, Option, none, some, String, List, [],
  ◌∷◌, any, arith, Bool-cases, inl, inr, ◌==◌, ℕ_eq, String_eq,
}
use qfn_pgx.Base.Int.{Int_eq}
use qfn_pgx.Base.Bytes.{Text}
use qfn_pgx.Base.Dict.{lookup, lookup-insert}
use qfn_pgx.Proxy.Messages.Stream.{
  ToolCall, Choice, Chunk, Block, thinking_block, text_block, tool_block, Delta, thinking_delta,
  text_delta, input_json_delta, Event, block_delta, error_event, Streamer, is_open, kind_of, emit,
  close_block, open_block, mark_tok, add_delta, add_reasoning, add_content, add_arguments,
  first_non_zero, open_tool, call_at, tool_call, calls, choice, choices, translate, translate_chunk,
  note_usage, take_chunk,
}
use qfn_pgx.Proxy.Messages.Stream.Protocol.{
  going, fits, check, after, Agrees, watch-emit, Sound, kept-Sound, open_block-Agrees,
  open_block-Sound, open_of_kind,
}

mark_tok-Sound : (now : ℕ) (s : Streamer) → Sound s → Sound (mark_tok now s)
unfolding mark_tok
mark_tok-Sound now s h =
    kept-Sound s (mark_tok now s) (ground arith) (ground arith) (ground arith) (ground arith) h

-- An event that the reader takes without a change.
pub emit-Sound :
    (ev : Event) (s : Streamer) (tools : List ℕ)
    → check ev (going s.idx s.opened tools) ≡ some (going s.idx s.opened tools)
    → Agrees s tools
    → Sound (emit ev s)
unfolding emit
emit-Sound ev s tools taken h = (
  tools,
  record {
    state = watch-emit ev s ∙ ap (after ev) h.state ∙ taken;
    known = h.known;
    begun = h.begun;
  },
)

-- The delta of a block that is open.
module _ (now : ℕ) where
  open_delta-Sound :
      (b : Block) (d : Delta) (s : Streamer)
      → ((i n : ℕ) (tools : List ℕ)
          → (i + 1 == n) ≡ true
          → fits i d n (some (kind_of b)) tools ≡ true)
      → s.opened ≡ some (kind_of b)
      → Sound s
      → Sound (mark_tok now (emit (block_delta (s.idx - 1) d) s))
  unfolding check
  open_delta-Sound b d s fit eq (tools, h) = mark_tok-Sound now _ (
      emit-Sound (block_delta (s.idx - 1) d) s tools
        (ground (arith, eq, h.begun, fit (s.idx - 1) s.idx tools)) h)

  add_delta-Sound :
      (b : Block) (d : Delta) (s : Streamer)
      → ((i n : ℕ) (tools : List ℕ)
          → (i + 1 == n) ≡ true
          → fits i d n (some (kind_of b)) tools ≡ true)
      → Sound s
      → Sound (add_delta now b d s)
  unfolding add_delta open_block
  add_delta-Sound b d s fit h = elim (Bool-cases (is_open (kind_of b) s.opened)) [
    | inl p ↦ rw p (open_delta-Sound b d s fit (open_of_kind b s.opened p) h)
    | inr p ↦ rw p (open_delta-Sound b d (open_block b s) fit refl (open_block-Sound b s h))
  ]

  add_reasoning-Sound : (t : Text) (s : Streamer) → Sound s → Sound (add_reasoning now t s)
  unfolding add_reasoning
  add_reasoning-Sound [] s h = h
  add_reasoning-Sound (c ∷ t) s h =
      add_delta-Sound thinking_block (thinking_delta (c ∷ t)) s (λ i n tools p. rw p refl) h

  add_content-Sound : (t : Text) (s : Streamer) → Sound s → Sound (add_content now t s)
  unfolding add_content
  add_content-Sound [] s h = h
  add_content-Sound (c ∷ t) s h =
      add_delta-Sound text_block (text_delta (c ∷ t)) s (λ i n tools p. rw p refl) h

  add_arguments-Sound :
      (block : ℕ) (t : Text) (s : Streamer) (tools : List ℕ)
      → any (λ j. block == j) tools ≡ true
      → Agrees s tools
      → Sound (add_arguments now block t s)
  unfolding add_arguments check
  add_arguments-Sound block [] s tools p h = (tools, h)
  add_arguments-Sound block (c ∷ t) s tools p h =
      mark_tok-Sound now _
        (emit-Sound (block_delta block (input_json_delta (c ∷ t))) s tools (rw p refl) h)

note_usage-Sound : (u : Option (ℕ × ℕ)) (s : Streamer) → Sound s → Sound (note_usage u s)
unfolding note_usage
note_usage-Sound none s h = h
note_usage-Sound (some (prompt, completion)) s h = kept-Sound _ _ refl refl refl refl h

module _ (fresh : ℕ → String) (now : ℕ) where
  -- A new tool block, which the arguments of the fragment go to.
  started_tool-Sound :
      (tc : ToolCall) (s : Streamer)
      → Sound s
      → Sound
          (add_arguments now ((open_tool fresh tc s).idx - 1) tc.arguments (open_tool fresh tc s))
  unfolding open_tool open_block emit
  started_tool-Sound tc s (tools, h) =
      let g =
        open_block-Agrees (tool_block (first_non_zero tc.id (fresh s.idx)) tc.name) s tools h in
      let mine : any (λ j. (close_block s).idx == j) ((close_block s).idx ∷ tools) ≡ true =
        ground arith in
      add_arguments-Sound now _ tc.arguments (open_tool fresh tc s) ((close_block s).idx ∷ tools)
        (ground (arith, mine))
        (record {
          state = g.state;
          known = λ i b found. ground (
            arith,
            g.known i b,
            lookup-insert tc.index i (close_block s).idx (close_block s).tool,
            found,
          );
          begun = g.begun;
        })

  call_at-Sound :
      (tc : ToolCall) (o : Option ℕ) (s : Streamer)
      → lookup tc.index s.tool ≡ o
      → Sound s
      → Sound (call_at fresh now tc o s)
  unfolding call_at
  call_at-Sound tc none s eq h = started_tool-Sound tc s h
  call_at-Sound tc (some block) s eq (tools, h) =
      elim (Bool-cases (not (tc.id == "") && not (s.cur == tc.id))) [
        | inl p ↦ rw p (started_tool-Sound tc s (tools, h))
        | inr p ↦
            rw p (add_arguments-Sound now block tc.arguments s tools (h.known tc.index block eq) h)
      ]

  calls-Sound : (tcs : List ToolCall) (s : Streamer) → Sound s → Sound (calls fresh now tcs s)
  unfolding calls tool_call
  calls-Sound [] s h = h
  calls-Sound (tc ∷ tcs) s h =
      calls-Sound tcs _ (call_at-Sound tc (lookup tc.index s.tool) s refl h)

  choices-Sound : (chs : List Choice) (s : Streamer) → Sound s → Sound (choices fresh now chs s)
  unfolding choices choice
  choices-Sound [] s h = h
  choices-Sound (ch ∷ chs) s h =
      let said = add_content-Sound now ch.content _ (add_reasoning-Sound now ch.reasoning s h) in
      choices-Sound chs _ (kept-Sound _ _ refl refl refl refl (calls-Sound ch.tool_calls _ said))

  translate-Sound :
      (failure : Option Text) (chs : List Choice) (s : Streamer)
      → Sound s
      → Sound (translate fresh now failure chs s)
  unfolding translate check
  translate-Sound (some message) chs s (tools, h) =
      kept-Sound _ _ refl refl refl refl (emit-Sound (error_event message) s tools refl h)
  translate-Sound none chs s h =
      choices-Sound chs (record s { counted = false }) (kept-Sound _ _ refl refl refl refl h)

  pub take_chunk-Sound :
      (o : Option Chunk) (s : Streamer) → Sound s → Sound (take_chunk fresh now o s)
  unfolding take_chunk translate_chunk
  take_chunk-Sound none s h = h
  take_chunk-Sound (some ev) s h =
      note_usage-Sound ev.usage _ (translate-Sound ev.failure ev.choices s h)
