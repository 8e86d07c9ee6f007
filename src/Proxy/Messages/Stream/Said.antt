-- ===== src/Proxy/Messages/Stream/Said.antt =====
-- What the events say of each kind, and what the streamer's operations on blocks add to it.
use qfn_pgx.Base.{
  ℕ, ◌-◌, ◌≡◌, refl, ◌∙◌, ap, subst, sym, Option, none, some, List, [], ◌∷◌, ◌++◌, arith,
  Bool-cases, inl, inr, ℕ_eq, List_eq, String_eq,
}
use qfn_pgx.Base.Int.{Int_eq}
use qfn_pgx.Base.Bytes.{Text}
use qfn_pgx.Proxy.Messages.Stream.{
  ToolCall, Choice, Chunk, Kind, thinking, text, tool_use, Block, thinking_block, text_block, Delta,
  thinking_delta, text_delta, input_json_delta, Event, block_start, block_delta, block_stop,
  Streamer, is_open, kind_of, emit, close_opened, close_block, open_block, mark_tok, add_delta,
  add_reasoning, add_content, add_arguments,
}
use mathlib.Core.List.{append_assoc, append-nil}

-- The text of a delta of the kind.
abbrev pub part : Kind → Delta → Text
part thinking (thinking_delta t) = t
part text (text_delta t) = t
part tool_use (input_json_delta t) = t
part _ _ = []

abbrev pub event_part : Kind → Event → Text
event_part k (block_delta i d) = part k d
event_part k _ = []

-- All that the events say of the kind.
unfoldable pub written : Kind → List Event → Text
written k [] = []
written k (ev ∷ evs) = event_part k ev ++ written k evs

unfoldable pub calls_part : List ToolCall → Text
calls_part [] = []
calls_part (tc ∷ tcs) = tc.arguments ++ calls_part tcs

abbrev pub choice_part : Kind → Choice → Text
choice_part thinking ch = ch.reasoning
choice_part text ch = ch.content
choice_part tool_use ch = calls_part ch.tool_calls

unfoldable pub choices_part : Kind → List Choice → Text
choices_part k [] = []
choices_part k (ch ∷ chs) = choice_part k ch ++ choices_part k chs

abbrev pub failure_part : Kind → Option Text → List Choice → Text
failure_part k (some message) chs = []
failure_part k none chs = choices_part k chs

-- What a payload says of the kind: nothing where it cannot be decoded or carries an error.
abbrev pub chunk_part : Kind → Option Chunk → Text
chunk_part k none = []
chunk_part k (some ev) = failure_part k ev.failure ev.choices

written-append :
    (k : Kind) (evs more : List Event) → written k (evs ++ more) ≡ written k evs ++ written k more
unfolding written
written-append k [] more = refl
written-append k (ev ∷ evs) more =
    ap (λ t. event_part k ev ++ t) (written-append k evs more)
    ∙ sym (append_assoc (event_part k ev) (written k evs) (written k more))

pub written-emit :
    (k : Kind) (ev : Event) (s : Streamer)
    → written k (emit ev s).out ≡ written k s.out ++ event_part k ev
unfolding emit written
written-emit k ev s =
    written-append k s.out (ev ∷ []) ∙ ap (λ t. written k s.out ++ t) (append-nil (event_part k ev))

-- An operation that adds the text of the kind.
abbrev pub Adds : Kind → Text → Streamer → Streamer → Type 0
Adds k t s s' = written k s'.out ≡ written k s.out ++ t

pub Adds-trans :
    (k : Kind) (t t' : Text) (s s' s2 : Streamer)
    → Adds k t s s'
    → Adds k t' s' s2
    → Adds k (t ++ t') s s2
Adds-trans k t t' s s' s2 h h' = h' ∙ ap (λ x. x ++ t') h ∙ append_assoc (written k s.out) t t'

pub nothing-Adds : (k : Kind) (s s' : Streamer) → s'.out ≡ s.out → Adds k [] s s'
nothing-Adds k s s' eq = ap (written k) eq ∙ sym (append-nil (written k s.out))

pub close_opened-Adds : (k : Kind) (o : Option Kind) (s : Streamer) → Adds k [] s (close_opened o s)
unfolding close_opened
close_opened-Adds k none s = nothing-Adds k s s refl
close_opened-Adds k (some j) s = written-emit k (block_stop (s.idx - 1)) s

pub open_block-Adds : (k : Kind) (b : Block) (s : Streamer) → Adds k [] s (open_block b s)
unfolding open_block close_block
open_block-Adds k b s =
    Adds-trans k [] [] s (close_block s) (open_block b s) (close_opened-Adds k s.opened s)
      (written-emit k (block_start (close_block s).idx b) (close_block s))

part_nothing :
    (k : Kind)
    → (part k (thinking_delta []) ≡ [])
      × (part k (text_delta []) ≡ [])
      × (part k (input_json_delta []) ≡ [])
part_nothing thinking = (refl, refl, refl)
part_nothing text = (refl, refl, refl)
part_nothing tool_use = (refl, refl, refl)

module _ (k : Kind) (now : ℕ) where
  marked_emit-Adds :
      (i : ℕ) (d : Delta) (s : Streamer)
      → Adds k (part k d) s (mark_tok now (emit (block_delta i d) s))
  unfolding mark_tok emit
  marked_emit-Adds i d s = ground (arith, written-emit k (block_delta i d) s)

  add_delta-Adds :
      (b : Block) (d : Delta) (s : Streamer) → Adds k (part k d) s (add_delta now b d s)
  unfolding add_delta
  add_delta-Adds b d s = elim (Bool-cases (is_open (kind_of b) s.opened)) [
    | inl p ↦ rw p (marked_emit-Adds (s.idx - 1) d s)
    | inr p ↦ rw p (
        Adds-trans k [] (part k d) s (open_block b s)
          (mark_tok now (emit (block_delta ((open_block b s).idx - 1) d) (open_block b s)))
          (open_block-Adds k b s) (marked_emit-Adds ((open_block b s).idx - 1) d (open_block b s)))
  ]

  pub add_reasoning-Adds :
      (t : Text) (s : Streamer) → Adds k (part k (thinking_delta t)) s (add_reasoning now t s)
  unfolding add_reasoning
  add_reasoning-Adds [] s =
      subst (λ t. Adds k t s s) (sym (part_nothing k).0) (nothing-Adds k s s refl)
  add_reasoning-Adds (c ∷ t) s = add_delta-Adds thinking_block (thinking_delta (c ∷ t)) s

  pub add_content-Adds :
      (t : Text) (s : Streamer) → Adds k (part k (text_delta t)) s (add_content now t s)
  unfolding add_content
  add_content-Adds [] s =
      subst (λ t. Adds k t s s) (sym (part_nothing k).1) (nothing-Adds k s s refl)
  add_content-Adds (c ∷ t) s = add_delta-Adds text_block (text_delta (c ∷ t)) s

  pub add_arguments-Adds :
      (block : ℕ) (t : Text) (s : Streamer)
      → Adds k (part k (input_json_delta t)) s (add_arguments now block t s)
  unfolding add_arguments
  add_arguments-Adds block [] s =
      subst (λ t. Adds k t s s) (sym (part_nothing k).2) (nothing-Adds k s s refl)
  add_arguments-Adds block (c ∷ t) s = marked_emit-Adds block (input_json_delta (c ∷ t)) s
