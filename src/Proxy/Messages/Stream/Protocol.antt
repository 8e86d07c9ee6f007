-- ===== src/Proxy/Messages/Stream/Protocol.antt =====
-- A description of the order of a message's events that knows nothing of the translation, and how the
-- streamer's fields agree with it. It lets an argument delta name any tool block that has begun; the Messages
-- protocol wants that block to be open.
use qfn_pgx.Base.{
  ℕ, ◌+◌, ◌-◌, ◌≡◌, refl, subst, sym, Bool, true, not, ◌&&◌, ◌||◌, Option, none, some, List, [],
  ◌∷◌, ◌++◌, any, arith, is_some, ltb, ◌==◌, ℕ_eq, String_eq, if◌then◌else◌,
}
use qfn_pgx.Base.Int.{ℤ, Int_eq}
use qfn_pgx.Base.Dict.{lookup}
use qfn_pgx.Proxy.Messages.Stream.{
  Kind, thinking, text, tool_use, Block, thinking_block, text_block, tool_block, Delta,
  thinking_delta, text_delta, input_json_delta, Event, message_start, ping, block_start,
  block_delta, block_stop, message_delta, message_stop, error_event, Streamer, is_open, kind_of,
  emit, close_opened, close_block, open_block,
}

-- What a reader of the events knows: how many blocks have begun, which kind is open, and which blocks
-- are tool blocks.
pub data Watch : Type 0 where
  waiting : Watch
  going : ℕ → Option Kind → List ℕ → Watch
  ending over : Watch

abbrev pub tools_with : ℕ → Block → List ℕ → List ℕ
tools_with i (tool_block id name) tools = i ∷ tools
tools_with i thinking_block tools = tools
tools_with i text_block tools = tools

abbrev pub fits : ℕ → Delta → ℕ → Option Kind → List ℕ → Bool
fits i (thinking_delta t) n opened tools = i + 1 == n && is_open thinking opened
fits i (text_delta t) n opened tools = i + 1 == n && is_open text opened
fits i (input_json_delta t) n opened tools = any (λ j. i == j) tools

-- The reader's next state, none where the event is out of order.
unfoldable pub check : Event → Watch → Option Watch
check (message_start id model) waiting = some (going 0 none [])
check ping (going n opened tools) = some (going n opened tools)
check (error_event message) (going n opened tools) = some (going n opened tools)
check (block_start i b) (going n none tools) =
    if i == n then some (going (n + 1) (some (kind_of b)) (tools_with i b tools)) else none
check (block_delta i d) (going n opened tools) =
    if fits i d n opened tools then some (going n opened tools) else none
check (block_stop i) (going n (some k) tools) =
    if i + 1 == n then some (going n none tools) else none
check (message_delta reason tokens_in tokens_out) (going n none tools) = some ending
check message_stop ending = some over
check _ _ = none

abbrev pub after : Event → Option Watch → Option Watch
after ev none = none
after ev (some w) = check ev w

unfoldable pub watch_from : Option Watch → List Event → Option Watch
watch_from w [] = w
watch_from w (ev ∷ evs) = watch_from (after ev w) evs

unfoldable pub watch : List Event → Option Watch
watch evs = watch_from (some waiting) evs

watch_from-append :
    (w : Option Watch) (evs more : List Event)
    → watch_from w (evs ++ more) ≡ watch_from (watch_from w evs) more
unfolding watch_from
watch_from-append w [] more = refl
watch_from-append w (ev ∷ evs) more = watch_from-append (after ev w) evs more

-- The reader knows what the streamer's fields say.
pub record Agrees (s : Streamer) (tools : List ℕ) : Type 0 where
  pub state : watch s.out ≡ some (going s.idx s.opened tools)
  pub known : (i : ℤ) (b : ℕ) → lookup i s.tool ≡ some b → any (λ j. b == j) tools ≡ true
  pub begun : (not (is_some s.opened) || ltb 0 s.idx) ≡ true

pub watch-emit : (ev : Event) (s : Streamer) → watch (emit ev s).out ≡ after ev (watch s.out)
unfolding watch watch_from emit
watch-emit ev s = watch_from-append (some waiting) s.out (ev ∷ [])

-- What the streamer writes agrees with what it remembers.
abbrev pub Sound : Streamer → Type 0
Sound s = (tools : List ℕ) × Agrees s tools

-- An operation that writes nothing and keeps what the reader knows.
pub kept-Sound :
    (s s' : Streamer)
    → s'.out ≡ s.out
    → s'.idx ≡ s.idx
    → s'.opened ≡ s.opened
    → s'.tool ≡ s.tool
    → Sound s
    → Sound s'
kept-Sound s s' o i k t (tools, h) = (
  tools,
  record {
    state = ground (arith, o, i, k, h.state);
    known =
        subst (λ d. (i : ℤ) (b : ℕ) → lookup i d ≡ some b → any (λ j. b == j) tools ≡ true) (sym t)
          h.known;
    begun = ground (arith, i, k, h.begun);
  },
)

close_opened-Agrees :
    (o : Option Kind) (s : Streamer) (tools : List ℕ)
    → s.opened ≡ o
    → Agrees s tools
    → Agrees (close_opened o s) tools × ((close_opened o s).opened ≡ none)
unfolding close_opened check
close_opened-Agrees none s tools eq h = (h, eq)
close_opened-Agrees (some k) s tools eq h = (
  record {
    state = ground (arith, watch-emit (block_stop (s.idx - 1)) s, h.state, h.begun, eq);
    known = h.known;
    begun = refl;
  },
  refl,
)

pub close_block-Agrees :
    (s : Streamer) (tools : List ℕ)
    → Agrees s tools
    → Agrees (close_block s) tools × ((close_block s).opened ≡ none)
unfolding close_block
close_block-Agrees s tools h = close_opened-Agrees s.opened s tools refl h

start-Agrees :
    (b : Block) (s : Streamer) (tools : List ℕ)
    → s.opened ≡ none
    → Agrees s tools
    → Agrees
        (record (emit (block_start s.idx b) s) { idx = s.idx + 1; opened = some (kind_of b) })
        (tools_with s.idx b tools)
unfolding check emit
start-Agrees thinking_block s tools eq h = record {
  state = ground (arith, watch-emit (block_start s.idx thinking_block) s, h.state, eq);
  known = h.known;
  begun = ground arith;
}
start-Agrees text_block s tools eq h = record {
  state = ground (arith, watch-emit (block_start s.idx text_block) s, h.state, eq);
  known = h.known;
  begun = ground arith;
}
start-Agrees (tool_block id name) s tools eq h = record {
  state = ground (arith, watch-emit (block_start s.idx (tool_block id name)) s, h.state, eq);
  known = λ i b found. ground (arith, h.known i b found);
  begun = ground arith;
}

pub open_block-Agrees :
    (b : Block) (s : Streamer) (tools : List ℕ)
    → Agrees s tools
    → Agrees (open_block b s) (tools_with (close_block s).idx b tools)
unfolding open_block emit
open_block-Agrees b s tools h =
    let closed = close_block-Agrees s tools h in
    let g = start-Agrees b (close_block s) tools closed.1 closed.0 in
    record { state = g.state; known = g.known; begun = g.begun }

pub open_block-Sound : (b : Block) (s : Streamer) → Sound s → Sound (open_block b s)
open_block-Sound b s (tools, h) =
    (tools_with (close_block s).idx b tools, open_block-Agrees b s tools h)

pub open_of_kind :
    (b : Block) (o : Option Kind) → is_open (kind_of b) o ≡ true → o ≡ some (kind_of b)
open_of_kind thinking_block none p = ground arith
open_of_kind thinking_block (some thinking) p = refl
open_of_kind thinking_block (some text) p = ground arith
open_of_kind thinking_block (some tool_use) p = ground arith
open_of_kind text_block none p = ground arith
open_of_kind text_block (some thinking) p = ground arith
open_of_kind text_block (some text) p = refl
open_of_kind text_block (some tool_use) p = ground arith
open_of_kind (tool_block id name) none p = ground arith
open_of_kind (tool_block id name) (some thinking) p = ground arith
open_of_kind (tool_block id name) (some text) p = ground arith
open_of_kind (tool_block id name) (some tool_use) p = refl
