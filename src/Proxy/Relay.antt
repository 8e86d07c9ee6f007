-- ===== src/Proxy/Relay.antt =====
-- `relaySSE` and `consumeData` of internal/proxy/proxy.go: the loop that relays an event stream line
-- by line, with keepalives. One round of its `select` is one input: the client leaves, the ticker
-- fires, a line arrives, the upstream ends. `decode` (JSON of a data payload) is a parameter.
pub mod Keepalives
pub mod Transparency
mod Tests
use qfn_pgx.Base.{
  ℕ, ◌+◌, Bool, true, false, not, ◌&&◌, ◌||◌, Option, none, some, String, String_eq, ℕ_eq, List_eq,
  ◌==◌, List, [], ◌∷◌, ◌++◌, any, if◌then◌else◌,
}
use qfn_pgx.Base.Bytes.{Text, codes, has_prefix, trim_space, trim_prefix}
use qfn_pgx.Proxy.Registry.{Request, Phase, prefill, decoding, done, error, aborted}

-- The fields of a payload that are read: `choices` has each choice's delta content and text.
pub record SseEvent : Type 0 where
  pub etype : String
  pub has_error : Bool
  pub choices : List (String × String)
  pub delta_text : String
  pub delta_thinking : String
  pub delta_json : String

abbrev choice_token : String × String → Bool
choice_token (content, text) = not (content == "") || not (text == "")

unfoldable pub is_token : SseEvent → Bool
is_token ev =
    any choice_token ev.choices
    || (ev.etype == "content_block_delta"
        && (not (ev.delta_text == "")
            || not (ev.delta_thinking == "")
            || not (ev.delta_json == "")))

abbrev first_token : ℕ → Option ℕ → Request → Request
first_token now none x = record x { first_token_at = some now; phase = decoding }
first_token now (some t) x = x

count_token : ℕ → Request → Request
count_token now x0 =
    let x = first_token now x0.first_token_at x0 in record x { tokens = x.tokens + 1 }

event_row : ℕ → Option SseEvent → Request → Request
unfolding count_token is_token
event_row now none x = x
event_row now (some ev) x =
    if ev.has_error
    then record x { phase = error }
    else if is_token ev
    then count_token now x
    else x

unfoldable pub consume_data : (Text → Option SseEvent) → ℕ → Text → Request → Request
unfolding event_row
consume_data decode now line x =
    let payload = trim_space (trim_prefix line (codes "data:")) in
    if payload == [] || payload == codes "[DONE]" then x else event_row now (decode payload) x

-- What is written to the client.
pub data Out : Type 0 where
  relayed : Text → Out
  keepalive : Out

pub record Relay : Type 0 where
  pub at_boundary : Bool
  pub wrote_since_ping : Bool
  pub out : List Out
  pub row : Request
  pub cancelled : Bool
  pub ended : Bool

abbrev pub start : Request → Relay
start req = record {
  at_boundary = true;
  wrote_since_ping = false;
  out = [];
  row = req;
  cancelled = false;
  ended = false;
}

-- A write's Boolean says whether it succeeded.
pub data Input : Type 0 where
  client_gone : Input
  tick : Bool → Input
  line : Text → Bool → Input
  upstream_closed : ℕ → Input

take_line : (Text → Option SseEvent) → ℕ → Text → Bool → Relay → Relay
unfolding consume_data has_prefix
take_line decode now l written s =
    let s' : Relay =
      if l == []
      then record s { wrote_since_ping = false; at_boundary = true }
      else if has_prefix l (codes "data:")
      then record s { wrote_since_ping = false; row = consume_data decode now l s.row }
      else record s { wrote_since_ping = false } in
    if written then record s' { out = s'.out ++ relayed l ∷ [] } else record s' { cancelled = true }

take_tick : Bool → Relay → Relay
take_tick written s =
    if s.at_boundary && not s.wrote_since_ping
    then (if written
        then record s {
          out = s.out ++ keepalive ∷ [];
          wrote_since_ping = true;
          at_boundary = false;
        }
        else s)
    else s

abbrev is_error : Phase → Bool
is_error error = true
is_error _ = false

-- The last `Finish`, with the upstream's status.
close_row : ℕ → ℕ → Request → Request
close_row now status x = record x {
  done_at = some now;
  status = status;
  phase = if is_error x.phase then x.phase else done;
}

abort_row : ℕ → Request → Request
abort_row now x = record x { done_at = some now; is_aborted = true; phase = aborted }

round : (Text → Option SseEvent) → ℕ → Input → Relay → Relay
unfolding take_line take_tick close_row abort_row
round decode now client_gone s = record s {
  cancelled = true;
  row = abort_row now s.row;
  ended = true;
}
round decode now (tick written) s = take_tick written s
round decode now (line l written) s = take_line decode now l written s
round decode now (upstream_closed status) s = record s {
  row = close_row now status s.row;
  ended = true;
}

unfoldable pub relay_step : (Text → Option SseEvent) → ℕ → Input → Relay → Relay
unfolding round
relay_step decode now i s = if s.ended then s else round decode now i s

-- The inputs, each with its time.
unfoldable pub relay : (Text → Option SseEvent) → List (ℕ × Input) → Relay → Relay
relay decode [] s = s
relay decode ((now, i) ∷ is') s = relay decode is' (relay_step decode now i s)
