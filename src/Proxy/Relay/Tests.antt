-- ===== src/Proxy/Relay/Tests.antt =====
-- The relay of a short stream.
use qfn_pgx.Base.{ℕ, ◌≡◌, refl, true, false, Option, none, List, [], ◌∷◌}
use qfn_pgx.Base.Bytes.{Text, codes}
use qfn_pgx.Proxy.Registry.{Request, prefill}
use qfn_pgx.Proxy.Relay.{SseEvent, Input, tick, line, upstream_closed, start, relay}
use qfn_pgx.Proxy.Relay.Transparency.{lines_of, upstream, relay_lines}

abbrev row : Request
row = record {
  id = codes "r1";
  endpoint = "/v1/messages";
  model = "qwen";
  client = "laptop";
  started_at = 5;
  first_token_at = none;
  done_at = none;
  phase = prefill;
  stream = true;
  tokens = 0;
  prompt_tokens = 3;
  status = 0;
  is_aborted = false;
}

-- No payload is JSON.
abbrev no_json : Text → Option SseEvent
no_json payload = none

abbrev stream : List (ℕ × Input)
stream =
    (1, line (codes "event: ping") true)
    ∷ (2, tick true)
    ∷ (3, line (codes "data: {}") true)
    ∷ (4, line [] true)
    ∷ (5, tick true)
    ∷ (6, tick true)
    ∷ (7, upstream_closed 200)
    ∷ []

relay_lines_example : lines_of (relay no_json stream (start row)).out ≡ upstream stream
relay_lines_example = relay_lines no_json stream row (refl, (refl, (refl, tt)))
