-- ===== src/Proxy/FrontDoor/Serve.antt =====
-- `ServeHTTP` of internal/proxy/proxy.go: the guards of the front door.
use qfn_pgx.Base.{
  ℕ, ◌+◌, ltb, Option, none, some, String, String_eq, ℕ_eq, List_eq, ◌==◌, [], length,
  if◌then◌else◌,
}
use qfn_pgx.Base.Bytes.{Text}
use qfn_pgx.Proxy.Registry.{Registry}
use qfn_pgx.Proxy.Messages.Json.{Json}
use qfn_pgx.Proxy.FrontDoor.{
  Settings, ClientRequest, Engine, Codec, refused, Served, is_anthropic, target_of, limit_reader,
}
use qfn_pgx.Proxy.FrontDoor.Chat.{Wire, serve_chat}
use qfn_pgx.Proxy.FrontDoor.Messages.{serve_messages}

module _ {V : Type 0} (C : Codec V) (W : Wire) (E : Engine) (st : Settings V) where
  unfoldable pub take_body : String → ℕ → Registry → ClientRequest → Option Text → Served Json
  unfolding limit_reader is_anthropic serve_messages serve_chat
  take_body msg_id now rg r none = record {
    registry = rg;
    calls = [];
    reply = refused 400 "invalid_request";
  }
  take_body msg_id now rg r (some sent) =
      let body = limit_reader (st.max_req_body + 1) sent in
      if ltb st.max_req_body (length body)
      then record { registry = rg; calls = []; reply = refused 413 "request_too_large" }
      else if is_anthropic r.path
      then serve_messages C W E st msg_id now rg r body
      else serve_chat C W E st now rg r body

  -- `ServeHTTP`
  unfoldable pub serve_http : String → ℕ → Registry → ClientRequest → Served Json
  unfolding target_of take_body
  serve_http msg_id now rg r =
      if target_of st == []
      then record { registry = rg; calls = []; reply = refused 503 "engine_unavailable" }
      else take_body msg_id now rg r r.body
