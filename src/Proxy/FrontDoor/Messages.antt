-- ===== src/Proxy/FrontDoor/Messages.antt =====
-- `serveMessages` and `relayAnthropicJSON` of internal/proxy/anthropic.go: a request of the Messages API,
-- from its body to its answer, or to the loop that relays its stream.
use qfn_pgx.Base.{
  ℕ, false, Option, none, some, String, String_eq, ℕ_eq, List_eq, ◌==◌, List, [], ◌∷◌, ◌++◌, length,
  if◌then◌else◌,
}
use qfn_pgx.Base.Bytes.{Text, codes}
use qfn_pgx.Proxy.Registry.{Request, Registry, prefill, next_id, add, finish}
use qfn_pgx.Proxy.Messages.Answer.{answer_row, answer_message}
use qfn_pgx.Proxy.Messages.Json.{Json}
use qfn_pgx.Proxy.Messages.Request.{AnthropicReq, Chat, build_openai_chat}
use qfn_pgx.Proxy.FrontDoor.{
  Settings, ClientRequest, Call, Response, Engine, Codec, anthropic_refused, answered,
  message_stream, Served, target_of, authorize, limit_reader, ceiling, apply_sampling,
}
use qfn_pgx.Proxy.FrontDoor.Chat.{Wire, is_sse, client_ip, check_ceiling}

module _ {V : Type 0} (C : Codec V) (W : Wire) (E : Engine) (st : Settings V) where
  -- `relayAnthropicJSON`, with the id that is drawn for the message.
  unfoldable pub relay_anthropic_json :
      String → ℕ → Registry → List Call → Response → Request → Served Json
  unfolding limit_reader answer_row answer_message finish
  relay_anthropic_json msg_id now rg calls resp req =
      let a = W.decode_answer (limit_reader 33554432 resp.body) in
      record {
        registry = finish req.id (answer_row now resp.status a) rg;
        calls = calls;
        reply =
            answered (answer_message W.decode_input W.empty_object msg_id req.model resp.status a);
      }

  unfoldable pub messages_call : Chat → Call
  unfolding target_of authorize apply_sampling
  messages_call chat = record {
    method = "POST";
    url = target_of st ++ codes "/v1/chat/completions";
    headers = authorize st.key (("Content-Type", "application/json" ∷ []) ∷ []);
    body = apply_sampling C st (W.encode_chat chat);
  }

  unfoldable pub messages_row : ℕ → ClientRequest → AnthropicReq → Text → Request
  unfolding client_ip
  messages_row now r a id = record {
    id = id;
    endpoint = "messages";
    model = a.model;
    client = client_ip C W E st r;
    started_at = now;
    first_token_at = none;
    done_at = none;
    phase = prefill;
    stream = a.stream;
    tokens = 0;
    prompt_tokens = 0;
    status = 0;
    is_aborted = false;
  }

  unfoldable pub take_message_response :
      String
      → ℕ
      → Registry
      → List Call
      → ClientRequest
      → AnthropicReq
      → Option Response
      → Served Json
  unfolding next_id add messages_row is_sse relay_anthropic_json
  take_message_response msg_id now rg calls r a none = record {
    registry = rg;
    calls = calls;
    reply = anthropic_refused 503 "overloaded_error";
  }
  take_message_response msg_id now rg calls r a (some resp) =
      let (rg1, id) = next_id rg in
      let req = messages_row now r a id in
      if is_sse resp
      then record { registry = add req rg1; calls = calls; reply = message_stream req resp }
      else relay_anthropic_json msg_id now (add req rg1) calls resp req

  unfoldable pub send_chat :
      String → ℕ → Registry → ClientRequest → AnthropicReq → Option Chat → Served Json
  unfolding check_ceiling messages_call take_message_response
  send_chat msg_id now rg r a none = record {
    registry = rg;
    calls = [];
    reply = anthropic_refused 400 "invalid_request_error";
  }
  send_chat msg_id now rg r a (some chat) =
      let up = messages_call chat in
      let (asked, too_long) = check_ceiling C W E st (ceiling st.max_prompt) up.body in
      if too_long
      then record {
        registry = rg;
        calls = asked;
        reply = anthropic_refused 400 "invalid_request_error";
      }
      else if E.can_make up.method up.url
      then take_message_response msg_id now rg (asked ++ up ∷ []) r a (E.do_call up)
      else record { registry = rg; calls = asked; reply = anthropic_refused 500 "api_error" }

  unfoldable pub decoded_messages :
      String → ℕ → Registry → ClientRequest → Option AnthropicReq → Served Json
  unfolding send_chat build_openai_chat
  decoded_messages msg_id now rg r none = record {
    registry = rg;
    calls = [];
    reply = anthropic_refused 400 "invalid_request_error";
  }
  decoded_messages msg_id now rg r (some a) =
      if length a.messages == 0
      then record {
        registry = rg;
        calls = [];
        reply = anthropic_refused 400 "invalid_request_error";
      }
      else send_chat msg_id now rg r a (build_openai_chat W.marshal a)

  unfoldable pub serve_messages : String → ℕ → Registry → ClientRequest → Text → Served Json
  unfolding decoded_messages
  serve_messages msg_id now rg r body = decoded_messages msg_id now rg r (W.decode_request body)
