-- ===== src/Proxy/FrontDoor/Chat.antt =====
-- The chat API and all that is passed through: the part of `ServeHTTP` of internal/proxy/proxy.go that
-- follows its guards, and `relayJSON`.
use qfn_pgx.Base.{
  ℕ, ltb, leb, Bool, false, not, ◌||◌, Option, none, some, String, String_eq, ℕ_eq, List_eq, ◌==◌,
  List, [], ◌∷◌, ◌++◌, if◌then◌else◌,
}
use qfn_pgx.Base.Bytes.{Text, codes, contains}
use qfn_pgx.Proxy.Registry.{Request, Registry, prefill, done, error, next_id, add, finish}
use qfn_pgx.Proxy.Headers.{header, copy_unless, not_forwarded, copy_headers}
use qfn_pgx.Proxy.Messages.Answer.{ChatAnswer}
use qfn_pgx.Proxy.Messages.Json.{Json}
use qfn_pgx.Proxy.Messages.Request.{AnthropicReq, Chat}
use qfn_pgx.Proxy.FrontDoor.{
  Settings, ClientRequest, Call, Response, Engine, Usage, Codec, refused, relayed, event_stream,
  Served, tracked, endpoint_of, target_of, authorize, limit_reader, ceiling, apply_sampling,
  count_prompt_tokens,
}

-- The rest of encoding/json and of net: the Messages request, the chat that is sent, the engine's answer.
pub record Wire : Type 0 where
  pub decode_request : Text → Option AnthropicReq
  pub marshal : Json → Text
  pub encode_chat : Chat → Text
  pub decode_answer : Text → ChatAnswer
  pub decode_input : Text → Option Json
  pub empty_object : Json
  pub host_of : String → Option String

-- `strings.Contains(resp.Header.Get("Content-Type"), "text/event-stream")`
unfoldable pub is_sse : Response → Bool
unfolding contains
is_sse resp = contains (codes (header "Content-Type" resp.headers)) (codes "text/event-stream")

abbrev or_address : String → Option String → String
or_address addr none = addr
or_address addr (some host) = host

abbrev tokens_of : Usage → ℕ
tokens_of u = if u.completion_tokens == 0 then u.output_tokens else u.completion_tokens

abbrev prompt_counted : Option Usage → ℕ
prompt_counted none = 0
prompt_counted (some u) = u.prompt_tokens

abbrev answer_counted : Option Usage → ℕ
answer_counted none = 0
answer_counted (some u) = tokens_of u

-- The row of a JSON answer, which the code changes in place before it is finished.
unfoldable pub json_row : ℕ → ℕ → Option Usage → Request → Request
json_row now status u x = record x {
  tokens = answer_counted u;
  prompt_tokens = prompt_counted u;
  status = status;
  phase = if leb 400 status then error else done;
  first_token_at = some x.started_at;
  done_at = some now;
}

abbrev pub over : Option ℕ → ℕ → Bool
over none lim = false
over (some n) lim = ltb lim n

module _ {V : Type 0} (C : Codec V) (W : Wire) (E : Engine) (st : Settings V) where
  -- `clientIP`
  unfoldable pub client_ip : ClientRequest → String
  client_ip r = or_address r.remote_addr (W.host_of r.remote_addr)

  -- `callerLabel`
  unfoldable pub caller_label : ClientRequest → String
  unfolding client_ip
  caller_label r = let c = header "X-Qfn-Client" r.headers in if c == "" then client_ip r else c

  -- `relayJSON`
  unfoldable pub relay_json : ℕ → Registry → List Call → Response → Request → Served Json
  unfolding limit_reader json_row copy_headers finish
  relay_json now rg calls resp req =
      let body = limit_reader 33554432 resp.body in
      let u = if resp.complete then C.decode_usage body else none in
      record {
        registry = finish req.id (json_row now resp.status u) rg;
        calls = calls;
        reply = relayed resp.status (copy_headers [] resp.headers) body;
      }

  -- The prompt ceiling: the calls that are made, and whether the prompt is too long.
  unfoldable pub check_ceiling : Option ℕ → Text → List Call × Bool
  unfolding count_prompt_tokens
  check_ceiling none body = ([], false)
  check_ceiling (some lim) body =
      let (calls, n) = count_prompt_tokens C E st body in (calls, over n lim)

  -- What is sent to the engine.
  unfoldable pub upstream_call : ClientRequest → Text → Call
  unfolding target_of authorize copy_unless not_forwarded apply_sampling
  upstream_call r body = record {
    method = r.method;
    url = target_of st ++ r.path;
    headers = authorize st.key (copy_unless not_forwarded r.headers []);
    body = apply_sampling C st body;
  }

  -- The row of a tracked request.
  unfoldable pub new_row : ℕ → ClientRequest → Text → Response → Text → Request
  unfolding endpoint_of caller_label is_sse
  new_row now r body resp id = record {
    id = id;
    endpoint = endpoint_of r.path;
    model = (C.decode_meta body).model;
    client = caller_label r;
    started_at = now;
    first_token_at = none;
    done_at = none;
    phase = prefill;
    stream = (C.decode_meta body).stream || is_sse resp;
    tokens = 0;
    prompt_tokens = 0;
    status = 0;
    is_aborted = false;
  }

  -- What follows the engine's answer.
  unfoldable pub take_response :
      ℕ → Registry → List Call → ClientRequest → Text → Option Response → Served Json
  unfolding tracked copy_headers next_id add new_row is_sse relay_json
  take_response now rg calls r body none = record {
    registry = rg;
    calls = calls;
    reply = refused 503 "engine_unavailable";
  }
  take_response now rg calls r body (some resp) =
      let (rg1, id) = next_id rg in
      let req = new_row now r body resp id in
      if not (tracked r.path)
      then record {
        registry = rg;
        calls = calls;
        reply = relayed resp.status (copy_headers [] resp.headers) resp.body;
      }
      else if is_sse resp
      then record { registry = add req rg1; calls = calls; reply = event_stream req resp }
      else relay_json now (add req rg1) calls resp req

  -- The chat API and all that is passed through.
  unfoldable pub serve_chat : ℕ → Registry → ClientRequest → Text → Served Json
  unfolding check_ceiling upstream_call take_response tracked
  serve_chat now rg r body =
      let (asked, too_long) =
        check_ceiling (if tracked r.path then ceiling st.max_prompt else none) body in
      let up = upstream_call r body in
      if too_long
      then record { registry = rg; calls = asked; reply = refused 400 "context_too_long" }
      else if E.can_make up.method up.url
      then take_response now rg (asked ++ up ∷ []) r body (E.do_call up)
      else record { registry = rg; calls = asked; reply = refused 500 "internal" }
