-- ===== src/Proxy/FrontDoor/Key.antt =====
-- With a lockdown key, no call of the engine goes without it.
use qfn_pgx.Base.{
  ℕ, ◌+◌, ltb, Bool, true, false, not, Option, none, some, String, String_eq, ℕ_eq, List_eq, ◌==◌,
  List, [], ◌∷◌, ◌++◌, length, if◌then◌else◌,
}
use qfn_pgx.Base.Bytes.{Text}
use qfn_pgx.Proxy.Registry.{Registry}
use qfn_pgx.Proxy.Headers.{Headers, copy_unless, not_forwarded}
use qfn_pgx.Proxy.Messages.Json.{Json}
use qfn_pgx.Proxy.Messages.Request.{AnthropicReq, Chat, build_openai_chat}
use qfn_pgx.Proxy.FrontDoor.{
  Settings, ClientRequest, Call, Response, Engine, Codec, Served, tracked, is_anthropic, target_of,
  authorize, limit_reader, ceiling, count_prompt_tokens,
}
use qfn_pgx.Base.{◌≡◌, refl, arith, all}
use qfn_pgx.Base.Dict.{lookup, lookup-insert_self}
use qfn_pgx.Base.{beq_refl, if_elim}
use qfn_pgx.Proxy.FrontDoor.Chat.{
  Wire, is_sse, check_ceiling, upstream_call, relay_json, take_response, serve_chat,
}
use qfn_pgx.Proxy.FrontDoor.Messages.{
  messages_call, relay_anthropic_json, take_message_response, send_chat, decoded_messages,
  serve_messages,
}
use qfn_pgx.Proxy.FrontDoor.Serve.{take_body, serve_http}
use qfn_pgx.Proxy.FrontDoor.{tokenize_call}

abbrev is_bearer : String → Option (List String) → Bool
is_bearer key (some (v ∷ [])) = v == Prim.Native.String.◌++◌ "Bearer " key
is_bearer key _ = false

-- The call's only authorization is the key.
abbrev pub has_key : String → Call → Bool
has_key key c = is_bearer key (lookup "Authorization" c.headers)

is_bearer-authorize :
    (key : String) (h : Headers)
    → (key == "") ≡ false
    → is_bearer key (lookup "Authorization" (authorize key h)) ≡ true
unfolding authorize
is_bearer-authorize key h n = rw (n, lookup-insert_self, beq_refl) refl

all-append :
    (f : Call → Bool) (xs ys : List Call)
    → all f xs ≡ true
    → all f ys ≡ true
    → all f (xs ++ ys) ≡ true
all-append f [] ys h k = k
all-append f (x ∷ xs) ys h k = ground (arith, all-append f xs ys, h, k)

module _ {V : Type 0} (C : Codec V) (W : Wire) (E : Engine) (st : Settings V) where
  check_ceiling-Keyed :
      (lim : Option ℕ) (body : Text)
      → (st.key == "") ≡ false
      → all (has_key st.key) (check_ceiling C W E st lim body).0 ≡ true
  unfolding check_ceiling count_prompt_tokens tokenize_call
  check_ceiling-Keyed none body n = refl
  check_ceiling-Keyed (some lim) body n =
      ground (arith, is_bearer-authorize st.key (("Content-Type", "application/json" ∷ []) ∷ []) n)

  take_response-calls :
      (now : ℕ) (rg : Registry) (calls : List Call) (r : ClientRequest) (body : Text)
      (o : Option Response)
      → (take_response C W E st now rg calls r body o).calls ≡ calls
  unfolding take_response relay_json
  take_response-calls now rg calls r body none = refl
  take_response-calls now rg calls r body (some resp) =
      if_elim (λ (x : Served Json). x.calls ≡ calls) (not (tracked r.path)) _ _ (λ p. refl)
        (λ p.
          if_elim (λ (x : Served Json). x.calls ≡ calls) (is_sse resp) _ _ (λ q. refl) (λ q. refl))

  take_message_response-calls :
      (msg_id : String) (now : ℕ) (rg : Registry) (calls : List Call) (r : ClientRequest)
      (a : AnthropicReq) (o : Option Response)
      → (take_message_response C W E st msg_id now rg calls r a o).calls ≡ calls
  unfolding take_message_response relay_anthropic_json
  take_message_response-calls msg_id now rg calls r a none = refl
  take_message_response-calls msg_id now rg calls r a (some resp) =
      if_elim (λ (x : Served Json). x.calls ≡ calls) (is_sse resp) _ _ (λ q. refl) (λ q. refl)

  -- Every call that was made has the key.
  abbrev Keyed : Served Json → Type 0
  Keyed x = all (has_key st.key) x.calls ≡ true

  asked_and_sent :
      (asked : List Call) (up : Call)
      → all (has_key st.key) asked ≡ true
      → has_key st.key up ≡ true
      → all (has_key st.key) (asked ++ up ∷ []) ≡ true
  asked_and_sent asked up h k = all-append (has_key st.key) asked (up ∷ []) h (ground (arith, k))

  serve_chat-Keyed :
      (now : ℕ) (rg : Registry) (r : ClientRequest) (body : Text)
      → (st.key == "") ≡ false
      → Keyed (serve_chat C W E st now rg r body)
  unfolding serve_chat upstream_call
  serve_chat-Keyed now rg r body n =
      let lim = if tracked r.path then ceiling st.max_prompt else none in
      let asked = (check_ceiling C W E st lim body).0 in
      let asked_keyed = check_ceiling-Keyed lim body n in
      let up = upstream_call C W E st r body in
      let sent =
        asked_and_sent asked up asked_keyed
          (is_bearer-authorize st.key (copy_unless not_forwarded r.headers []) n) in
      if_elim Keyed (check_ceiling C W E st lim body).1 _ _ (λ p. asked_keyed)
        (λ p.
          if_elim Keyed (E.can_make up.method up.url) _ _
            (λ q. rw (take_response-calls now rg (asked ++ up ∷ []) r body (E.do_call up)) sent)
            (λ q. asked_keyed))

  send_chat-Keyed :
      (msg_id : String) (now : ℕ) (rg : Registry) (r : ClientRequest) (a : AnthropicReq)
      (o : Option Chat)
      → (st.key == "") ≡ false
      → Keyed (send_chat C W E st msg_id now rg r a o)
  unfolding send_chat messages_call
  send_chat-Keyed msg_id now rg r a none n = refl
  send_chat-Keyed msg_id now rg r a (some chat) n =
      let up = messages_call C W E st chat in
      let lim = ceiling st.max_prompt in
      let asked = (check_ceiling C W E st lim up.body).0 in
      let asked_keyed = check_ceiling-Keyed lim up.body n in
      let sent =
        asked_and_sent asked up asked_keyed
          (is_bearer-authorize st.key (("Content-Type", "application/json" ∷ []) ∷ []) n) in
      if_elim Keyed (check_ceiling C W E st lim up.body).1 _ _ (λ p. asked_keyed)
        (λ p.
          if_elim Keyed (E.can_make up.method up.url) _ _
            (λ q.
              rw (take_message_response-calls msg_id now rg (asked ++ up ∷ []) r a (E.do_call up))
                sent)
            (λ q. asked_keyed))

  decoded_messages-Keyed :
      (msg_id : String) (now : ℕ) (rg : Registry) (r : ClientRequest) (o : Option AnthropicReq)
      → (st.key == "") ≡ false
      → Keyed (decoded_messages C W E st msg_id now rg r o)
  unfolding decoded_messages
  decoded_messages-Keyed msg_id now rg r none n = refl
  decoded_messages-Keyed msg_id now rg r (some a) n =
      if_elim Keyed (length a.messages == 0) _ _ (λ p. refl)
        (λ p. send_chat-Keyed msg_id now rg r a (build_openai_chat W.marshal a) n)

  take_body-Keyed :
      (msg_id : String) (now : ℕ) (rg : Registry) (r : ClientRequest) (o : Option Text)
      → (st.key == "") ≡ false
      → Keyed (take_body C W E st msg_id now rg r o)
  unfolding take_body serve_messages
  take_body-Keyed msg_id now rg r none n = refl
  take_body-Keyed msg_id now rg r (some sent) n =
      let body = limit_reader (st.max_req_body + 1) sent in
      if_elim Keyed (ltb st.max_req_body (length body)) _ _ (λ p. refl)
        (λ p.
          if_elim Keyed (is_anthropic r.path) _ _
            (λ q. decoded_messages-Keyed msg_id now rg r (W.decode_request body) n)
            (λ q. serve_chat-Keyed now rg r body n))

-- With a lockdown key, every call that the front door makes to the engine while it serves a request,
-- the token count included, carries the key as its only authorization, whatever the client sent.
pub serve_http-Keyed :
    {V : Type 0} (C : Codec V) (W : Wire) (E : Engine) (st : Settings V) (msg_id : String) (now : ℕ)
    (rg : Registry) (r : ClientRequest)
    → (st.key == "") ≡ false
    → all (has_key st.key) (serve_http C W E st msg_id now rg r).calls ≡ true
unfolding serve_http
serve_http-Keyed C W E st msg_id now rg r n =
    if_elim (Keyed C W E st) (target_of st == []) _ _ (λ p. refl)
      (λ p. take_body-Keyed C W E st msg_id now rg r r.body n)
