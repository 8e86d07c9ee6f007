-- ===== src/Proxy/FrontDoor.antt =====
-- `ServeHTTP` and its helpers (internal/proxy/proxy.go): the front door of the engine, up to the relays.
-- The transport (`client.Do`), encoding/json and net are parameters: `Engine`, `Codec` and `split_host`. A
-- call to the engine is recorded, so that what is not asked can be stated. A body is its bytes; one that is read with an error is none.
pub mod Chat
pub mod Messages
pub mod Serve
pub mod Key
pub mod Sampling
pub mod Gate
mod Tests
use qfn_pgx.Base.{
  ℕ, zero, suc, ◌+◌, ◌-◌, ltb, leb, Bool, true, false, not, ◌&&◌, ◌||◌, Option, none, some, is_some,
  String, String_eq, ℕ_eq, List_eq, ◌==◌, List, [], ◌∷◌, ◌++◌, length, if◌then◌else◌,
}
use qfn_pgx.Base.Int.{ℤ, pos, negsuc}
use qfn_pgx.Base.Bytes.{Text, codes, has_prefix, contains}
use qfn_pgx.Base.Dict.{Dict, lookup, insert}
use mathlib.Core.List.{reverse}
use qfn_pgx.Proxy.Registry.{Request, Registry, Phase, prefill, done, error, next_id, add, finish}
use qfn_pgx.Proxy.Messages.Answer.{Answered}
use qfn_pgx.Proxy.Headers.{Headers, header, copy_unless, not_forwarded, copy_headers}

unfoldable pub has_suffix : Text → Text → Bool
unfolding has_prefix
has_suffix s p = has_prefix (reverse s) (reverse p)

-- `strings.TrimRight(s, "/")`
unfoldable pub trim_slashes : Text → Text
trim_slashes [] = []
trim_slashes (c ∷ s) = elim (trim_slashes s) [
  | [] ↦ if c == b'/' then [] else c ∷ []
  | d ∷ r ↦ c ∷ d ∷ r
]

unfoldable pub tracked : Text → Bool
unfolding has_suffix
tracked path =
    has_suffix path (codes "/chat/completions")
    || has_suffix path (codes "/completions")
    || has_suffix path (codes "/messages")

unfoldable pub endpoint_of : Text → String
unfolding has_suffix
endpoint_of path =
    if has_suffix path (codes "/chat/completions")
    then "chat/completions"
    else if has_suffix path (codes "/completions")
    then "completions"
    else if has_suffix path (codes "/messages")
    then "messages"
    else "other"

-- `isAnthropic`
unfoldable pub is_anthropic : Text → Bool
unfolding has_suffix
is_anthropic path = has_suffix path (codes "/messages")

-- The settings that the functions of `Proxy` return: `sampling` is none where it is nil.
pub record Settings (V : Type 0) : Type 0 where
  pub target : Text
  pub key : String
  pub max_prompt : ℤ
  pub sampling : Option (Dict String V)
  pub max_req_body : ℕ

pub record ClientRequest : Type 0 where
  pub method : String
  pub path : Text
  pub headers : Headers
  pub body : Option Text
  pub remote_addr : String

-- A request to the engine.
pub record Call : Type 0 where
  pub method : String
  pub url : Text
  pub headers : Headers
  pub body : Text

-- `complete` says whether the body is read without an error.
pub record Response : Type 0 where
  pub status : ℕ
  pub headers : Headers
  pub body : Text
  pub complete : Bool

-- The transport: whether a request can be made, and the engine's answer, none where it is not reached.
pub record Engine : Type 0 where
  pub can_make : String → Text → Bool
  pub do_call : Call → Option Response

pub record Meta : Type 0 where
  pub model : String
  pub stream : Bool

-- The raw fields of the body, empty where they are absent.
pub record Probe : Type 0 where
  pub model : String
  pub prompt : Text
  pub messages : Text

pub record Usage : Type 0 where
  pub prompt_tokens : ℕ
  pub completion_tokens : ℕ
  pub output_tokens : ℕ

-- encoding/json, with `V` for the values of an object.
pub record Codec (V : Type 0) : Type 0 where
  pub decode_meta : Text → Meta
  pub decode_probe : Text → Probe
  pub encode_probe : String → Text → Text
  pub decode_count : Text → Option ℤ
  pub decode_object : Text → Option (Dict String V)
  pub encode_object : Dict String V → Option Text
  pub decode_usage : Text → Option Usage

-- `target`
unfoldable pub target_of : {V : Type 0} → Settings V → Text
unfolding trim_slashes
target_of st = trim_slashes st.target

-- `up.Header.Set("Authorization", "Bearer "+k)` where there is a key.
unfoldable pub authorize : String → Headers → Headers
authorize key h =
    if key == "" then h else insert "Authorization" (Prim.Native.String.◌++◌ "Bearer " key ∷ []) h

-- `firstNonEmpty`
unfoldable pub first_non_empty : Text → Text → Text
first_non_empty [] b = b
first_non_empty (c ∷ a) b = c ∷ a

abbrev pub starts_object : Text → Bool
starts_object [] = false
starts_object (c ∷ body) = c == b'{'

-- The first bytes of a body, as `io.LimitReader` gives them.
unfoldable pub limit_reader : ℕ → Text → Text
limit_reader n [] = []
limit_reader n (c ∷ s) = let rest = limit_reader (n - 1) s in if n == 0 then [] else c ∷ rest

-- What the client is answered: an error of either protocol (its status and type, without its message), a response that is passed on, a message, or
-- the start of a relay with the row of its request.
pub data Reply (V : Type 0) : Type 0 where
  refused anthropic_refused : ℕ → String → Reply V
  relayed : ℕ → Headers → Text → Reply V
  answered : Answered V → Reply V
  event_stream message_stream : Request → Response → Reply V

pub record Served (V : Type 0) : Type 0 where
  pub registry : Registry
  pub calls : List Call
  pub reply : Reply V

-- The prompt ceiling: none where it is not above 0.
abbrev pub ceiling : ℤ → Option ℕ
ceiling (pos (suc n)) = some (suc n)
ceiling _ = none

module _ {V : Type 0} (C : Codec V) where
  -- The loop of `applySampling`, and its `changed`.
  unfoldable pub fill : Dict String V → Dict String V → Dict String V
  unfolding lookup insert
  fill [] generic = generic
  fill ((k, v) ∷ defs) generic =
      fill defs (if is_some (lookup k generic) then generic else insert k v generic)

  unfoldable pub lacks_any : Dict String V → Dict String V → Bool
  unfolding lookup
  lacks_any [] generic = false
  lacks_any ((k, v) ∷ defs) generic =
      not (is_some (lookup k generic))
      || lacks_any defs (if is_some (lookup k generic) then generic else insert k v generic)

  abbrev pub encoded_or : Text → Option Text → Text
  encoded_or body none = body
  encoded_or body (some out) = out

  fill_object : Dict String V → Text → Option (Dict String V) → Text
  unfolding fill lacks_any
  fill_object defs body none = body
  fill_object defs body (some generic) =
      if lacks_any defs generic then encoded_or body (C.encode_object (fill defs generic)) else body

  fill_defaults : Option (Dict String V) → Text → Text
  unfolding fill_object
  fill_defaults none body = body
  fill_defaults (some []) body = body
  fill_defaults (some (d ∷ defs)) body = fill_object (d ∷ defs) body (C.decode_object body)

  unfoldable pub apply_sampling : Settings V → Text → Text
  unfolding fill_defaults
  apply_sampling st body = if starts_object body then fill_defaults st.sampling body else body

  module _ (E : Engine) (st : Settings V) where
    unfoldable pub tokenize_call : Text → Call
    unfolding first_non_empty target_of authorize
    tokenize_call body =
        let probe = C.decode_probe body in
        record {
          method = "POST";
          url = target_of st ++ codes "/tokenize";
          headers = authorize st.key (("Content-Type", "application/json" ∷ []) ∷ []);
          body = C.encode_probe probe.model (first_non_empty probe.prompt probe.messages);
        }

    abbrev positive_count : Option ℤ → Option ℕ
    positive_count (some (pos (suc n))) = some (suc n)
    positive_count _ = none

    abbrev count_of : Option Response → Option ℕ
    count_of none = none
    count_of (some resp) =
        if resp.status == 200
        then positive_count (C.decode_count (limit_reader 1048576 resp.body))
        else none

    -- `countPromptTokens`: the calls that are made, and the count, none for `false`.
    unfoldable pub count_prompt_tokens : Text → List Call × Option ℕ
    unfolding tokenize_call limit_reader
    count_prompt_tokens body =
        let call = tokenize_call body in
        if E.can_make call.method call.url
        then (call ∷ [], count_of (E.do_call call))
        else ([], none)
