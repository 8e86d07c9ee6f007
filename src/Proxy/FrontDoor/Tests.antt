-- ===== src/Proxy/FrontDoor/Tests.antt =====
-- A front door before an engine that has a key, a ceiling of four tokens and a recommended temperature.
use qfn_pgx.Base.{
  ℕ, ltb, true, false, none, some, String, String_eq, ℕ_eq, List_eq, ◌==◌, [], ◌∷◌, length, all,
  if◌then◌else◌, ◌≡◌, refl,
}
use qfn_pgx.Base.Int.{pos}
use qfn_pgx.Base.Bytes.{Text, codes}
use qfn_pgx.Base.Dict.{Dict, lookup, insert}
use qfn_pgx.Proxy.Registry.{new_registry}
use qfn_pgx.Proxy.Headers.{Headers}
use qfn_pgx.Proxy.Messages.Json.{object, no_fields}
use qfn_pgx.Proxy.Messages.Answer.{ChatAnswer}
use qfn_pgx.Proxy.FrontDoor.{
  Settings, ClientRequest, Engine, Codec, refused, is_anthropic, target_of, apply_sampling,
}
use qfn_pgx.Proxy.FrontDoor.Chat.{Wire, serve_chat}
use qfn_pgx.Proxy.FrontDoor.Messages.{serve_messages}
use qfn_pgx.Proxy.FrontDoor.Serve.{serve_http}
use qfn_pgx.Proxy.FrontDoor.Key.{has_key, serve_http-Keyed}
use qfn_pgx.Proxy.FrontDoor.Gate.{limit_exact}
use qfn_pgx.Proxy.FrontDoor.Sampling.{or_else, found, lookup-apply_sampling}

-- A body with a brace alone is the empty object; a count is a length.
abbrev codec : Codec ℕ
codec = record {
  decode_meta = λ body. record { model = "qwen"; stream = false };
  decode_probe = λ body. record { model = "qwen"; prompt = body; messages = [] };
  encode_probe = λ model prompt. prompt;
  decode_count = λ body. some (pos (length body));
  decode_object = λ body. if body == codes "{}" then some [] else some (("temperature", 7) ∷ []);
  encode_object = λ d. some (codes "{7}");
  decode_usage = λ body. none;
}

abbrev no_answer : ChatAnswer
no_answer = record {
  choices = [];
  prompt_tokens = 0;
  completion_tokens = 0;
  cached_tokens = 0;
  failure = none;
}

abbrev wire : Wire
wire = record {
  decode_request = λ body. none;
  marshal = λ v. [];
  encode_chat = λ chat. [];
  decode_answer = λ body. no_answer;
  decode_input = λ t. none;
  empty_object = object no_fields;
  host_of = λ addr. none;
}

-- It gives back what it is sent.
abbrev echo : Engine
echo = record {
  can_make = λ method url. true;
  do_call = λ c. some (record { status = 200; headers = []; body = c.body; complete = true });
}

abbrev down : Engine
down = record { can_make = λ method url. true; do_call = λ c. none }

abbrev settings : Settings ℕ
settings = record {
  target = codes "http://127.0.0.1:8000/";
  key = "sk-1";
  max_prompt = pos 4;
  sampling = some (("temperature", 7) ∷ []);
  max_req_body = 20;
}

abbrev no_fields_sent : Dict String ℕ
no_fields_sent = []

abbrev defaults : Dict String ℕ
defaults = ("temperature", 7) ∷ []

abbrev no_headers : Headers
no_headers = []

abbrev sent_headers : Headers
sent_headers =
    ("Authorization", "Bearer guest" ∷ [])
    ∷ ("Connection", "close" ∷ [])
    ∷ ("Accept", "a" ∷ "b" ∷ [])
    ∷ []

abbrev request : Text → ClientRequest
request body = record {
  method = "POST";
  path = codes "/v1/chat/completions";
  headers = sent_headers;
  body = some body;
  remote_addr = "10.0.0.7:5000";
}

serve_http-Keyed_example :
    all
      (has_key "sk-1")
      (serve_http codec wire echo settings "msg_1" 5 (new_registry 3) (request (codes "{}"))).calls
    ≡ true
serve_http-Keyed_example =
    serve_http-Keyed codec wire echo settings "msg_1" 5 (new_registry 3) (request (codes "{}")) refl

limit_exact_example :
    serve_http codec wire echo settings "msg_1" 5 (new_registry 3) (request (codes "{}")) ≡ (
      if ltb 20 (length (codes "{}"))
      then record { registry = new_registry 3; calls = []; reply = refused 413 "request_too_large" }
      else if is_anthropic (codes "/v1/chat/completions")
      then serve_messages codec wire echo settings "msg_1" 5
          (new_registry 3)
          (request (codes "{}"))
          (codes "{}")
      else serve_chat codec wire echo settings 5
          (new_registry 3)
          (request (codes "{}"))
          (codes "{}"))
unfolding target_of
limit_exact_example =
    limit_exact codec wire echo settings "msg_1" 5 (new_registry 3) (request (codes "{}"))
      (codes "{}") refl refl

lookup-apply_sampling_example :
    found "temperature" (codec.decode_object (apply_sampling codec settings (codes "{}")))
    ≡ or_else (lookup "temperature" no_fields_sent) (lookup "temperature" defaults)
unfolding lookup insert apply_sampling
lookup-apply_sampling_example =
    lookup-apply_sampling codec settings (codes "{}") defaults no_fields_sent "temperature"
      (codes "{7}") refl refl refl refl refl
