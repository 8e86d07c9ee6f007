-- ===== src/Server/Access/Tests.antt =====
-- The gate with a library that hashes nothing.
use qfn_pgx.Base.{
  ℕ, ◌≡◌, refl, true, false, Option, none, some, String, String_eq, [], ◌∷◌, ◌++◌, arith, List_eq,
  ℕ_eq,
}
use qfn_pgx.Base.Bytes.{codes}
use qfn_pgx.Base.Dict.{lookup}
use qfn_pgx.Auth.Limiter.{allow, gate}
use qfn_pgx.Auth.Sessions.{create, validate}
use qfn_pgx.Auth.Vault.{Payload, first_payload, Library, key_file, cred_file, load}
use qfn_pgx.Auth.Store.{verify_password, verify_with, front_key, match_api_key}
use qfn_pgx.Server.Access.{
  Access, Request, forwarded, bearer, auth, by_cookie, by_session, by_bearer, by_front_key,
  by_api_key, is_front_key, h_login, admitted, decoded, checked, minted,
}
use qfn_pgx.Server.Access.Attribution.{Entitled, auth_sound}
use qfn_pgx.Server.Access.Login.{auth-h_login}

abbrev library : Library
library = record {
  Identity = ℕ;
  Cipher = Payload;
  Plain = Payload;
  encrypt = λ i x. some x;
  decrypt = λ i c. some c;
  marshal = λ p. p;
  unmarshal = λ x. some x;
  read_limited = λ n x. x;
  hash_password = λ pw salt. codes pw ++ salt;
  hash_token = λ tok. tok;
  preview = λ tok. tok;
}

abbrev payload : Payload
payload = record first_payload {
  pw_salt = 1 ∷ [];
  pw_hash = codes "pw" ++ 1 ∷ [];
  front_key = "front";
  api_keys = record { name = "laptop"; hash = "qfn_1"; preview = "qfn_1"; created = 3 } ∷ [];
}

abbrev access : Access library
access = record {
  sessions = record { table = ("ann", 50) ∷ []; idle = 12 };
  limiter = record { has_path = false; state = []; file = none };
  store = record {
    cache = some payload;
    cache_mod = 5;
    key = key_file true true (some 7);
    cred = cred_file 5 (some payload);
  };
}

abbrev new_token : Option String
new_token = some "new"

abbrev with_key : Request
with_key = record { cookie = some "old"; authorization = "Bearer qfn_1"; client = some "root" }

auth_sound_example : Entitled library 20 (some "old") (bearer "Bearer qfn_1") access (some "laptop")
unfolding auth by_cookie by_session by_bearer by_front_key by_api_key is_front_key bearer validate
    lookup front_key match_api_key load
auth_sound_example = auth_sound library 20 with_key access (some "laptop") true refl

auth-h_login_example :
    (auth library 30 true
      (record { cookie = some "new"; authorization = ""; client = some "root" })
      (h_login library 20 21 true (some "new") "10.0.0.7" (some "pw") access).0).1
    ≡ forwarded none true
unfolding h_login admitted decoded checked minted allow gate lookup verify_password verify_with load
    create
auth-h_login_example =
    auth-h_login library 20 21 30 true (some "new") "10.0.0.7" "new" (some "pw") access ""
      (some "root") (tt, tt) (λ e. cc) refl (omega arith)
