-- ===== src/Auth/Store.antt =====
-- internal/auth/credentials.go: the operations on the password, the machine keys and the named API
-- keys, over `load` and `save`. A change of the payload that `load` gave is a change of the
-- cache, to which it is a pointer (`mutate`).
pub mod Keys
pub mod Unwritten
pub mod Password
pub mod FirstRun
mod Tests
use qfn_pgx.Base.{
  ℕ, ◌+◌, Bool, true, false, not, ◌&&◌, ◌||◌, Option, none, some, String, String_eq, ℕ_eq, List_eq,
  ◌==◌, List, [], ◌∷◌, ◌++◌, map, any, leb, ltb, length, all, is_some, if◌then◌else◌,
}
use Prim.Native.Char.{code}
use qfn_pgx.Auth.Vault.Monad.{
  Err, no_credentials, not_private, unreadable, bad_identity, cannot_decrypt, corrupt,
  cannot_encrypt, cannot_write, no_random, bad_name, key_exists, no_such_key, Result, ok, err, Act,
  pure, raise, gets, modify, lift, or_raise, guard, when, ◌>>=◌, ◌>>◌,
}
use qfn_pgx.Auth.Vault.{
  ApiKeyRec, CredFile, KeyFile, Library, Payload, World, Write, cred_absent, cred_file,
  cred_unstatable, first_payload, identity_of, key_absent, key_file, key_unstatable, load,
  read_limit, save,
}

-- `len(n)` counts bytes, the loop counts runes.
abbrev rune_len : ℕ → ℕ
rune_len c = if ltb c 128 then 1 else if ltb c 2048 then 2 else if ltb c 65536 then 3 else 4

abbrev byte_len : String → ℕ
byte_len String.[] = 0
byte_len (String.◌∷◌ c s) = rune_len (code c) + byte_len s

abbrev key_rune : ℕ → Bool
key_rune c =
    c == b'-'
    || c == b'_'
    || (leb b'a' c && leb c b'z')
    || (leb b'A' c && leb c b'Z')
    || (leb b'0' c && leb c b'9')

abbrev all_key_runes : String → Bool
all_key_runes String.[] = true
all_key_runes (String.◌∷◌ c s) = key_rune (code c) && all_key_runes s

unfoldable pub valid_key_name : String → Bool
valid_key_name n = if n == "" || ltb 32 (byte_len n) then false else all_key_runes n

abbrev pub has_name : String → List ApiKeyRec → Bool
has_name name ks = any (λ k. k.name == name) ks

abbrev without_hash : ApiKeyRec → ApiKeyRec
without_hash k = record k { hash = "" }

abbrev pub without_name : String → List ApiKeyRec → List ApiKeyRec
without_name name [] = []
without_name name (k ∷ ks) =
    let rest = without_name name ks in if k.name == name then rest else k ∷ rest

abbrev pub first_match : String → List ApiKeyRec → Option String
first_match want [] = none
first_match want (k ∷ ks) = if k.hash == want then some k.name else first_match want ks

module _ (L : Library) where
  open L use {
    Identity, Cipher, encrypt, decrypt, marshal, unmarshal, read_limited, hash_password, hash_token,
    preview,
  }

  -- `p, err := s.load()`, where `ErrNoCredentials` gives a new payload that is not the cache's.
  or_first : Result Payload × World L → Result (Payload × Bool) × World L
  or_first (ok p, w) = (ok (p, true), w)
  or_first (err no_credentials, w) = (ok (first_payload, false), w)
  or_first (err e, w) = (err e, w)

  pub load_or_first : Act (World L) (Payload × Bool)
  unfolding or_first
  load_or_first w = or_first (load L w)

  -- A change of the payload through the pointer that `load` gave.
  mutate : Bool → Payload → Act (World L) (Unit {0})
  mutate shared p = when shared (λ w. record w { cache = some p })

  -- `SetPassword` from the loaded payload on.
  set_from : Option (List ℕ) → Write → String → Payload × Bool → Act (World L) (Unit {0})
  unfolding mutate
  set_from salt f pw (p, shared) = do
    s ← lift (or_raise no_random salt)
    let p' = record p { pw_salt = s; pw_hash = hash_password pw s }
    mutate shared p'
    save L f p'

  unfoldable pub set_password : Option (List ℕ) → Write → String → Act (World L) (Unit {0})
  unfolding load_or_first set_from
  set_password salt f pw = do loaded ← load_or_first; set_from salt f pw loaded

  unfoldable pub verify_with : String → Result Payload → Bool
  verify_with pw (err e) = false
  verify_with pw (ok p) =
      if length p.pw_hash == 0 then false else p.pw_hash == hash_password pw p.pw_salt

  unfoldable pub verify_password : String → World L → World L × Bool
  unfolding verify_with
  verify_password pw w = let (r, w') = load L w in (w', verify_with pw r)

  unfoldable pub has_password : World L → World L × Bool
  has_password w =
      let (r, w') = load L w in (w', elim r [ ok p ↦ ltb 0 (length p.pw_hash) | err e ↦ false ])

  unfoldable pub engine_key : Act (World L) String
  engine_key = do p ← load L; pure p.engine_key

  unfoldable pub front_key : Act (World L) String
  front_key = do p ← load L; pure p.front_key

  -- `return k, s.save(p)` gives the key beside the error; an action's error hides it.
  unfoldable pub rotate_engine_key : Option String → Write → Act (World L) String
  unfolding load_or_first mutate
  rotate_engine_key random f = do
    (p, shared) ← load_or_first
    k ← lift (or_raise no_random random)
    let p' = record p { engine_key = k }
    mutate shared p'
    save L f p'
    pure k

  unfoldable pub rotate_front_key : Option String → Write → Act (World L) String
  unfolding load_or_first mutate
  rotate_front_key random f = do
    (p, shared) ← load_or_first
    k ← lift (or_raise no_random random)
    let p' = record p { front_key = k }
    mutate shared p'
    save L f p'
    pure k

  abbrev pub new_rec : String → String → ℕ → ApiKeyRec
  new_rec name tok now = record {
    name = name;
    hash = hash_token tok;
    preview = preview tok;
    created = now;
  }

  -- `AddAPIKey` from the loaded payload on.
  add_to : Option String → ℕ → Write → String → Payload × Bool → Act (World L) String
  unfolding mutate
  add_to random now f name (p, shared) = do
    guard (not (has_name name p.api_keys)) key_exists
    tok ← lift (or_raise no_random random)
    let p' = record p { api_keys = p.api_keys ++ new_rec name tok now ∷ [] }
    mutate shared p'
    save L f p'
    pure tok

  -- `random` is the token with its prefix `qfn_`.
  unfoldable pub add_api_key : Option String → ℕ → Write → String → Act (World L) String
  unfolding load_or_first add_to
  add_api_key random now f name = do
    guard (valid_key_name name) bad_name
    loaded ← load_or_first
    add_to random now f name loaded

  list_result : Result Payload × World L → Result (List ApiKeyRec) × World L
  list_result (ok p, w) = (ok (map without_hash p.api_keys), w)
  list_result (err no_credentials, w) = (ok [], w)
  list_result (err e, w) = (err e, w)

  unfoldable pub list_api_keys : Act (World L) (List ApiKeyRec)
  unfolding list_result
  list_api_keys w = list_result (load L w)

  -- `RevokeAPIKey` from the loaded payload on. The loop filters the slice in place, so the cached
  -- payload has changed before `save`.
  revoke_from : Write → String → Payload → Act (World L) (Unit {0})
  unfolding mutate
  revoke_from f name p = do
    guard (has_name name p.api_keys) no_such_key
    let p' = record p { api_keys = without_name name p.api_keys }
    mutate true p'
    save L f p'

  unfoldable pub revoke_api_key : Write → String → Act (World L) (Unit {0})
  unfolding revoke_from
  revoke_api_key f name = do p ← load L; revoke_from f name p

  match_in : String → Result Payload → Option String
  match_in token (err e) = none
  match_in token (ok p) = first_match (hash_token token) p.api_keys

  unfoldable pub match_api_key : String → World L → World L × Option String
  unfolding match_in
  match_api_key token w =
      if token == "" then (w, none) else let (r, w') = load L w in (w', match_in token r)
