-- ===== src/Auth/Vault.antt =====
-- internal/auth/credentials.go: the encrypted payload on disk and its cache in the process, `load` and
-- `save`.
-- The age library, JSON, Argon2 and SHA-256 are the parameter `Library`; what `rand.Read`, the file
-- system and the clock answer are arguments of the operations. The cache is the payload to which
-- `load` returns a pointer.
pub mod Monad
pub mod Disk
use qfn_pgx.Base.{
  ℕ, ◌+◌, Bool, true, false, not, ◌&&◌, ◌||◌, Option, none, some, String, String_eq, ℕ_eq, List_eq,
  ◌==◌, List, [], ◌∷◌, ◌++◌, map, any, leb, ltb, length, all, is_some, if◌then◌else◌,
}
use Prim.Native.Char.{code}
use qfn_pgx.Auth.Vault.Monad.{
  Err, no_credentials, not_private, unreadable, bad_identity, cannot_decrypt, corrupt,
  cannot_encrypt, cannot_write, no_random, bad_name, key_exists, no_such_key, Result, ok, err, Act,
  pure, raise, gets, modify, lift, or_raise, guard, when, ◌>>=◌, ◌>>◌,
}

pub record ApiKeyRec : Type 0 where
  pub name : String
  pub hash : String
  pub preview : String
  pub created : ℕ

pub record Payload : Type 0 where
  pub pw_salt : List ℕ
  pub pw_hash : List ℕ
  pub engine_key : String
  pub front_key : String
  pub api_keys : List ApiKeyRec
  pub version : ℕ

-- `&Payload{Version: 1}`
abbrev pub first_payload : Payload
first_payload = record {
  pw_salt = [];
  pw_hash = [];
  engine_key = "";
  front_key = "";
  api_keys = [];
  version = 1;
}

-- What the code takes from elsewhere. `read_limited` is `io.ReadAll(io.LimitReader(r, n))`;
-- `decrypt` fails also where the decrypted text cannot be read;
-- `preview` is the first 12 characters of a token with an ellipsis.
pub record Library : Type 1 where
  pub Identity : Type 0
  pub Cipher : Type 0
  pub Plain : Type 0
  pub encrypt : Identity → Plain → Option Cipher
  pub decrypt : Identity → Cipher → Option Plain
  pub marshal : Payload → Plain
  pub unmarshal : Plain → Option Payload
  pub read_limited : ℕ → Plain → Plain
  pub hash_password : String → List ℕ → List ℕ
  pub hash_token : String → String
  pub preview : String → String

-- `1<<16`, the most that `load` reads of the decrypted payload.
abbrev pub read_limit : ℕ
read_limit = 65536

-- `age.key`: its mode is private or not, and its text may fail to be read or parsed.
pub data KeyFile (I : Type 0) : Type 0 where
  key_absent : KeyFile I
  key_unstatable : KeyFile I
  key_file : Bool → Bool → Option I → KeyFile I

-- `credentials.age` with its modification time; its bytes may fail to be read.
pub data CredFile (C : Type 0) : Type 0 where
  cred_absent : CredFile C
  cred_unstatable : CredFile C
  cred_file : ℕ → Option C → CredFile C

-- One process's `Store` and the directory.
pub record World (L : Library) : Type 0 where
  pub cache : Option Payload
  pub cache_mod : ℕ
  pub key : KeyFile L.Identity
  pub cred : CredFile L.Cipher

-- What the file system answers to `save`: the write and the rename succeed, the new modification
-- time, and whether the `Stat` after the rename succeeds.
pub record Write : Type 0 where
  pub write_ok : Bool
  pub rename_ok : Bool
  pub mtime : ℕ
  pub stat_ok : Bool

module _ (L : Library) where
  open L use {
    Identity, Cipher, encrypt, decrypt, marshal, unmarshal, read_limited, hash_password, hash_token,
    preview,
  }

  unfoldable pub identity_of : KeyFile Identity → Result Identity
  identity_of key_absent = err no_credentials
  identity_of key_unstatable = err unreadable
  identity_of (key_file private readable parsed) =
      if not private
      then err not_private
      else if not readable
      then err unreadable
      else or_raise bad_identity parsed

  identity : Act (World L) Identity
  identity = do k ← gets (λ w. w.key); lift (identity_of k)

  -- The part of `load` after the cache has been found stale.
  reload : ℕ → Option Cipher → Act (World L) Payload
  unfolding identity
  reload mtime bytes = do
    id ← identity
    b ← lift (or_raise unreadable bytes)
    plain ← lift (or_raise cannot_decrypt (decrypt id b))
    p ← lift (or_raise corrupt (unmarshal (read_limited read_limit plain)))
    modify (λ w. record w { cache = some p; cache_mod = mtime })
    pure p

  load_cached : ℕ → Option Cipher → Option Payload → ℕ → Act (World L) Payload
  unfolding reload
  load_cached mtime bytes none cache_mod = reload mtime bytes
  load_cached mtime bytes (some p) cache_mod =
      if not (ltb cache_mod mtime) then pure p else reload mtime bytes

  load_file : CredFile Cipher → Act (World L) Payload
  unfolding load_cached
  load_file cred_absent w = raise no_credentials w
  load_file cred_unstatable w = raise unreadable w
  load_file (cred_file mtime bytes) w = load_cached mtime bytes w.cache w.cache_mod w

  unfoldable pub load : Act (World L) Payload
  unfolding load_file
  load w = load_file w.cred w

  unfoldable pub save : Write → Payload → Act (World L) (Unit {0})
  unfolding identity
  save f p = do
    id ← identity
    c ← lift (or_raise cannot_encrypt (encrypt id (marshal p)))
    guard (f.write_ok && f.rename_ok) cannot_write
    modify (λ w. record w {
      cred = cred_file f.mtime (some c);
      cache = some p;
      cache_mod = if f.stat_ok then f.mtime else w.cache_mod;
    })
