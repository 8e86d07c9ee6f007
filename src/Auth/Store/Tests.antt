-- ===== src/Auth/Store/Tests.antt =====
-- The store with a library that seals nothing: a payload is its own text and its own cipher.
use qfn_pgx.Base.{
  ℕ, ◌≡◌, refl, ◌≢◌, inl, inr, true, false, none, some, String, String_eq, [], ◌∷◌, ◌++◌, sym,
  arith, ◌==◌, List_eq, ℕ_eq,
}
use qfn_pgx.Base.Bytes.{codes}
use qfn_pgx.Auth.Vault.Monad.{ok}
use qfn_pgx.Auth.Vault.{
  ApiKeyRec, Payload, first_payload, Library, World, Write, key_file, cred_file, identity_of, load,
  save,
}
use qfn_pgx.Auth.Store.{
  or_first, load_or_first, mutate, set_from, set_password, verify_password, new_rec, add_to,
  add_api_key, revoke_from, revoke_api_key, match_api_key, valid_key_name,
}
use qfn_pgx.Auth.Vault.Disk.{Decrypts, load-save}
use qfn_pgx.Auth.Store.Keys.{with_key, payload_of, match-add_api_key, match-revoke_api_key}
use qfn_pgx.Auth.Store.Password.{verify-set_password}

abbrev library : Library
library = record {
  Identity = ℕ;
  Cipher = Payload;
  Plain = Payload;
  encrypt = λ i x. some x;
  decrypt = λ i c. some c;
  marshal = λ p. p;
  unmarshal = λ x. some x;
  read_limited = λ n x. x;
  hash_password = λ pw salt. codes pw ++ salt;
  hash_token = λ tok. tok;
  preview = λ tok. tok;
}

abbrev laptop : ApiKeyRec
laptop = record { name = "laptop"; hash = "qfn_1"; preview = "qfn_1"; created = 3 }

abbrev phone : ApiKeyRec
phone = record { name = "phone"; hash = "qfn_2"; preview = "qfn_2"; created = 4 }

abbrev payload : Payload
payload = record first_payload { front_key = "front"; api_keys = laptop ∷ phone ∷ [] }

abbrev world : World library
world = record {
  cache = none;
  cache_mod = 0;
  key = key_file true true (some 7);
  cred = cred_file 5 (some payload);
}

abbrev written : Write
written = record { write_ok = true; rename_ok = true; mtime = 9; stat_ok = true }

abbrev unwritten : Write
unwritten = record { write_ok = false; rename_ok = true; mtime = 9; stat_ok = true }

-- What a save of a payload leaves.
abbrev saved : Payload → World library
saved p = record {
  cache = some p;
  cache_mod = 9;
  key = key_file true true (some 7);
  cred = cred_file 9 (some p);
}

decrypts : Decrypts library
decrypts i x c e = sym e

load-save_example :
    (load library (record (saved payload) { cache = none; cache_mod = 0 })).0 ≡ ok payload
unfolding save identity_of
load-save_example =
    load-save library written payload world (saved payload) none 0 decrypts refl refl (inl refl)

abbrev tablet : Payload
tablet = with_key payload (new_rec library "tablet" "qfn_3" 6)

match-add_api_key_example :
    (match_api_key library "qfn_3"
      (record (saved tablet) { cache = some payload; cache_mod = 5 })).1
    ≡ some "tablet"
unfolding payload_of add_api_key add_to mutate load_or_first or_first load save identity_of
    valid_key_name
match-add_api_key_example =
    match-add_api_key library (some "qfn_3") 6 written "tablet" "qfn_3" world (saved tablet)
      (some payload) 5 decrypts refl (λ e. cc) refl (inr (omega arith)) refl

abbrev without_laptop : Payload
without_laptop = record payload { api_keys = phone ∷ [] }

match-revoke_api_key_example :
    let after =
      (match_api_key library "qfn_1"
        (record (saved without_laptop) { cache = none; cache_mod = 0 })).1 in
    (after ≢ some "laptop")
    × ((other : String)
        → other ≢ "laptop"
        → (match_api_key library "qfn_1" world).1 ≡ some other
        → after ≡ some other)
unfolding revoke_api_key revoke_from mutate load save identity_of
match-revoke_api_key_example =
    match-revoke_api_key library written "laptop" "qfn_1" payload world (saved without_laptop) none
      0 decrypts refl (λ e. cc) (inl refl) refl refl

abbrev with_password : Payload
with_password = record payload { pw_salt = 1 ∷ 2 ∷ []; pw_hash = codes "pw" ++ 1 ∷ 2 ∷ [] }

verify-set_password_example :
    (verify_password library "pv"
      (record (saved with_password) { cache = some payload; cache_mod = 5 })).1
    ≡ ((codes "pw" ++ 1 ∷ 2 ∷ []) == (codes "pv" ++ 1 ∷ 2 ∷ []))
unfolding set_password set_from mutate load_or_first or_first load save identity_of
verify-set_password_example =
    verify-set_password library written (1 ∷ 2 ∷ []) "pw" "pv" world (saved with_password)
      (some payload) 5 decrypts refl (λ e. omega (arith, e)) (inr (omega arith)) refl
