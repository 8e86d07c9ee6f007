-- ===== src/Auth/Store/FirstRun.antt =====
-- `EnsureFirstRun` and `ensureIdentity` of internal/auth/credentials.go. A key file whose text was read
-- but whose mode cannot be had is not told apart from one that cannot be read.
use qfn_pgx.Base.{
  Bool, true, false, Option, none, some, String, String_eq, ◌==◌, List, ℕ, if◌then◌else◌,
}
use qfn_pgx.Auth.Vault.Monad.{
  no_random, not_private, unreadable, bad_identity, cannot_write, Result, ok, err, Act, pure, lift,
  or_raise, guard, modify, ◌>>=◌, ◌>>◌,
}
use qfn_pgx.Auth.Vault.{
  Payload, Library, World, Write, KeyFile, key_absent, key_unstatable, key_file, save,
}
use qfn_pgx.Auth.Store.{load_or_first, mutate}

-- What the system answers: `MkdirAll`, the new identity, and the writing of its file.
pub record Setup (I : Type 0) : Type 0 where
  pub mkdir_ok : Bool
  pub generated : Option I
  pub key_written : Bool

module _ (L : Library) where
  open L use {Identity, hash_password}

  -- `ensureIdentity` after `MkdirAll`, on what is at the path of the key.
  at_key : Setup Identity → KeyFile Identity → Act (World L) (Unit {0})
  at_key a key_absent = do
    id ← lift (or_raise no_random a.generated)
    guard a.key_written cannot_write
    modify (λ w. record w { key = key_file true true (some id) })
  at_key a key_unstatable = guard false unreadable
  at_key a (key_file private readable parsed) = do
    guard readable unreadable
    guard private not_private
    id ← lift (or_raise bad_identity parsed)
    pure tt

  unfoldable pub ensure_identity : Setup Identity → Act (World L) (Unit {0})
  unfolding at_key
  ensure_identity a w = (guard a.mkdir_ok cannot_write >> at_key a w.key) w

  -- The new password, where one is given.
  first_password : Option (List ℕ) → String → Payload → Result Payload
  first_password salt pw p = if pw == "" then ok p else elim salt [
    | none ↦ err no_random
    | some s ↦ ok (record p { pw_salt = s; pw_hash = hash_password pw s })
  ]

  first_engine_key : Option String → Payload → Result Payload
  first_engine_key random p =
      if p.engine_key == ""
      then elim random [ none ↦ err no_random | some k ↦ ok (record p { engine_key = k }) ]
      else ok p

  unfoldable pub ensure_first_run :
      Setup Identity → Option (List ℕ) → Option String → Write → String → Act (World L) (Unit {0})
  unfolding ensure_identity first_password first_engine_key load_or_first mutate
  ensure_first_run a salt random f pw = do
    ensure_identity a
    (p, shared) ← load_or_first L
    p1 ← lift (first_password salt pw p)
    mutate L shared p1
    p2 ← lift (first_engine_key random p1)
    mutate L shared p2
    save L f p2
