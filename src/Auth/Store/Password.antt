-- ===== src/Auth/Store/Password.antt =====
-- The console password: what was set is what is verified, in every process.
use qfn_pgx.Base.{
  ℕ, ◌<◌, ◌≡◌, ◌⊎◌, ◌≢◌, Bool, false, Option, none, some, String, List, List_eq, ℕ_eq, ◌==◌, length,
  arith, subst, if◌then◌else◌,
}
use qfn_pgx.Auth.Vault.Monad.{ok, bind_ok}
use qfn_pgx.Auth.Vault.{Payload, Library, World, Write, load, save}
use qfn_pgx.Auth.Store.{load_or_first, mutate, set_from, set_password, verify_password}
use qfn_pgx.Auth.Store.Keys.{payload_of, payload_of_lem}
use qfn_pgx.Auth.Vault.Disk.{Fits, Decrypts, load-save}

module _ (L : Library) where
  set_save :
      (f : Write) (salt : List ℕ) (pw : String) (x : Payload × Bool) (v w' : World L)
      → set_from L (some salt) f pw x v ≡ (ok tt, w')
      → (u : World L) × (save L f
            (record (x.0) { pw_salt = salt; pw_hash = L.hash_password pw salt })
            u
          ≡ (ok tt, w'))
  unfolding set_from
  set_save f salt pw (p, shared) v w' h = (
    (mutate L shared (record p { pw_salt = salt; pw_hash = L.hash_password pw salt }) v).1,
    ground arith,
  )

  verify_of_load :
      (pw : String) (p : Payload) (w : World L)
      → (load L w).0 ≡ ok p
      → (verify_password L pw w).1
        ≡ (if length p.pw_hash == 0 then false else p.pw_hash == L.hash_password pw p.pw_salt)
  unfolding verify_password
  verify_of_load pw p w h = ground arith

  -- After a successful `SetPassword`, every process whose cache is empty or older than the file accepts
  -- exactly the passwords that hash, with the new salt, as the one that was set does. The hash is not
  -- empty, the payload that is saved, the stored one with the new salt and hash, fits in the read limit, and
  -- age decrypts what it encrypted.
  pub verify-set_password :
      (f : Write) (salt : List ℕ) (pw attempt : String) (w w' : World L) (cache : Option Payload)
      (cache_mod : ℕ)
      → Decrypts L
      → Fits L (record (payload_of L w) { pw_salt = salt; pw_hash = L.hash_password pw salt })
      → length (L.hash_password pw salt) ≢ 0
      → (cache ≡ none) ⊎ (cache_mod < f.mtime)
      → set_password L (some salt) f pw w ≡ (ok tt, w')
      → (verify_password L attempt (record w' { cache = cache; cache_mod = cache_mod })).1
        ≡ (L.hash_password pw salt == L.hash_password attempt salt)
  unfolding set_password
  verify-set_password f salt pw attempt w w' cache cache_mod d fits n stale h =
      let (x, v, loaded, rest) = bind_ok (load_or_first L) (set_from L (some salt) f pw) w h in
      let (u, saved) = set_save f salt pw x v w' rest in
      let p' = record (x.0) { pw_salt = salt; pw_hash = L.hash_password pw salt } in
      rw
        (verify_of_load attempt p' _ (
          load-save L f p' u w' cache cache_mod d
            (subst (λ r. Fits L (record r { pw_salt = salt; pw_hash = L.hash_password pw salt }))
              (payload_of_lem L w v (x.0) (x.1) loaded) fits)
            saved stale))
        (ground arith)
