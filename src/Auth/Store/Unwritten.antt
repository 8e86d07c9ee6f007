-- ===== src/Auth/Store/Unwritten.antt =====
-- A failed write: the change stays in the memory of the process, through the cached payload.
use qfn_pgx.Base.{ℕ, ◌≡◌, refl, ◌≢◌, true, false, none, some, String, String_eq, arith, ◌∙◌}
use qfn_pgx.Auth.Vault.Monad.{ok, err, cannot_write}
use qfn_pgx.Auth.Vault.{Payload, Library, World, Write, identity_of, load, save}
use qfn_pgx.Auth.Store.{valid_key_name, has_name, new_rec, add_api_key, first_match, match_api_key}
use qfn_pgx.Auth.Store.Keys.{with_key, match_of_load, first_match-append}

module _ (L : Library) where
  -- After a successful `load` the key and the file are what they were, and the cache answers.
  load_after :
      (p q : Payload) (w : World L)
      → (load L w).0 ≡ ok p
      → ((load L w).1.key ≡ w.key)
        × ((load L w).1.cred ≡ w.cred)
        × ((load L (record ((load L w).1) { cache = some q })).0 ≡ ok q)
  unfolding load
  load_after p q w h = ground arith

  add_api_key-unwritten :
      (now : ℕ) (f : Write) (name tok : String) (p : Payload) (w v : World L) (id : L.Identity)
      (c : L.Cipher)
      → valid_key_name name ≡ true
      → load L w ≡ (ok p, v)
      → has_name name p.api_keys ≡ false
      → identity_of L v.key ≡ ok id
      → L.encrypt id (L.marshal (with_key p (new_rec L name tok now))) ≡ some c
      → f.write_ok ≡ false
      → add_api_key L (some tok) now f name w
        ≡ (err cannot_write, record v { cache = some (with_key p (new_rec L name tok now)) })
  unfolding add_api_key save
  add_api_key-unwritten now f name tok p w v id c valid l new i e bad = ground arith

  loaded_pair : (p : Payload) (w : World L) → (load L w).0 ≡ ok p → load L w ≡ (ok p, (load L w).1)
  loaded_pair p w h = ground arith

  -- A write that fails does not undo the change in memory: if `AddAPIKey` finds the file, and only
  -- the write of the new one fails, it reports the failure, and this process still matches the token
  -- to the name. The token is not empty and no stored key has its hash.
  pub add_api_key-unwritten_matches :
      (now : ℕ) (f : Write) (name tok : String) (p : Payload) (w : World L) (id : L.Identity)
      (c : L.Cipher)
      → tok ≢ ""
      → valid_key_name name ≡ true
      → (load L w).0 ≡ ok p
      → has_name name p.api_keys ≡ false
      → first_match (L.hash_token tok) p.api_keys ≡ none
      → identity_of L w.key ≡ ok id
      → L.encrypt id (L.marshal (with_key p (new_rec L name tok now))) ≡ some c
      → f.write_ok ≡ false
      → let (r, w') = add_api_key L (some tok) now f name w in
        (r ≡ err cannot_write) × (w'.cred ≡ w.cred) × ((match_api_key L tok w').1 ≡ some name)
  add_api_key-unwritten_matches now f name tok p w id c n valid l new unused i e bad =
      let v = (load L w).1 in
      let p' = with_key p (new_rec L name tok now) in
      let kept = load_after p p' w l in
      let done =
        add_api_key-unwritten now f name tok p w v id c valid (loaded_pair p w l) new (rw kept.0 i)
          e bad in
      rw done (
        refl,
        kept.1,
        match_of_load L tok p' (record v { cache = some p' }) n kept.2
            ∙ first_match-append (L.hash_token tok) p.api_keys (new_rec L name tok now) unused refl,
      )
