-- ===== src/Auth/Vault/Disk.antt =====
-- What `save` leaves on the disk and in the cache, and what `load` finds there afterwards.
use qfn_pgx.Base.{ℕ, ◌<◌, ◌≡◌, ◌⊎◌, Option, none, some, arith, if◌then◌else◌}
use qfn_pgx.Auth.Vault.Monad.{ok}
use qfn_pgx.Auth.Vault.{
  Payload, Library, World, Write, cred_file, read_limit, identity_of, load, save,
}

module _ (L : Library) where
  -- The payload's JSON fits in what `load` reads back, and parses to the payload.
  abbrev pub Fits : Payload → Type 0
  Fits p = L.unmarshal (L.read_limited read_limit (L.marshal p)) ≡ some p

  -- age decrypts what it encrypted to the same identity.
  abbrev pub Decrypts : Type 0
  Decrypts =
      (i : L.Identity) (x : L.Plain) (c : L.Cipher)
      → L.encrypt i x ≡ some c
      → L.decrypt i c ≡ some x

  -- What a successful `save` has done.
  abbrev pub Saved : Write → Payload → World L → World L → Type 0
  Saved f p w w' =
      (id : L.Identity) × (sealed : L.Cipher) × (identity_of L w.key ≡ ok id)
      × (L.encrypt id (L.marshal p) ≡ some sealed)
      × (w' ≡ record w {
        cred = cred_file f.mtime (some sealed);
        cache = some p;
        cache_mod = if f.stat_ok then f.mtime else w.cache_mod;
      })

  pub save-Saved :
      (f : Write) (p : Payload) (w w' : World L) (u : Unit {0})
      → save L f p w ≡ (ok u, w')
      → Saved f p w w'
  unfolding save
  save-Saved f p w w' u h = ground arith

  -- A payload that was saved is the payload that any other process's store loads, whose cache is empty
  -- or older than the file. The library decrypts what it encrypted, and the payload fits.
  pub load-save :
      (f : Write) (p : Payload) (w w' : World L) (cache : Option Payload) (cache_mod : ℕ)
      → Decrypts
      → Fits p
      → save L f p w ≡ (ok tt, w')
      → (cache ≡ none) ⊎ (cache_mod < f.mtime)
      → (load L (record w' { cache = cache; cache_mod = cache_mod })).0 ≡ ok p
  unfolding load
  load-save f p w w' cache cache_mod d fits h stale =
      let s = save-Saved f p w w' tt h in ground (arith, d s.0 (L.marshal p) s.1)
