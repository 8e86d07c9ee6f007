-- ===== src/Auth/Store/Keys.antt =====
-- The named API keys: a key that was added is matched by every process, a key that was revoked by
-- none, and what a write that fails leaves behind.
use qfn_pgx.Base.{
  ℕ, ◌<◌, ◌≡◌, refl, ◌≢◌, ◌⊎◌, inl, inr, Bool, true, false, Option, none, some, String, String_eq,
  List, [], ◌∷◌, ◌++◌, arith, eq_iff, Bool-cases, sym, subst, ◌∙◌,
}
use qfn_pgx.Auth.Vault.Monad.{ok, err, ◌>>=◌, bind_ok}
use qfn_pgx.Auth.Vault.{ApiKeyRec, Payload, Library, World, Write, load, save, first_payload}
use qfn_pgx.Auth.Store.{
  valid_key_name, has_name, new_rec, add_api_key, without_name, revoke_api_key, first_match,
  match_api_key, load_or_first, mutate, add_to, revoke_from,
}
use qfn_pgx.Auth.Vault.Disk.{Fits, Decrypts, load-save}

pub first_match-append :
    (h : String) (ks : List ApiKeyRec) (k : ApiKeyRec)
    → first_match h ks ≡ none
    → k.hash ≡ h
    → first_match h (ks ++ k ∷ []) ≡ some k.name
first_match-append h [] k n e = ground (arith, eq_iff k.hash h)
first_match-append h (j ∷ ks) k n e = ground (arith, first_match-append h ks k)

-- Whatever hash is looked for, the keys without a name answer as before if that was another name,
-- and never with the name.
pub first_match-without_name :
    (h name : String) (ks : List ApiKeyRec)
    → ((n : String)
        → first_match h ks ≡ some n
        → n ≢ name
        → first_match h (without_name name ks) ≡ some n)
      × (first_match h (without_name name ks) ≢ some name)
first_match-without_name h name [] = (λ n e d. e, λ e. cc)
first_match-without_name h name (k ∷ ks) =
    let ih = first_match-without_name h name ks in
    (
      λ n e d. ground (arith, ih.0 n, eq_iff k.name name),
      λ e. ground (arith, ih.1, eq_iff k.name name),
    )

abbrev pub with_key : Payload → ApiKeyRec → Payload
with_key p k = record p { api_keys = p.api_keys ++ k ∷ [] }

module _ (L : Library) where
  abbrev AddedTo :
      Option String → ℕ → Write → String → String → Payload × Bool → World L → World L → Type 0
  AddedTo random now f name tok (p, shared) v w' =
      let p' = record p { api_keys = p.api_keys ++ new_rec L name tok now ∷ [] } in
      (has_name name p.api_keys ≡ false)
      × (random ≡ some tok)
      × (save L f p' (mutate L shared p' v).1 ≡ (ok tt, w'))

  add_to-AddedTo :
      (random : Option String) (now : ℕ) (f : Write) (name tok : String) (x : Payload × Bool)
      (v w' : World L)
      → add_to L random now f name x v ≡ (ok tok, w')
      → AddedTo random now f name tok x v w'
  unfolding add_to
  add_to-AddedTo random now f name tok (p, shared) v w' h = ground arith

  add_api_key-bind :
      (random : Option String) (now : ℕ) (f : Write) (name tok : String) (w w' : World L)
      → add_api_key L random now f name w ≡ (ok tok, w')
      → (load_or_first L >>= add_to L random now f name) w ≡ (ok tok, w')
  unfolding add_api_key
  add_api_key-bind random now f name tok w w' h = elim (Bool-cases (valid_key_name name)) [
    | inl valid ↦ rw valid at h
    | inr bad ↦ absurd (cc (rw bad at h))
  ]

  -- The payload that an operation starts from: the loaded one, or a first one.
  unfoldable pub payload_of : World L → Payload
  unfolding load_or_first
  payload_of w = elim (load_or_first L w).0 [ ok (p, shared) ↦ p | err e ↦ first_payload ]

  pub payload_of_lem :
      (w v : World L) (p : Payload) (shared : Bool)
      → load_or_first L w ≡ (ok (p, shared), v)
      → payload_of w ≡ p
  unfolding payload_of
  payload_of_lem w v p shared h = ground arith

  add_api_key-save :
      (random : Option String) (now : ℕ) (f : Write) (name tok : String) (w w' : World L)
      → add_api_key L random now f name w ≡ (ok tok, w')
      → (v : World L) × (has_name name (payload_of w).api_keys ≡ false)
        × (save L f (with_key (payload_of w) (new_rec L name tok now)) v ≡ (ok tt, w'))
  add_api_key-save random now f name tok w w' h =
      let ((p, shared), v, loaded, added) =
        bind_ok (load_or_first L) (add_to L random now f name) w
          (add_api_key-bind random now f name tok w w' h) in
      let a = add_to-AddedTo random now f name tok (p, shared) v w' added in
      rw (payload_of_lem w v p shared loaded)
        ((mutate L shared (with_key p (new_rec L name tok now)) v).1, a.0, a.2)

  pub match_of_load :
      (tok : String) (p : Payload) (w : World L)
      → tok ≢ ""
      → (load L w).0 ≡ ok p
      → (match_api_key L tok w).1 ≡ first_match (L.hash_token tok) p.api_keys
  unfolding match_api_key
  match_of_load tok p w n h = ground (arith, eq_iff tok "")

  -- A key that `AddAPIKey` returned is matched, under its name, by every process whose cache is empty
  -- or older than the file: a running server reloads. The token is not empty, no stored key has its
  -- hash, the new payload fits in the read limit, and age decrypts what it encrypted.
  pub match-add_api_key :
      (random : Option String) (now : ℕ) (f : Write) (name tok : String) (w w' : World L)
      (cache : Option Payload) (cache_mod : ℕ)
      → Decrypts L
      → Fits L (with_key (payload_of w) (new_rec L name tok now))
      → tok ≢ ""
      → first_match (L.hash_token tok) (payload_of w).api_keys ≡ none
      → (cache ≡ none) ⊎ (cache_mod < f.mtime)
      → add_api_key L random now f name w ≡ (ok tok, w')
      → (match_api_key L tok (record w' { cache = cache; cache_mod = cache_mod })).1 ≡ some name
  match-add_api_key random now f name tok w w' cache cache_mod d fits n unused stale h =
      let (v, _, saved) = add_api_key-save random now f name tok w w' h in
      let p' = with_key (payload_of w) (new_rec L name tok now) in
      match_of_load tok p' _ n (load-save L f p' v w' cache cache_mod d fits saved stale)
      ∙ first_match-append (L.hash_token tok) (payload_of w).api_keys (new_rec L name tok now)
          unused refl

  revoke_save :
      (f : Write) (name : String) (p : Payload) (v w' : World L)
      → revoke_from L f name p v ≡ (ok tt, w')
      → save L f
          (record p { api_keys = without_name name p.api_keys })
          (mutate L true (record p { api_keys = without_name name p.api_keys }) v).1
        ≡ (ok tt, w')
  unfolding revoke_from
  revoke_save f name p v w' h = ground arith

  loaded_eq : (p q : Payload) (w v : World L) → load L w ≡ (ok q, v) → (load L w).0 ≡ ok p → q ≡ p
  loaded_eq p q w v h l = ground arith

  revoke_api_key-save :
      (f : Write) (name : String) (p : Payload) (w w' : World L)
      → (load L w).0 ≡ ok p
      → revoke_api_key L f name w ≡ (ok tt, w')
      → (v : World L) × (save L f (record p { api_keys = without_name name p.api_keys }) v
          ≡ (ok tt, w'))
  unfolding revoke_api_key
  revoke_api_key-save f name p w w' l h =
      let (q, v, loaded, rest) = bind_ok (load L) (revoke_from L f name) w h in
      let e = loaded_eq p q w v loaded l in
      (_, revoke_save f name p v w' (subst (λ r. revoke_from L f name r v ≡ (ok tt, w')) e rest))

  -- After a successful `RevokeAPIKey` of a name, every process whose cache is empty or older than the
  -- file does not match a token to that name, and one that was matched to another name before still is. The
  -- token is not empty, the payload without the name fits in the read limit, and age decrypts what it
  -- encrypted.
  pub match-revoke_api_key :
      (f : Write) (name tok : String) (p : Payload) (w w' : World L) (cache : Option Payload)
      (cache_mod : ℕ)
      → Decrypts L
      → Fits L (record p { api_keys = without_name name p.api_keys })
      → tok ≢ ""
      → (cache ≡ none) ⊎ (cache_mod < f.mtime)
      → (load L w).0 ≡ ok p
      → revoke_api_key L f name w ≡ (ok tt, w')
      → let after = (match_api_key L tok (record w' { cache = cache; cache_mod = cache_mod })).1 in
        (after ≢ some name)
        × ((other : String)
            → other ≢ name
            → (match_api_key L tok w).1 ≡ some other
            → after ≡ some other)
  match-revoke_api_key f name tok p w w' cache cache_mod d fits n stale l h =
      let (v, saved) = revoke_api_key-save f name p w w' l h in
      let p' = record p { api_keys = without_name name p.api_keys } in
      let gone = first_match-without_name (L.hash_token tok) name p.api_keys in
      let e = match_of_load tok p' _ n (load-save L f p' v w' cache cache_mod d fits saved stale) in
      (rw e gone.1, λ other o m. rw e (gone.0 other (sym (match_of_load tok p w n l) ∙ m) o))
