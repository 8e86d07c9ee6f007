-- ===== src/Server/Access/Attribution.antt =====
-- Who gets past the gate, and under which name.
use qfn_pgx.Base.{
  ℕ, ◌≡◌, ◌≢◌, ◌⊎◌, Bool, true, Option, none, some, String, String_eq, arith, eq_iff,
}
use qfn_pgx.Auth.Sessions.{Sessions, validate}
use qfn_pgx.Auth.Vault.{World, Library}
use qfn_pgx.Auth.Store.{front_key, match_api_key}
use qfn_pgx.Auth.Vault.Monad.{Result, ok, err}
use qfn_pgx.Server.Access.{
  Access, Request, forwarded, unauthorized, bearer, is_front_key, by_api_key, by_front_key,
  by_bearer, by_session, by_cookie, auth,
}

front_lem :
    (tok : String) (r : Result String) → is_front_key tok r ≡ true → (tok ≢ "") × (r ≡ ok tok)
unfolding is_front_key
front_lem tok (ok fk) h = ground (arith, eq_iff fk "", eq_iff tok fk)
front_lem tok (err e) h = ground arith

front_set : (tok : String) → tok ≢ "" → is_front_key tok (ok tok) ≡ true
unfolding is_front_key
front_set tok n = ground (arith, eq_iff tok "", eq_iff tok tok)

module _ (L : Library) where
  -- The cookie is that of a live session.
  abbrev pub HasSession : ℕ → Option String → Sessions → Type 0
  HasSession now none t = ⊥
  HasSession now (some c) t = (validate L.hash_token now c t).1 ≡ true

  -- The bearer token is the front key, and it is set.
  abbrev pub IsFrontKey : String → World L → Type 0
  IsFrontKey tok w = (tok ≢ "") × ((front_key L w).0 ≡ ok tok)

  -- The bearer token is that of a named key.
  abbrev pub IsApiKey : String → String → World L → Type 0
  IsApiKey tok name w = (tok ≢ "") × ((match_api_key L tok (front_key L w).1).1 ≡ some name)

  -- What entitles a request to go on as a client.
  abbrev pub Entitled : ℕ → Option String → String → Access L → Option String → Type 0
  Entitled now cookie tok s none = HasSession now cookie s.sessions
  Entitled now cookie tok s (some name) =
      ((name ≡ "front-key") × IsFrontKey tok s.store) ⊎ IsApiKey tok name s.store

  by_bearer_sound :
      (now : ℕ) (cookie : Option String) (tok : String) (s : Access L) (client : Option String)
      (b : Bool)
      → (by_bearer L tok s).1 ≡ forwarded client b
      → Entitled now cookie tok s client
  unfolding by_bearer by_front_key by_api_key
  by_bearer_sound now cookie tok s none b h = ground arith
  by_bearer_sound now cookie tok s (some name) b h =
      ground (arith, eq_iff tok "", front_lem tok (front_key L s.store).0)

  by_bearer_complete :
      (now : ℕ) (tok name : String) (s : Access L)
      → Entitled now none tok s (some name)
      → (by_bearer L tok s).1 ≢ unauthorized
  unfolding by_bearer by_front_key by_api_key
  by_bearer_complete now tok name s h = ground (arith, eq_iff tok "", front_set tok)

  by_cookie_sound :
      (now : ℕ) (cookie : Option String) (tok : String) (s : Access L) (client : Option String)
      (b : Bool)
      → (by_cookie L now cookie tok s).1 ≡ forwarded client b
      → Entitled now cookie tok s client
  unfolding by_cookie by_session
  by_cookie_sound now none tok s client b h = by_bearer_sound now none tok s client b h
  by_cookie_sound now (some c) tok s none b h =
      let t = (validate L.hash_token now c s.sessions).0 in
      ground (arith, by_bearer_sound now none tok (record s { sessions = t }) none b)
  by_cookie_sound now (some c) tok s (some name) b h =
      let t = (validate L.hash_token now c s.sessions).0 in
      ground (arith, by_bearer_sound now none tok (record s { sessions = t }) (some name) b)

  by_cookie_complete :
      (now : ℕ) (cookie : Option String) (tok : String) (s : Access L) (client : Option String)
      → Entitled now cookie tok s client
      → (by_cookie L now cookie tok s).1 ≢ unauthorized
  unfolding by_cookie by_session
  by_cookie_complete now none tok s none h = absurd h
  by_cookie_complete now none tok s (some name) h = by_bearer_complete now tok name s h
  by_cookie_complete now (some c) tok s none h = ground arith
  by_cookie_complete now (some c) tok s (some name) h =
      let t = (validate L.hash_token now c s.sessions).0 in
      ground (arith, by_bearer_complete now tok name (record s { sessions = t }) h)

  -- With authentication on, a request goes on only as the client that it is entitled to be: without a
  -- name where its cookie is that of a live session, as "front-key" where its bearer token is
  -- the front key, and as the name of the key that its bearer token matches. The header
  -- `X-Qfn-Client` of the request has no part in it.
  pub auth_sound :
      (now : ℕ) (r : Request) (s : Access L) (client : Option String) (b : Bool)
      → (auth L now true r s).1 ≡ forwarded client b
      → Entitled now r.cookie (bearer r.authorization) s client
  unfolding auth
  auth_sound now r s client b h = by_cookie_sound now r.cookie (bearer r.authorization) s client b h

  -- With authentication on, a request that is entitled to be some client is not refused.
  pub auth_complete :
      (now : ℕ) (r : Request) (s : Access L) (client : Option String)
      → Entitled now r.cookie (bearer r.authorization) s client
      → (auth L now true r s).1 ≢ unauthorized
  unfolding auth
  auth_complete now r s client h =
      by_cookie_complete now r.cookie (bearer r.authorization) s client h
