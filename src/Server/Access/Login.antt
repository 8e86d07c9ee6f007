-- ===== src/Server/Access/Login.antt =====
-- Logging in and out through the gate.
use qfn_pgx.Base.{
  ℕ, ◌+◌, ◌<◌, ◌≡◌, ◌≢◌, ◌∙◌, Bool, true, false, Option, none, some, String, String_eq, [], arith,
  eq_iff, Bool-cases, inl, inr, ltb, if◌then◌else◌,
}
use qfn_pgx.Base.Dict.{IsMap}
use qfn_pgx.Auth.Limiter.{allow}
use qfn_pgx.Auth.Limiter.Traffic.{asks, fails, Traffic, is_checking, happen}
use qfn_pgx.Auth.Sessions.{create, validate}
use qfn_pgx.Auth.Sessions.Automaton.{run}
use qfn_pgx.Auth.Sessions.Lifetime.{used_stays_in, revoked_stays_out}
use qfn_pgx.Auth.Vault.{World, Library}
use qfn_pgx.Auth.Store.{verify_password}
use qfn_pgx.Server.Access.{
  Access, forwarded, unauthorized, bearer, by_bearer, by_session, by_cookie, auth, locked,
  wrong_password, logged_in, minted, checked, decoded, admitted, h_login, h_logout,
}

ltb_of_lt : (a b : ℕ) → a < b → ltb a b ≡ true
ltb_of_lt a b h = ground arith

module _ (L : Library) where
  -- The body holds the password.
  abbrev pub IsRight : Option String → World L → Type 0
  IsRight none w = ⊥
  IsRight (some pw) w = (verify_password L pw w).1 ≡ true

  decoded_lem :
      (later : ℕ) (written : Bool) (random : Option String) (ip tok : String) (body : Option String)
      (s : Access L)
      → (decoded L later written random ip body s).1 ≡ logged_in tok
      → IsRight body s.store
        × (random ≡ some tok)
        × ((decoded L later written random ip body s).0.sessions
            ≡ (create L.hash_token later (some tok) s.sessions).0)
  unfolding decoded checked minted create
  decoded_lem later written none ip tok (some pw) s h = ground arith
  decoded_lem later written (some t) ip tok (some pw) s h = ground arith
  decoded_lem later written random ip tok none s h = ground arith

  -- `hLogin` gives a session only to an address that `Allow` lets through, for the password, and
  -- the session is the one that `Create` mints.
  pub login_gated :
      (now later : ℕ) (written : Bool) (random : Option String) (ip tok : String)
      (body : Option String) (s : Access L)
      → (h_login L now later written random ip body s).1 ≡ logged_in tok
      → ((allow now ip s.limiter).0 ≡ true)
        × IsRight body s.store
        × (random ≡ some tok)
        × ((h_login L now later written random ip body s).0.sessions
            ≡ (create L.hash_token later (some tok) s.sessions).0)
  unfolding h_login admitted
  login_gated now later written random ip tok body s h =
      ground (arith, decoded_lem later written random ip tok body s)

  -- A login whose body holds a wrong password is to the limiter the two events of an attempt of that address: it
  -- asks at its first reading of the clock and fails at its second, if it was let through, and it is answered
  -- with 401 then and with 429 otherwise. No other login comes in between.
  pub h_login-happen :
      (now later : ℕ) (written : Bool) (random : Option String) (ip pw : String) (s : Access L)
      → (verify_password L pw s.store).1 ≡ false
      → let (s', answer) = h_login L now later written random ip (some pw) s in
        let one : Traffic = record { limiter = s.limiter; checking = [] } in
        (s'.limiter ≡ (happen (fails ip later written) (happen (asks ip now) one)).limiter)
        × (answer ≡ (
            if (allow now ip s.limiter).0
            then wrong_password
            else locked (allow now ip s.limiter).1))
  unfolding h_login admitted decoded checked happen is_checking
  h_login-happen now later written random ip pw s h = elim (Bool-cases (allow now ip s.limiter).0) [
    | inl p ↦ (ground (arith, p, h, eq_iff ip ip), ground (arith, p, h))
    | inr p ↦ (ground (arith, p, h), ground (arith, p, h))
  ]

  by_cookie_live :
      (now : ℕ) (c tok : String) (s : Access L)
      → (validate L.hash_token now c s.sessions).1 ≡ true
      → (by_cookie L now (some c) tok s).1 ≡ forwarded none true
  unfolding by_cookie by_session
  by_cookie_live now c tok s h = ground arith

  by_cookie_dead :
      (now : ℕ) (c : String) (s : Access L)
      → (validate L.hash_token now c s.sessions).1 ≡ false
      → (by_cookie L now (some c) "" s).1 ≡ unauthorized
  unfolding by_cookie by_session by_bearer
  by_cookie_dead now c s h = ground arith

  -- The cookie that a login set takes a later request through, without a name, before the session's
  -- idle time is over. The token is not empty.
  pub auth-h_login :
      (now later t : ℕ) (written : Bool) (random : Option String) (ip tok : String)
      (body : Option String) (s : Access L) (authorization : String) (client : Option String)
      → IsMap s.sessions.table
      → tok ≢ ""
      → (h_login L now later written random ip body s).1 ≡ logged_in tok
      → t < later + s.sessions.idle
      → (auth L t true
          (record { cookie = some tok; authorization = authorization; client = client })
          (h_login L now later written random ip body s).0).1
        ≡ forwarded none true
  unfolding auth run
  auth-h_login now later t written random ip tok body s authorization client m n h before =
      let g = login_gated now later written random ip tok body s h in
      let live = used_stays_in L.hash_token tok [] later t s.sessions m n tt in
      by_cookie_live t tok _ _ (rw g.3 (live ∙ ltb_of_lt t _ before))

  -- After a logout, the cookie takes no request through that brings no bearer token, at any time.
  pub auth-h_logout :
      (t : ℕ) (tok : String) (client from : Option String) (authorization : String) (s : Access L)
      → IsMap s.sessions.table
      → bearer authorization ≡ ""
      → (auth L t true
          (record { cookie = some tok; authorization = authorization; client = client })
          (h_logout L
            (record { cookie = some tok; authorization = authorization; client = from })
            s)).1
        ≡ unauthorized
  unfolding auth h_logout run
  auth-h_logout t tok client from authorization s m e =
      rw e (by_cookie_dead t tok _ (revoked_stays_out L.hash_token tok [] t s.sessions m tt))
