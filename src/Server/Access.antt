-- ===== src/Server/Access.antt =====
-- The login gate of internal/server/server.go: `auth`, `bearer`, `hLogin` and `hLogout`, over the
-- sessions, the limiter and the credentials.
-- A request is what the gate reads of it. A string that is compared is a `String`; of a response the
-- status and the cookie are kept.
pub mod Attribution
pub mod Login
mod Tests
use qfn_pgx.Base.{
  ℕ, Bool, true, false, not, ◌&&◌, Option, none, some, String, String_eq, ℕ_eq, ◌==◌, List, [], ◌∷◌,
  if◌then◌else◌,
}
use Prim.Native.Char.{code}
use qfn_pgx.Base.Bytes.{Text, codes}
use qfn_pgx.Auth.Limiter.{Limiter, allow, fail, success}
use qfn_pgx.Auth.Sessions.{Sessions, create, validate, revoke}
use qfn_pgx.Auth.Vault.{World, Library}
use qfn_pgx.Auth.Store.{front_key, match_api_key, verify_password}
use qfn_pgx.Auth.Vault.Monad.{Result, ok, err}

pub record Access (L : Library) : Type 0 where
  pub sessions : Sessions
  pub limiter : Limiter
  pub store : World L

-- The cookie of the session, the header `Authorization`, or "", and the header `X-Qfn-Client`.
pub record Request : Type 0 where
  pub cookie : Option String
  pub authorization : String
  pub client : Option String

-- `next.ServeHTTP`, with the header `X-Qfn-Client` and whether the context says that the request is
-- authenticated; or 401.
pub data Outcome : Type 0 where
  forwarded : Option String → Bool → Outcome
  unauthorized : Outcome

-- What follows a prefix.
abbrev pub after_prefix : Text → String → Option String
after_prefix [] s = some s
after_prefix (p ∷ ps) String.[] = none
after_prefix (p ∷ ps) (String.◌∷◌ c s) = if code c == p then after_prefix ps s else none

unfoldable pub bearer : String → String
bearer h = elim (after_prefix (codes "Bearer ") h) [ none ↦ "" | some tok ↦ tok ]

-- The answers of `hLogin`: 429 with the time to wait, 400, 401, 500, and 200 with the cookie.
pub data LoginAnswer : Type 0 where
  locked : ℕ → LoginAnswer
  bad_request wrong_password mint_failed : LoginAnswer
  logged_in : String → LoginAnswer

-- The comparison with the front key, in constant time.
is_front_key : String → Result String → Bool
is_front_key tok (err e) = false
is_front_key tok (ok fk) = not (fk == "") && tok == fk

module _ (L : Library) where
  open L use {hash_token}

  -- The named keys.
  by_api_key : World L × Option String → Access L → Access L × Outcome
  by_api_key (w, none) s = (record s { store = w }, unauthorized)
  by_api_key (w, some name) s = (record s { store = w }, forwarded (some name) true)

  by_front_key : String → Result String × World L → Access L → Access L × Outcome
  unfolding is_front_key by_api_key
  by_front_key tok (r, w) s =
      if is_front_key tok r
      then (record s { store = w }, forwarded (some "front-key") true)
      else by_api_key (match_api_key L tok w) s

  unfoldable pub by_bearer : String → Access L → Access L × Outcome
  unfolding by_front_key
  by_bearer tok s =
      if tok == "" then (s, unauthorized) else by_front_key tok (front_key L s.store) s

  by_session : Sessions × Bool → String → Access L → Access L × Outcome
  by_session (t, true) tok s = (record s { sessions = t }, forwarded none true)
  by_session (t, false) tok s = by_bearer tok (record s { sessions = t })

  by_cookie : ℕ → Option String → String → Access L → Access L × Outcome
  unfolding by_session
  by_cookie now none tok s = by_bearer tok s
  by_cookie now (some c) tok s = by_session (validate hash_token now c s.sessions) tok s

  -- The middleware `auth`: the client's name is what it assigns, never the one that the request has.
  unfoldable pub auth : ℕ → Bool → Request → Access L → Access L × Outcome
  unfolding by_cookie bearer
  auth now auth_enabled r s =
      if not auth_enabled
      then (s, forwarded none false)
      else by_cookie now r.cookie (bearer r.authorization) s

  minted : Sessions × Option String → Access L → Access L × LoginAnswer
  minted (t, none) s = (record s { sessions = t }, mint_failed)
  minted (t, some tok) s = (record s { sessions = t }, logged_in tok)

  checked : ℕ → Bool → Option String → String → World L × Bool → Access L → Access L × LoginAnswer
  unfolding minted
  checked later written random ip (w, false) s =
      (record s { store = w; limiter = fail later written ip s.limiter }, wrong_password)
  checked later written random ip (w, true) s =
      minted (create hash_token later random s.sessions)
        (record s { store = w; limiter = success written ip s.limiter })

  decoded : ℕ → Bool → Option String → String → Option String → Access L → Access L × LoginAnswer
  unfolding checked
  decoded later written random ip none s = (s, bad_request)
  decoded later written random ip (some pw) s =
      checked later written random ip (verify_password L pw s.store) s

  admitted :
      Bool × ℕ
      → ℕ
      → Bool
      → Option String
      → String
      → Option String
      → Access L
      → Access L × LoginAnswer
  unfolding decoded
  admitted (false, retry) later written random ip body s = (s, locked retry)
  admitted (true, retry) later written random ip body s = decoded later written random ip body s

  -- `hLogin` for an address and what its body decodes to, at the time of `Allow` and at the later one
  -- of `Fail` or `Create`. `written` is the outcome of writing the lockouts, `random` the new token.
  unfoldable pub h_login :
      ℕ → ℕ → Bool → Option String → String → Option String → Access L → Access L × LoginAnswer
  unfolding admitted
  h_login now later written random ip body s =
      admitted (allow now ip s.limiter) later written random ip body s

  unfoldable pub h_logout : Request → Access L → Access L
  h_logout r s = elim r.cookie [
    | none ↦ s
    | some c ↦ record s { sessions = revoke hash_token c s.sessions }
  ]
