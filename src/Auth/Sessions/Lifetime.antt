-- ===== src/Auth/Sessions/Lifetime.antt =====
-- How long a session lives: it is out for good once it is revoked, and in as long as it is used.
use qfn_pgx.Base.{
  ℕ, ◌+◌, ◌<◌, ◌≡◌, refl, false, none, some, String, String_eq, ◌==◌, List, [], ◌∷◌, arith, ltb,
  if◌then◌else◌, eq_iff, ◌≢◌,
}
use qfn_pgx.Base.Dict.{lookup, IsMap, lookup-erase_self, lookup-insert_self, erase-IsMap}
use qfn_pgx.Auth.Sessions.{Sessions, create, validate, revoke}
use qfn_pgx.Auth.Sessions.Automaton.{
  Op, create_op, validate_op, revoke_op, len_op, apply, run, session_step, session_run, apply-IsMap,
  idle-apply, run-session_run,
}

module _ (hash_token : String → String) where
  -- No call mints a session of the key.
  abbrev pub NotMinted : String → List Op → Type 0
  NotMinted key [] = Unit
  NotMinted key (create_op now (some tok) ∷ ops) =
      ((hash_token tok == key) ≡ false) × NotMinted key ops
  NotMinted key (create_op now none ∷ ops) = NotMinted key ops
  NotMinted key (validate_op now tok ∷ ops) = NotMinted key ops
  NotMinted key (revoke_op tok ∷ ops) = NotMinted key ops
  NotMinted key (len_op now ∷ ops) = NotMinted key ops

  session_run_dead :
      (idle : ℕ) (key : String) (ops : List Op)
      → NotMinted key ops
      → session_run hash_token idle key ops none ≡ none
  unfolding session_run session_step
  session_run_dead idle key [] h = refl
  session_run_dead idle key (create_op now none ∷ ops) h = session_run_dead idle key ops h
  session_run_dead idle key (create_op now (some tok) ∷ ops) h =
      rw h.0 (session_run_dead idle key ops h.1)
  session_run_dead idle key (validate_op now tok ∷ ops) h =
      ground (arith, session_run_dead idle key ops h)
  session_run_dead idle key (revoke_op tok ∷ ops) h =
      ground (arith, session_run_dead idle key ops h)
  session_run_dead idle key (len_op now ∷ ops) h = session_run_dead idle key ops h

  validate-none :
      (now : ℕ) (tok : String) (s : Sessions)
      → lookup (hash_token tok) s.table ≡ none
      → (validate hash_token now tok s).1 ≡ false
  unfolding validate
  validate-none now tok s h = ground arith

  revoke_gone :
      (tok : String) (s : Sessions) → lookup (hash_token tok) (revoke hash_token tok s).table ≡ none
  unfolding revoke
  revoke_gone tok s = lookup-erase_self (hash_token tok) s.table

  -- A session that is revoked stays out: after `Revoke` of a token and any further calls that mint no
  -- session with its hash, `Validate` of the token fails at every time.
  pub revoked_stays_out :
      (tok : String) (ops : List Op) (now : ℕ) (s : Sessions)
      → IsMap s.table
      → NotMinted (hash_token tok) ops
      → (validate hash_token now tok (run hash_token ops (revoke hash_token tok s))).1 ≡ false
  revoked_stays_out tok ops now s m h = validate-none now tok _ (
      rw
        (
          run-session_run hash_token ops (revoke hash_token tok s) (hash_token tok)
              (unfold revoke in erase-IsMap _ s.table m),
          revoke_gone tok s,
        )
        (session_run_dead _ (hash_token tok) ops h))

  -- The idle expiry of a session that had `exp`, as the calls slide it.
  abbrev pub expiry : ℕ → String → ℕ → List Op → ℕ
  expiry idle key exp [] = exp
  expiry idle key exp (create_op now none ∷ ops) = expiry idle key exp ops
  expiry idle key exp (create_op now (some tok) ∷ ops) =
      expiry idle key (if hash_token tok == key then now + idle else exp) ops
  expiry idle key exp (validate_op now tok ∷ ops) =
      expiry idle key (if tok == "" then exp else if hash_token tok == key then now + idle else exp)
        ops
  expiry idle key exp (revoke_op tok ∷ ops) = expiry idle key exp ops
  expiry idle key exp (len_op now ∷ ops) = expiry idle key exp ops

  -- Every call comes before the expiry that the session has then, and none revokes it.
  abbrev pub IsUsed : ℕ → String → ℕ → List Op → Type 0
  IsUsed idle key exp [] = Unit
  IsUsed idle key exp (create_op now none ∷ ops) = IsUsed idle key exp ops
  IsUsed idle key exp (create_op now (some tok) ∷ ops) =
      (now < exp) × IsUsed idle key (if hash_token tok == key then now + idle else exp) ops
  IsUsed idle key exp (validate_op now tok ∷ ops) =
      (now < exp)
      × IsUsed idle key
          (if tok == "" then exp else if hash_token tok == key then now + idle else exp) ops
  IsUsed idle key exp (revoke_op tok ∷ ops) =
      ((hash_token tok == key) ≡ false) × IsUsed idle key exp ops
  IsUsed idle key exp (len_op now ∷ ops) = (now < exp) × IsUsed idle key exp ops

  step_used :
      (idle now exp : ℕ) (key tok : String)
      → now < exp
      → session_step hash_token idle key (validate_op now tok) (some exp)
        ≡ some (if tok == "" then exp else if hash_token tok == key then now + idle else exp)
  unfolding session_step
  step_used idle now exp key tok h = ground arith

  step_created :
      (idle now exp : ℕ) (key tok : String)
      → now < exp
      → session_step hash_token idle key (create_op now (some tok)) (some exp)
        ≡ some (if hash_token tok == key then now + idle else exp)
  unfolding session_step
  step_created idle now exp key tok h = ground arith

  step_counted :
      (idle now exp : ℕ) (key : String)
      → now < exp
      → session_step hash_token idle key (len_op now) (some exp) ≡ some exp
  unfolding session_step
  step_counted idle now exp key h = ground arith

  step_failed :
      (idle now exp : ℕ) (key : String)
      → session_step hash_token idle key (create_op now none) (some exp) ≡ some exp
  unfolding session_step
  step_failed idle now exp key = refl

  step_revoked :
      (idle exp : ℕ) (key tok : String)
      → (hash_token tok == key) ≡ false
      → session_step hash_token idle key (revoke_op tok) (some exp) ≡ some exp
  unfolding session_step
  step_revoked idle exp key tok h = rw h

  session_run_used :
      (idle : ℕ) (key : String) (ops : List Op) (exp : ℕ)
      → IsUsed idle key exp ops
      → session_run hash_token idle key ops (some exp) ≡ some (expiry idle key exp ops)
  unfolding session_run
  session_run_used idle key [] exp h = refl
  session_run_used idle key (create_op now none ∷ ops) exp h =
      rw (step_failed idle now exp key) (session_run_used idle key ops exp h)
  session_run_used idle key (create_op now (some tok) ∷ ops) exp h =
      rw (step_created idle now exp key tok h.0)
        (session_run_used idle key ops (if hash_token tok == key then now + idle else exp) h.1)
  session_run_used idle key (validate_op now tok ∷ ops) exp h =
      rw (step_used idle now exp key tok h.0) (
        session_run_used idle key ops
          (if tok == "" then exp else if hash_token tok == key then now + idle else exp) h.1)
  session_run_used idle key (revoke_op tok ∷ ops) exp h =
      rw (step_revoked idle exp key tok h.0) (session_run_used idle key ops exp h.1)
  session_run_used idle key (len_op now ∷ ops) exp h =
      rw (step_counted idle now exp key h.0) (session_run_used idle key ops exp h.1)

  validate-some :
      (now exp : ℕ) (tok : String) (s : Sessions)
      → tok ≢ ""
      → lookup (hash_token tok) s.table ≡ some exp
      → (validate hash_token now tok s).1 ≡ ltb now exp
  unfolding validate
  validate-some now exp tok s n h = ground (arith, eq_iff tok "")

  create_entry :
      (now : ℕ) (tok : String) (s : Sessions)
      → lookup (hash_token tok) (create hash_token now (some tok) s).0.table ≡ some (now + s.idle)
  unfolding create
  create_entry now tok s = lookup-insert_self (hash_token tok) (now + s.idle) _

  -- A session that is in use stays in: after `Create` of a token and calls that each come before the
  -- expiry the session then has, none of them revoking it, `Validate` of the token succeeds exactly
  -- before the expiry that its uses have slid to. The token is not empty.
  pub used_stays_in :
      (tok : String) (ops : List Op) (start now : ℕ) (s : Sessions)
      → IsMap s.table
      → tok ≢ ""
      → IsUsed s.idle (hash_token tok) (start + s.idle) ops
      → (validate hash_token now tok
          (run hash_token ops (create hash_token start (some tok) s).0)).1
        ≡ ltb now (expiry s.idle (hash_token tok) (start + s.idle) ops)
  unfolding apply
  used_stays_in tok ops start now s m n u =
      let key = hash_token tok in
      let s0 = apply hash_token (create_op start (some tok)) s in
      let m0 = apply-IsMap hash_token (create_op start (some tok)) s m in
      let e : lookup key (run hash_token ops s0).table
          ≡ some (expiry s.idle key (start + s.idle) ops) =
        rw
          (
            run-session_run hash_token ops s0 key m0,
            idle-apply hash_token (create_op start (some tok)) s,
            create_entry start tok s,
          )
          (session_run_used s.idle key ops (start + s.idle) u) in
      validate-some now _ tok (run hash_token ops s0) n e
