-- ===== src/Auth/Sessions/Tests.antt =====
-- The sessions on concrete tokens. The hash of a token is the token.
use qfn_pgx.Base.{◌≡◌, refl, some, String, String_eq, List, [], ◌∷◌}
use qfn_pgx.Base.Dict.{lookup}
use qfn_pgx.Auth.Sessions.{Sessions}
use qfn_pgx.Auth.Sessions.Automaton.{
  Op, create_op, validate_op, revoke_op, len_op, run, session_run, run-session_run,
}

abbrev same : String → String
same tok = tok

abbrev sessions : Sessions
sessions = record { table = ("ann", 50) ∷ ("bob", 10) ∷ []; idle = 12 }

abbrev calls : List Op
calls = validate_op 9 "bob" ∷ create_op 20 (some "cy") ∷ revoke_op "ann" ∷ len_op 21 ∷ []

run-session_run_example :
    lookup "bob" (run same calls sessions).table
    ≡ session_run same sessions.idle "bob" calls (lookup "bob" sessions.table)
run-session_run_example = run-session_run same calls sessions "bob" ((refl, tt), (tt, tt))

abbrev uses : List Op
uses = validate_op 9 "dee" ∷ validate_op 15 "dee" ∷ []
