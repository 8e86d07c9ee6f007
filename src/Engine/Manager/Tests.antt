-- ===== src/Engine/Manager/Tests.antt =====
-- The lock with two goroutines.
use qfn_pgx.Base.{ℕ, false, none, some, List, [], ◌∷◌}
use qfn_pgx.Engine.Manager.{OpInfo, Manager, new_manager}
use qfn_pgx.Engine.Manager.Lock.{Call, begin_call, finish_call}

abbrev op : ℕ → OpInfo
op n = record {
  seq = n;
  kind = "up";
  actor = "cli";
  started = 5;
  done_at = 0;
  error = none;
  done = false;
}

abbrev begun : Manager
begun = record new_manager { busy = some (op 1); op_seq = 1 }

abbrev others : List Call
others = begin_call 6 "down" "serve" ∷ finish_call 7 (op 9) (some "late") ∷ []
