-- ===== src/Server/Ops/Restart.antt =====
-- A restart gives the lock up halfway: its `Down` finishes the operation of the restart itself.
use qfn_pgx.Base.{ℕ, ◌+◌, ◌≡◌, false, Option, none, String, [], ◌∷◌, arith, ℕ_eq}
use qfn_pgx.Engine.Manager.{OpInfo, is_busy, try_begin, finish, last_op}
use qfn_pgx.Server.Ops.{
  up, restart, launching, preparing, prepared, Console, accepted, engine_op, must_begin, job_step,
  advance, request, progress, act, run,
}

-- On an idle console, after a restart has been accepted and its goroutine has finished its `Down`,
-- with any result and at any times, the console is still to launch the engine for the restart, but
-- a second "up" is not refused: once its preparation succeeds it is accepted too, and then two goroutines
-- launch at once.
pub restart_not_exclusive :
    (c : Console) (t0 t1 t2 t3 t4 t5 : ℕ) (result : Option String)
    → c.jobs ≡ []
    → is_busy c.manager.busy ≡ false
    → let mid =
        run
          (request t0 restart ∷ progress t1 none 0 ∷ progress t2 none 0 ∷ progress t3 result 0 ∷ [])
          c in
      let (later, answer) = engine_op t4 up mid in
      (op : OpInfo) × (second : OpInfo) × (mid.jobs ≡ launching op ∷ [])
      × (answer ≡ none)
      × (later.jobs ≡ launching op ∷ preparing up second ∷ [])
      × ((prepared t5 up none second later.manager).1 ≡ accepted)
      × ((act (progress t5 none 1) later).jobs ≡ launching op ∷ launching second ∷ [])
unfolding run act prepared engine_op job_step advance must_begin try_begin finish last_op
restart_not_exclusive c t0 t1 t2 t3 t4 t5 result e idle =
    let first : OpInfo = record {
      seq = c.manager.op_seq + 1;
      kind = "restart";
      actor = "serve";
      started = t0;
      done_at = 0;
      error = none;
      done = false;
    } in
    let second : OpInfo = record {
      seq = c.manager.op_seq + 1 + 1;
      kind = "up";
      actor = "serve";
      started = t4;
      done_at = 0;
      error = none;
      done = false;
    } in
    (first, second, ground arith, ground arith, ground arith, ground arith, ground arith)
