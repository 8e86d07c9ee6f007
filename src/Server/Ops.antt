-- ===== src/Server/Ops.antt =====
-- The engine operations of internal/server/server.go (`engineOp`, `mustBegin`) over the manager of
-- internal/engine/manager.go (`Up`, `Down`). A request that is past its `TryBegin` is a `Job`: the handler
-- while it resolves the profile, runs the preflight and builds the arguments, then the goroutine that it
-- leaves. What runs between two calls of the manager is one step, so a schedule is a list of actions.
pub mod Exclusion
pub mod Restart
mod Tests
use qfn_pgx.Base.{
  ℕ, zero, suc, ◌+◌, Bool, true, false, Option, none, some, String, List, [], ◌∷◌, ◌++◌,
  if◌then◌else◌,
}
use qfn_pgx.Engine.Manager.{OpInfo, Manager, try_begin, finish, last_op}

-- What a request of `/api/engine/…` asks for.
pub data Kind : Type 0 where
  up down restart : Kind

unfoldable pub kind_name : Kind → String
kind_name up = "up"
kind_name down = "down"
kind_name restart = "restart"

-- Where a request is: in its handler after `TryBegin`, or in its goroutine before its `mustBegin`, in `Down`
-- or in `Up`, with the operation that the call is to finish and, in a restart's `Down`, the operation of
-- the restart.
pub data Job : Type 0 where
  preparing : Kind → OpInfo → Job
  restarting : OpInfo → Job
  stopping : OpInfo → Option OpInfo → Job
  launching : OpInfo → Job

pub record Console : Type 0 where
  pub manager : Manager
  pub jobs : List Job

abbrev pub job_of : Kind → OpInfo → Job
job_of up op = launching op
job_of down op = stopping op none
job_of restart op = restarting op

-- The answers of `engineOp`.
pub data Answer : Type 0 where
  accepted conflict precondition_failed : Answer

-- What `engineOp` does with the result of `TryBegin`: "down" is answered at once, and another operation is
-- still to be prepared, with no answer yet.
begun : Kind → List Job → Manager × Option OpInfo → Console × Option Answer
begun kind jobs (m, none) = (record { manager = m; jobs = jobs }, some conflict)
begun down jobs (m, some op) =
    (record { manager = m; jobs = jobs ++ job_of down op ∷ [] }, some accepted)
begun kind jobs (m, some op) = (record { manager = m; jobs = jobs ++ preparing kind op ∷ [] }, none)

-- A request, up to its `TryBegin`.
unfoldable pub engine_op : ℕ → Kind → Console → Console × Option Answer
unfolding begun kind_name
engine_op now kind c = begun kind c.jobs (try_begin now (kind_name kind) "serve" c.manager)

-- The rest of the handler of "up" and "restart". `failure` is the error of resolving the profile, of the
-- preflight or of building the arguments; without one the goroutine starts.
unfoldable pub prepared :
    ℕ → Kind → Option String → OpInfo → Manager → (Manager × List Job) × Answer
prepared now kind (some e) op m = ((finish now op (some e) m, []), precondition_failed)
prepared now kind none op m = ((m, job_of kind op ∷ []), accepted)

-- `mustBegin` after its `TryBegin`: if that is refused, the last operation is used again.
or_last : OpInfo → Manager × Option OpInfo → Manager × OpInfo
or_last zero_op (m, some op) = (m, op)
or_last zero_op (m, none) = (m, elim (last_op m) [ none ↦ zero_op | some op ↦ op ])

-- `OpInfo{}`
abbrev zero_op : OpInfo
zero_op = record {
  seq = 0;
  kind = "";
  actor = "";
  started = 0;
  done_at = 0;
  error = none;
  done = false;
}

unfoldable pub must_begin : ℕ → Manager → Manager × OpInfo
unfolding or_last
must_begin now m = or_last zero_op (try_begin now (kind_name down) "serve" m)

-- One step of a job, at a time and with the error of its preparation or of its docker commands, if any: what
-- is left of it comes second.
unfoldable pub job_step : ℕ → Option String → Job → Manager → Manager × List Job
unfolding must_begin prepared
job_step now result (preparing kind op) m = (prepared now kind result op m).0
job_step now result (restarting op) m =
    let (m', cur) = must_begin now m in (m', stopping cur (some op) ∷ [])
job_step now result (stopping cur none) m = (finish now cur result m, [])
job_step now result (stopping cur (some op)) m = (finish now cur result m, launching op ∷ [])
job_step now result (launching op) m = (finish now op result m, [])

-- The step of the job at a place, if there is one.
unfoldable pub advance : ℕ → Option String → ℕ → List Job → Manager → Manager × List Job
advance now result i [] m = (m, [])
advance now result zero (j ∷ js) m = let (m', left) = job_step now result j m in (m', left ++ js)
advance now result (suc i) (j ∷ js) m = let (m', js') = advance now result i js m in (m', j ∷ js')

-- A request, or a step of a job.
pub data Action : Type 0 where
  request : ℕ → Kind → Action
  progress : ℕ → Option String → ℕ → Action

unfoldable pub act : Action → Console → Console
act (request now kind) c = (engine_op now kind c).0
act (progress now result i) c =
    let (m, js) = advance now result i c.jobs c.manager in record { manager = m; jobs = js }

unfoldable pub run : List Action → Console → Console
run [] c = c
run (a ∷ as') c = run as' (act a c)
