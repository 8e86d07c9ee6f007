-- ===== src/Server/Ops/Exclusion.antt =====
-- Without restarts the manager's lock keeps two requests from being in work at once.
use qfn_pgx.Base.{zero, suc, ◌≤◌, ◌≡◌, false, none, some, List, [], ◌∷◌, length, arith, subst, sym}
use qfn_pgx.Engine.Manager.{Manager, is_busy, try_begin, finish}
use qfn_pgx.Server.Ops.{
  up, down, restart, Job, preparing, prepared, restarting, stopping, launching, Console, engine_op,
  job_step, advance, Action, request, progress, act, run,
}

-- The one job that may be there holds the lock; with none, nobody does.
abbrev Holds : Console → Job → Type 0
Holds c (preparing restart op) = ⊥
Holds c (preparing kind op) = (c.manager.busy ≡ some op) × (op.done ≡ false)
Holds c (restarting op) = ⊥
Holds c (stopping op (some next)) = ⊥
Holds c (stopping op none) = (c.manager.busy ≡ some op) × (op.done ≡ false)
Holds c (launching op) = (c.manager.busy ≡ some op) × (op.done ≡ false)

abbrev pub IsSerial : Console → List Job → Type 0
IsSerial c [] = is_busy c.manager.busy ≡ false
IsSerial c (j ∷ []) = Holds c j
IsSerial c (j ∷ k ∷ js) = ⊥

abbrev pub NoRestart : Action → Type 0
NoRestart (request now restart) = ⊥
NoRestart (request now kind) = Unit
NoRestart (progress now result i) = Unit

act-IsSerial :
    (a : Action) (m : Manager) (js : List Job)
    → NoRestart a
    → IsSerial (record { manager = m; jobs = js }) js
    → let c = act a (record { manager = m; jobs = js }) in IsSerial c c.jobs
unfolding act engine_op try_begin finish advance job_step prepared
act-IsSerial (request now up) m [] n s = ground arith
act-IsSerial (request now down) m [] n s = ground arith
act-IsSerial (request now restart) m js n s = absurd n
act-IsSerial (request now up) m (preparing up op ∷ []) n s = ground arith
act-IsSerial (request now down) m (preparing up op ∷ []) n s = ground arith
act-IsSerial (request now up) m (preparing down op ∷ []) n s = ground arith
act-IsSerial (request now down) m (preparing down op ∷ []) n s = ground arith
act-IsSerial (request now up) m (stopping op none ∷ []) n s = ground arith
act-IsSerial (request now down) m (stopping op none ∷ []) n s = ground arith
act-IsSerial (request now up) m (launching op ∷ []) n s = ground arith
act-IsSerial (request now down) m (launching op ∷ []) n s = ground arith
act-IsSerial (progress now result i) m [] n s = s
act-IsSerial (progress now none zero) m (preparing up op ∷ []) n s = s
act-IsSerial (progress now none zero) m (preparing down op ∷ []) n s = s
act-IsSerial (progress now (some e) zero) m (preparing up op ∷ []) n s = ground arith
act-IsSerial (progress now (some e) zero) m (preparing down op ∷ []) n s = ground arith
act-IsSerial (progress now result zero) m (stopping op none ∷ []) n s = ground arith
act-IsSerial (progress now result zero) m (launching op ∷ []) n s = ground arith
act-IsSerial (progress now result (suc i)) m (preparing up op ∷ []) n s = s
act-IsSerial (progress now result (suc i)) m (preparing down op ∷ []) n s = s
act-IsSerial (progress now result (suc i)) m (stopping op none ∷ []) n s = s
act-IsSerial (progress now result (suc i)) m (launching op ∷ []) n s = s
act-IsSerial a m (preparing restart op ∷ []) n s = absurd s
act-IsSerial a m (restarting op ∷ []) n s = absurd s
act-IsSerial a m (stopping op (some next) ∷ []) n s = absurd s
act-IsSerial a m (j ∷ k ∷ js) n s = absurd s

abbrev pub AllNoRestart : List Action → Type 0
AllNoRestart [] = Unit
AllNoRestart (a ∷ as') = NoRestart a × AllNoRestart as'

run-IsSerial :
    (as' : List Action) (c : Console)
    → AllNoRestart as'
    → IsSerial c c.jobs
    → IsSerial (run as' c) (run as' c).jobs
unfolding run
run-IsSerial [] c n s = s
run-IsSerial (a ∷ as') c n s =
    run-IsSerial as' (act a c) n.1 (act-IsSerial a c.manager c.jobs n.0 s)

serial_at_most_one : (c : Console) (js : List Job) → IsSerial c js → length js ≤ 1
serial_at_most_one c [] s = omega arith
serial_at_most_one c (j ∷ []) s = omega arith
serial_at_most_one c (j ∷ k ∷ js) s = absurd s

-- From an idle console, whatever "up" and "down" requests come, at whatever moments, and however the
-- handlers and goroutines are scheduled and fail, at most one request is past its `TryBegin` and not
-- yet done, in its preparation or in its goroutine; and while none is, the manager is free for the next.
pub one_at_a_time :
    (as' : List Action) (c : Console)
    → AllNoRestart as'
    → c.jobs ≡ []
    → is_busy c.manager.busy ≡ false
    → (length (run as' c).jobs ≤ 1)
      × ((run as' c).jobs ≡ [] → is_busy (run as' c).manager.busy ≡ false)
one_at_a_time as' c n e idle =
    let s = run-IsSerial as' c n (subst (IsSerial c) (sym e) idle) in
    (serial_at_most_one (run as' c) (run as' c).jobs s, λ q. subst (IsSerial (run as' c)) q s)
