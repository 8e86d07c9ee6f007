-- ===== src/Server/Ops/Tests.antt =====
-- The console with an engine to start and to stop.
use qfn_pgx.Base.{◌≤◌, ◌≡◌, refl, false, none, some, List, [], ◌∷◌, length}
use qfn_pgx.Engine.Manager.{OpInfo, new_manager, is_busy}
use qfn_pgx.Server.Ops.{
  launching, preparing, prepared, act, up, down, restart, Console, accepted, engine_op, Action,
  request, progress, run,
}
use qfn_pgx.Server.Ops.Exclusion.{one_at_a_time}
use qfn_pgx.Server.Ops.Restart.{restart_not_exclusive}

abbrev idle : Console
idle = record { manager = new_manager; jobs = [] }

abbrev schedule : List Action
schedule =
    request 1 up
    ∷ request 2 down
    ∷ progress 3 none 0
    ∷ progress 5 none 0
    ∷ request 6 up
    ∷ progress 7 (some "preflight") 0
    ∷ request 8 down
    ∷ []

one_at_a_time_example :
    (length (run schedule idle).jobs ≤ 1)
    × ((run schedule idle).jobs ≡ [] → is_busy (run schedule idle).manager.busy ≡ false)
one_at_a_time_example =
    one_at_a_time schedule idle (tt, (tt, (tt, (tt, (tt, (tt, (tt, tt))))))) refl refl

restart_not_exclusive_example :
    let mid =
      run
        (request 1 restart ∷ progress 2 none 0 ∷ progress 3 none 0 ∷ progress 9 none 0 ∷ [])
        idle in
    let (later, answer) = engine_op 10 up mid in
    (op : OpInfo) × (second : OpInfo) × (mid.jobs ≡ launching op ∷ [])
    × (answer ≡ none)
    × (later.jobs ≡ launching op ∷ preparing up second ∷ [])
    × ((prepared 11 up none second later.manager).1 ≡ accepted)
    × ((act (progress 11 none 1) later).jobs ≡ launching op ∷ launching second ∷ [])
restart_not_exclusive_example = restart_not_exclusive idle 1 2 3 9 10 11 none refl refl
