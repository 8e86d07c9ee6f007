-- ===== src/Server/LogBus/Tests.antt =====
-- The pump on a container run that is past its boot.
use qfn_pgx.Base.{ℕ, ◌+◌, ◌≤◌, Option, none, String_eq, List, [], ◌∷◌, ℕ_eq}
use qfn_pgx.Base.Bytes.{Text, codes}
use qfn_pgx.Engine.Boot.{boot_horizon}
use qfn_pgx.Server.LogBus.{new_log_bus, Look, down, up, budget}
use qfn_pgx.Server.LogBus.Budget.{count_if, stale_total, stale_bounded}

abbrev no_progress : Text → Option Text
no_progress line = none

abbrev plain : Text → Text
plain line = line

abbrev crash : Text
crash = codes "CUDA error: 700"

-- The container is up since 5; the pump looks after the horizon.
abbrev visits : List (ℕ × List Text)
visits = (boot_horizon + 9, crash ∷ codes "serving" ∷ []) ∷ (boot_horizon + 20, crash ∷ []) ∷ []

stale_bounded_example :
    stale_total no_progress plain 5 visits new_log_bus + count_if (budget 5 new_log_bus) ≤ 1
stale_bounded_example = stale_bounded no_progress plain 5 visits new_log_bus

abbrev looks : List Look
looks = down ∷ up 7 5 (codes "init_engine" ∷ []) ∷ []
