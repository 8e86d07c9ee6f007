-- ===== src/Engine/Boot/Tests.antt =====
-- The tracker on lines of a log.
use qfn_pgx.Base.{◌≡◌, Option, none, List, [], ◌∷◌}
use qfn_pgx.Base.Bytes.{Text, codes}
use qfn_pgx.Engine.Boot.{rank, new_tracker, feed_all}
use qfn_pgx.Engine.Boot.Phases.{furthest, signs, rank-feed_all}

-- No line tells the progress.
abbrev no_progress : Text → Option Text
no_progress line = none

abbrev log : List Text
log =
    codes "init_engine"
    ∷ codes "Capturing cudagraph 3"
    ∷ codes "Application startup complete"
    ∷ codes "init_engine"
    ∷ codes "CUDA error: 700"
    ∷ []

rank-feed_all_example : rank (feed_all no_progress new_tracker log).phase ≡ furthest 0 (signs log)
rank-feed_all_example = rank-feed_all no_progress new_tracker log

abbrev up_line : Text
up_line = codes "Application startup complete."
