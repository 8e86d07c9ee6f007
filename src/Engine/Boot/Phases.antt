-- ===== src/Engine/Boot/Phases.antt =====
-- The phases that a boot log goes through.
use qfn_pgx.Base.{
  ℕ, max, ◌≡◌, refl, Bool, true, false, Option, none, some, List, [], ◌∷◌, arith, if◌then◌else◌,
}
use qfn_pgx.Base.Bytes.{Text}
use qfn_pgx.Engine.Boot.{
  phase_ready, phase_failed, rank, BootTracker, Sign, failing, ready, graphs, weights, quiet, sign,
  feed_sign, marker_in, fail_markers, ready_markers, feed, feed_all,
}

-- The phase that a line calls for by itself.
abbrev sign_rank : Sign → ℕ
sign_rank (failing m) = 4
sign_rank (ready m) = 3
sign_rank graphs = 2
sign_rank weights = 1
sign_rank quiet = 0

abbrev is_ready_sign : Sign → Bool
is_ready_sign (ready m) = true
is_ready_sign _ = false

step_rank :
    (progress : Option Text) (b : BootTracker) (s : Sign)
    → rank (feed_sign progress b s).phase
      ≡ (if is_ready_sign s then 3 else max (rank b.phase) (sign_rank s))
unfolding feed_sign
step_rank progress b (failing m) = ground arith
step_rank progress b (ready m) = ground arith
step_rank progress b graphs = ground arith
step_rank progress b weights = ground arith
step_rank progress b quiet = ground arith

-- The furthest phase of the lines after the last one that says "ready", seen from a rank.
abbrev pub furthest : ℕ → List Sign → ℕ
furthest r [] = r
furthest r (s ∷ ss) = furthest (if is_ready_sign s then 3 else max r (sign_rank s)) ss

abbrev pub signs : List Text → List Sign
signs [] = []
signs (l ∷ ls) = sign l ∷ signs ls

-- The phase after a log is the furthest that a line has called for since the last line with a ready
-- marker, which sets it to "ready" whatever was before: no other line lowers the phase, and of two
-- logs with the same signs the phase is the same.
pub rank-feed_all :
    (shard_progress : Text → Option Text) (b : BootTracker) (lines : List Text)
    → rank (feed_all shard_progress b lines).phase ≡ furthest (rank b.phase) (signs lines)
unfolding feed_all feed
rank-feed_all sp b [] = refl
rank-feed_all sp b (l ∷ ls) =
    rw (rank-feed_all sp (feed_sign (sp l) b (sign l)) ls, step_rank (sp l) b (sign l))

-- "failed" is not terminal: a line that has no fail marker and a ready marker takes a failed tracker
-- to "ready".
pub failed_not_terminal :
    (shard_progress : Text → Option Text) (b : BootTracker) (line m : Text)
    → b.phase ≡ phase_failed
    → marker_in line fail_markers ≡ none
    → marker_in line ready_markers ≡ some m
    → (feed shard_progress b line).phase ≡ phase_ready
unfolding feed sign feed_sign
failed_not_terminal sp b line m h nf r = rw (nf, r)
