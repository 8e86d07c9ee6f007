-- ===== src/Server/LogBus/Budget.antt =====
-- The swallow budget of a container run: how many tracebacks may be taken for old ones.
use qfn_pgx.Base.{
  ℕ, ◌+◌, ◌≤◌, ◌≡◌, refl, Bool, true, false, not, ◌&&◌, Option, List, [], ◌∷◌, arith, ℕ_eq,
  beq_refl, map,
}
use qfn_pgx.Base.Bytes.{Text}
use qfn_pgx.Engine.Boot.{
  phase_ready, phase_failed, BootTracker, new_boot_tracker_seeded, past_boot_horizon, Sign, failing,
  sign, feed_sign, feed,
}
use qfn_pgx.Server.LogBus.{
  LogBus, Line, up, is_failed, publish, publish_all, scan, budget, first_tracker, round_lines,
  round,
}

abbrev is_failing : Sign → Bool
is_failing (failing m) = true
is_failing _ = false

-- A line with a fail marker that is shown as a phase other than "failed".
abbrev is_stale : Line → Bool
is_stale l = is_failing (sign l.text) && not (is_failed l.phase)

abbrev pub count_if : Bool → ℕ
count_if true = 1
count_if false = 0

abbrev pub stale_count : List Line → ℕ
stale_count [] = 0
stale_count (l ∷ ls) = count_if (is_stale l) + stale_count ls

abbrev pub shows_failed : List Line → Bool
shows_failed [] = false
shows_failed (l ∷ ls) = elim (is_failed l.phase) [ true ↦ true | false ↦ shows_failed ls ]

feed_failing :
    (progress : Option Text) (bt : BootTracker) (s : Sign)
    → is_failing s ≡ true
    → (feed_sign progress bt s).phase ≡ phase_failed
unfolding feed_sign
feed_failing o bt s h = ground arith

module _ (shard_progress : Text → Option Text) (strip_ansi : Text → Text) where
  scan_budget :
      (seeded swallow : Bool) (bt : BootTracker) (lines : List Text)
      → stale_count (scan shard_progress strip_ansi seeded swallow bt lines).0 + count_if swallow
        ≤ count_if (scan shard_progress strip_ansi seeded swallow bt lines).1
  unfolding scan feed
  scan_budget seeded swallow bt [] = omega arith
  scan_budget seeded swallow bt (line ∷ lines) =
      let fed = feed_sign (shard_progress line) bt (sign line) in
      ground (
        arith,
        feed_failing (shard_progress line) bt (sign line),
        scan_budget seeded swallow fed lines,
        scan_budget seeded true (new_boot_tracker_seeded phase_ready) lines,
      )

  scan_failed :
      (seeded swallow : Bool) (bt : BootTracker) (lines : List Text)
      → shows_failed (scan shard_progress strip_ansi seeded swallow bt lines).0 ≡ true
      → (scan shard_progress strip_ansi seeded swallow bt lines).1 ≡ true
  unfolding scan
  scan_failed seeded swallow bt [] h = ground arith
  scan_failed seeded swallow bt (line ∷ lines) h = ground (
    arith,
    scan_failed seeded swallow (feed shard_progress bt line) lines,
    scan_failed seeded true (new_boot_tracker_seeded phase_ready) lines,
  )

  seed-publish_all :
      (ls : List Line) (b : LogBus)
      → ((publish_all ls b).seed_run ≡ b.seed_run)
        × ((publish_all ls b).seed_swallow ≡ b.seed_swallow)
  unfolding publish_all publish
  seed-publish_all [] b = (refl, refl)
  seed-publish_all (l ∷ ls) b = seed-publish_all ls (publish l b)

  -- The lines with a fail marker that the rounds of one container run, at their times and with
  -- their log tails, show as another phase.
  pub stale_total : ℕ → List (ℕ × List Text) → LogBus → ℕ
  stale_total started_at [] b = 0
  stale_total started_at ((now, lines) ∷ vs) b =
      stale_count (round_lines shard_progress strip_ansi now started_at lines b).0
      + stale_total started_at vs (round shard_progress strip_ansi (up now started_at lines) b)

  -- A container run has one swallow: over all the rounds of the pump that look at it, across
  -- re-attaches and whenever they are, at most one line with a fail marker is shown as another
  -- phase, and none is once the budget is spent.
  pub stale_bounded :
      (started_at : ℕ) (visits : List (ℕ × List Text)) (b : LogBus)
      → stale_total started_at visits b + count_if (budget started_at b) ≤ 1
  unfolding stale_total round round_lines
  stale_bounded started_at [] b = ground arith
  stale_bounded started_at ((now, lines) ∷ vs) b =
      let seeded = past_boot_horizon now started_at in
      let spent =
        scan_budget seeded (budget started_at b) (first_tracker seeded) (map strip_ansi lines) in
      let rest =
        stale_bounded started_at vs (round shard_progress strip_ansi (up now started_at lines) b) in
      ground (arith, spent, rest, beq_refl started_at)

  -- A round that shows the phase "failed" spends the budget of its container run.
  pub failure_spends :
      (now started_at : ℕ) (lines : List Text) (b : LogBus)
      → shows_failed (round_lines shard_progress strip_ansi now started_at lines b).0 ≡ true
      → budget started_at (round shard_progress strip_ansi (up now started_at lines) b) ≡ true
  unfolding round round_lines
  failure_spends now started_at lines b h =
      let seeded = past_boot_horizon now started_at in
      ground (
        arith,
        beq_refl started_at,
        scan_failed seeded (budget started_at b) (first_tracker seeded) (map strip_ansi lines) h,
      )
