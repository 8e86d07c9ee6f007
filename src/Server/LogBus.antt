-- ===== src/Server/LogBus.antt =====
-- internal/server/logbus.go: the ring of log lines and the status of `logBus`, and the rounds of its
-- pump `run`. The percentage, the ETA and the start epoch of a status, which are floats, and the
-- channels of the subscribers are left out. `strip_ansi` is the replacement by the expression `ansiRE`.
pub mod Budget
pub mod Story
mod Tests
use qfn_pgx.Base.{
  ℕ, ◌+◌, Bool, true, false, not, ◌&&◌, Option, none, some, String, String_eq, ℕ_eq, ◌==◌, List, [],
  ◌∷◌, ◌++◌, map, if◌then◌else◌,
}
use qfn_pgx.Base.Bytes.{Text}
use qfn_pgx.Base.Ring.{push}
use qfn_pgx.Engine.Boot.{
  Phase, phase_created, phase_weights, phase_graphs, phase_ready, phase_failed, phase_string,
  BootTracker, new_tracker, new_boot_tracker_seeded, past_boot_horizon, feed,
}

abbrev pub ring_lines : ℕ
ring_lines = 800

pub record Status : Type 0 where
  pub phase : String
  pub detail : Text
  pub running : Bool
  pub fail_hint : Text

pub record LogBus : Type 0 where
  pub buf : List Text
  pub st : Status
  pub seed_run : ℕ
  pub seed_swallow : Bool

-- `Status{Phase: "down"}`
abbrev pub down_status : Status
down_status = record { phase = "down"; detail = []; running = false; fail_hint = [] }

abbrev pub new_log_bus : LogBus
new_log_bus = record { buf = []; st = down_status; seed_run = 0; seed_swallow = false }

abbrev pub is_failed : Phase → Bool
is_failed phase_failed = true
is_failed _ = false

-- What a round gives to `publish`: a line, and the phase and the detail that it shows.
pub record Line : Type 0 where
  pub text : Text
  pub phase : Phase
  pub detail : Text

unfoldable pub publish : Line → LogBus → LogBus
unfolding phase_string
publish l b = record b {
  buf = push ring_lines l.text b.buf;
  st = record {
    phase = phase_string l.phase;
    detail = l.detail;
    running = true;
    fail_hint = if is_failed l.phase then l.detail else b.st.fail_hint;
  };
}

unfoldable pub publish_all : List Line → LogBus → LogBus
publish_all [] b = b
publish_all (l ∷ ls) b = publish_all ls (publish l b)

unfoldable pub set_running : Bool → LogBus → LogBus
set_running up b =
    if up && not b.st.running
    then record b {
      st = record { phase = "starting"; detail = []; running = true; fail_hint = [] };
    }
    else if not up && not (b.st.phase == "down")
    then record b { st = down_status }
    else b

-- What the container's state lets a round see: up since `started_at`, and the lines of its log, at
-- the time `now`; or not up.
pub data Look : Type 0 where
  down : Look
  up : ℕ → ℕ → List Text → Look

-- The budget that a round starts from: that of the run, new for another run.
abbrev pub budget : ℕ → LogBus → Bool
budget started_at b = if b.seed_run == started_at then b.seed_swallow else false

abbrev pub first_tracker : Bool → BootTracker
first_tracker true = new_boot_tracker_seeded phase_ready
first_tracker false = new_tracker

module _ (shard_progress : Text → Option Text) (strip_ansi : Text → Text) where
  -- The scanner's loop of a round over the stripped lines: what it publishes, and the swallow budget
  -- after it, `true` where it is spent.
  unfoldable pub scan : Bool → Bool → BootTracker → List Text → List Line × Bool
  scan seeded swallow bt [] = ([], swallow)
  scan seeded swallow bt (line ∷ lines) =
      let fed = feed shard_progress bt line in
      elim (seeded && is_failed fed.phase && not swallow) [
        | true ↦
            let (ls, s) = scan seeded true (new_boot_tracker_seeded phase_ready) lines in
            (record { text = line; phase = phase_ready; detail = [] } ∷ ls, s)
        | false ↦ elim (is_failed fed.phase) [
          | true ↦ (record { text = line; phase = fed.phase; detail = fed.detail } ∷ [], true)
          | false ↦
              let (ls, s) = scan seeded swallow fed lines in
              (record { text = line; phase = fed.phase; detail = fed.detail } ∷ ls, s)
        ]
      ]

  -- What a round publishes.
  unfoldable pub round_lines : ℕ → ℕ → List Text → LogBus → List Line × Bool
  round_lines now started_at lines b =
      let seeded = past_boot_horizon now started_at in
      scan seeded (budget started_at b) (first_tracker seeded) (map strip_ansi lines)

  -- A round of `run`, up to its wait.
  unfoldable pub round : Look → LogBus → LogBus
  unfolding round_lines
  round down b = set_running false b
  round (up now started_at lines) b =
      let (ls, spent) = round_lines now started_at lines b in
      record (publish_all ls (set_running true b)) { seed_run = started_at; seed_swallow = spent }

  unfoldable pub rounds : List Look → LogBus → LogBus
  rounds [] b = b
  rounds (k ∷ ks) b = rounds ks (round k b)
