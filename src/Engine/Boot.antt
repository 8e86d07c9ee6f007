-- ===== src/Engine/Boot.antt =====
-- internal/engine/bootlog.go: `BootTracker` folds the boot log into a phase and a detail.
-- A line is its characters. What the shard-progress expression finds in a line, "8/19", is the
-- parameter `shard_progress`. A time is nanoseconds since the zero time.
pub mod Phases
mod Tests
use qfn_pgx.Base.{
  ℕ, ◌+◌, ◌-◌, ◌*◌, Bool, true, false, not, ◌&&◌, Option, none, some, String, ℕ_eq, ◌==◌, List, [],
  ◌∷◌, ◌++◌, map, ltb, leb, if◌then◌else◌,
}
use qfn_pgx.Base.Bytes.{Text, codes, contains, to_lower}

abbrev pub boot_horizon : ℕ
boot_horizon = 10 * 60 * 1000000000

-- `time.Since(startedAt)` is `now - started_at`.
unfoldable pub past_boot_horizon : ℕ → ℕ → Bool
past_boot_horizon now started_at = not (started_at == 0) && ltb boot_horizon (now - started_at)

pub data Phase : Type 0 where
  phase_created phase_weights phase_graphs phase_ready phase_failed : Phase

unfoldable pub phase_string : Phase → String
phase_string phase_created = "starting"
phase_string phase_weights = "loading weights"
phase_string phase_graphs = "capturing cuda graphs"
phase_string phase_ready = "ready"
phase_string phase_failed = "failed"

abbrev pub rank : Phase → ℕ
rank phase_created = 0
rank phase_weights = 1
rank phase_graphs = 2
rank phase_ready = 3
rank phase_failed = 4

abbrev pub weights_markers : List Text
weights_markers =
    codes "Loading safetensors checkpoint shards"
    ∷ codes "init_engine"
    ∷ codes "Starting vLLM API server"
    ∷ codes "model weights take"
    ∷ []

abbrev pub graphs_markers : List Text
graphs_markers =
    codes "Capturing CUDA graph"
    ∷ codes "Capturing cudagraph"
    ∷ codes "capturing"
    ∷ codes "Graph capturing finished"
    ∷ []

abbrev pub ready_markers : List Text
ready_markers = codes "Application startup complete" ∷ []

abbrev pub fail_markers : List Text
fail_markers =
    codes "Traceback (most recent call last)"
    ∷ codes "OutOfMemoryError"
    ∷ codes "CUDA error:"
    ∷ codes "illegal memory access"
    ∷ codes "Engine core initialization failed"
    ∷ []

-- The first marker of a list that the line contains.
unfoldable pub marker_in : Text → List Text → Option Text
marker_in line [] = none
marker_in line (m ∷ ms) = if contains line m then some m else marker_in line ms

pub record BootTracker : Type 0 where
  pub phase : Phase
  pub detail : Text

abbrev pub new_tracker : BootTracker
new_tracker = record { phase = phase_created; detail = [] }

abbrev pub new_boot_tracker_seeded : Phase → BootTracker
new_boot_tracker_seeded p = record { phase = p; detail = [] }

-- What a line shows: the first of the four lists of markers that has one in it.
pub data Sign : Type 0 where
  failing ready : Text → Sign
  graphs weights quiet : Sign

after_graphs : Option Text → Sign
after_graphs (some m) = weights
after_graphs none = quiet

after_ready : Option Text → Option Text → Sign
unfolding after_graphs
after_ready (some m) w = graphs
after_ready none w = after_graphs w

after_fail : Option Text → Option Text → Option Text → Sign
unfolding after_ready
after_fail (some m) g w = ready m
after_fail none g w = after_ready g w

sign_of : Option Text → Option Text → Option Text → Option Text → Sign
unfolding after_fail
sign_of (some m) r g w = failing m
sign_of none r g w = after_fail r g w

unfoldable pub sign : Text → Sign
unfolding sign_of
sign line =
    sign_of (marker_in line fail_markers) (marker_in line ready_markers)
      (marker_in (to_lower line) (map to_lower graphs_markers)) (marker_in line weights_markers)

-- The detail after a line of the weights, "shards 8/19" if the line tells the progress.
abbrev shard_detail : Option Text → Text → Text
shard_detail none detail = detail
shard_detail (some progress) detail = codes "shards " ++ progress

-- `Feed` on what the line shows.
unfoldable pub feed_sign : Option Text → BootTracker → Sign → BootTracker
feed_sign progress b (failing m) = record { phase = phase_failed; detail = m }
feed_sign progress b (ready m) = record { phase = phase_ready; detail = m }
feed_sign progress b graphs =
    if ltb (rank b.phase) (rank phase_graphs)
    then record { phase = phase_graphs; detail = [] }
    else b
feed_sign progress b weights = record {
  phase = if ltb (rank b.phase) (rank phase_weights) then phase_weights else b.phase;
  detail = shard_detail progress b.detail;
}
feed_sign progress b quiet = b

unfoldable pub feed : (Text → Option Text) → BootTracker → Text → BootTracker
unfolding feed_sign
feed shard_progress b line = feed_sign (shard_progress line) b (sign line)

-- A reader's loop over the lines.
unfoldable pub feed_all : (Text → Option Text) → BootTracker → List Text → BootTracker
feed_all shard_progress b [] = b
feed_all shard_progress b (line ∷ lines) =
    feed_all shard_progress (feed shard_progress b line) lines
