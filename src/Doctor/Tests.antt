-- ===== src/Doctor/Tests.antt =====
-- A box in hybrid mode whose variant is not prepared.
use qfn_pgx.Base.{ℕ, ◌≡◌, refl, true, false, not, none, some, [], ◌∷◌, any, String_eq, map}
use qfn_pgx.Base.Bytes.{codes, contains, parse_uint, parse_digits, digits_value}
use qfn_pgx.Config.Types.{Config, Engine, defaults}
use qfn_pgx.Collector.Metrics.{whole}
use qfn_pgx.Doctor.{Host, present, battery, run}
use qfn_pgx.Doctor.Order.{by_urgency}
use qfn_pgx.Doctor.Verdict.{is_bad, is_ready, run_verdict}

abbrev basic : Config ℕ
basic = defaults 0

abbrev hybrid : Engine ℕ
hybrid = record basic.engine { mode = "hybrid" }

abbrev box : Host ℕ
box = record {
  version = some (codes "28.1");
  info = some (codes "{nvidia}");
  image = present;
  base_ref = codes "reg/base@sha256:1";
  base_inspect = none;
  imagetools = λ ref. none;
  digest_of = λ out. none;
  pinned_digest = codes "sha256:1";
  repo_exists = true;
  hybrid_prepared = false;
  free_kb = some 1048576;
  mem_file = some (codes "MemTotal: 134217728 kB\nMemAvailable: 10485760 kB");
  pressure = λ res. none;
  scan_avg10 = λ line. none;
  has_smi = true;
}

run_verdict_example :
    (run whole hybrid [] box true ≡ by_urgency (battery whole hybrid [] box true))
    × (any is_bad (run whole hybrid [] box true) ≡ not (is_ready hybrid box))
run_verdict_example = run_verdict whole hybrid [] box true

reported :
    map (λ c. c.id) (run whole hybrid [] box true)
    ≡ "checkpoint.hybrid" ∷ "disk" ∷ "docker.daemon" ∷ "docker.gpuruntime" ∷ "engine.image"
      ∷ "checkpoint" ∷ "memory" ∷ "pressure" ∷ []
unfolding run contains parse_uint parse_digits digits_value
reported = refl
