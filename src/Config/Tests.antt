-- ===== src/Config/Tests.antt =====
-- Configurations, policies and profiles.
use qfn_pgx.Base.{ℕ, ◌≡◌, refl, ◌↔◌, true, ◌||◌, String_eq, ◌==◌, none, some, is_some, ℕ_eq, leb}
use qfn_pgx.Base.Int.{pos}
use qfn_pgx.Base.Bytes.{
  Text, codes, cut, split, trim_space, trim_left, trim_right, atoi, parse_digits, digits_value,
}
use qfn_pgx.Config.Types.{Config, defaults}
use qfn_pgx.Config.Adaptive.{check_part, check_parts, valid_adaptive, adaptive_ranges}
use qfn_pgx.Config.Adaptive.Agreement.{adaptive_ranges_total}
use qfn_pgx.Config.Validate.{Externals, validate}
use qfn_pgx.Config.Validate.Exact.{EngineIsValid, AccessIsValid, validate_exact}
use qfn_pgx.Config.Profiles.{Profile}

abbrev policy : Text
policy = codes "3:1-4, 1:5-16"

adaptive_ranges_total_example : is_some (adaptive_ranges policy) ≡ true
unfolding valid_adaptive check_parts check_part split cut trim_space trim_left trim_right atoi
    parse_digits digits_value
adaptive_ranges_total_example = adaptive_ranges_total policy refl

-- `gpu_mem` in thousandths; one address is an IP.
abbrev externals : Externals ℕ
externals = record {
  at_most_zero = λ n. leb n 0;
  above_cap = λ n. leb 876 n;
  is_ip = λ s. s == "127.0.0.1" || s == "0.0.0.0";
}

abbrev config : Config ℕ
config = defaults 850

validate_exact_example :
    (validate externals config ≡ none)
    ↔ EngineIsValid externals config.engine (AccessIsValid externals config.engine config.serve)
validate_exact_example = validate_exact externals config

-- Nothing set.
abbrev absent : Profile ℕ
absent = record {
  name = "absent";
  description = "";
  mode = none;
  prefix_cache = none;
  exact_topk = none;
  ctx = none;
  yarn = none;
  mtp = none;
  mtp_adaptive = none;
  seqs = none;
  gpu_mem = none;
  kv_dtype = none;
  prewarm = none;
  workers = none;
  read_ahead = none;
  host_embed = none;
  cpuset = none;
  extra = none;
  port = none;
  bind = none;
  lockdown = none;
  container_mem = none;
  image = none;
  model = none;
  container_name = none;
}

abbrev long : Profile ℕ
long = record absent { name = "long"; ctx = some (pos 500000); yarn = some true }

abbrev flags : Profile ℕ
flags = record absent { ctx = some (pos 300000); seqs = some (pos 2) }
