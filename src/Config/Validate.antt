-- ===== src/Config/Validate.antt =====
-- internal/config/validate.go: `Validate`. The comparisons of `gpu_mem` and `net.ParseIP` are
-- parameters.
pub mod Exact
use qfn_pgx.Base.{
  ℕ, Bool, true, false, not, ◌&&◌, ◌||◌, Option, none, some, String, String_eq, ◌==◌, List, [], ◌∷◌,
  length, ltb, leb, nat_eq, ℕ_eq,
}
use qfn_pgx.Base.Int.{ℤ, pos, lt_int, le_int, eq_int}
use qfn_pgx.Base.Bytes.{Text, codes, is_digit}
use qfn_pgx.Config.Types.{Engine, Serve, Config, is_loopback_bind}
use qfn_pgx.Config.Adaptive.{valid_adaptive, accepted}

-- The errors of `Validate`, in the order of its checks.
pub data Invalid : Type 0 where
  bad_mode bad_mtp adaptive_without_mtp bad_adaptive bad_seqs bad_ctx ctx_without_yarn : Invalid
  bad_gpu_mem bad_kv_dtype bad_workers bad_read_ahead bad_engine_bind bad_serve_bind : Invalid
  bad_engine_port bad_serve_port same_port bad_container_mem no_api_keys auth_off_exposed : Invalid

pub record Externals (F : Type 0) : Type 0 where
  -- `x <= 0`
  pub at_most_zero : F → Bool
  -- `x > 0.875`
  pub above_cap : F → Bool
  -- `net.ParseIP(bind) != nil`
  pub is_ip : String → Bool

-- `if bad { return problem }`, before what follows.
abbrev pub refuse : Bool → Invalid → Option Invalid → Option Invalid
refuse true problem rest = some problem
refuse false problem rest = rest

-- `n < lo || n > hi`
abbrev pub outside : ℕ → ℕ → ℤ → Bool
outside lo hi n = lt_int n (pos lo) || lt_int (pos hi) n

abbrev is_unit : ℕ → Bool
is_unit c =
    c == b'b'
    || c == b'k'
    || c == b'm'
    || c == b'g'
    || c == b'B'
    || c == b'K'
    || c == b'M'
    || c == b'G'

-- The regular expression `dockerSize`, after its first digit.
unfoldable pub more_digits : Text → Bool
more_digits [] = true
more_digits (c ∷ []) = is_digit c || is_unit c
more_digits (c ∷ d ∷ s) = is_digit c && more_digits (d ∷ s)

-- `dockerSize.MatchString`
unfoldable pub docker_size : Text → Bool
unfolding more_digits
docker_size [] = false
docker_size (c ∷ s) = is_digit c && more_digits s

module _ {F : Type 0} (x : Externals F) where
  unfoldable pub valid_bind : String → Bool
  valid_bind bind = bind == "localhost" || x.is_ip bind

  -- The checks of the engine's fields up to its binding.
  unfoldable pub check_engine : Engine F → Option Invalid → Option Invalid
  check_engine e rest = refuse (not (e.mode == "nvfp4" || e.mode == "hybrid")) bad_mode (
      refuse (outside 0 4 e.mtp) bad_mtp (
        refuse (not (e.mtp_adaptive == "") && le_int e.mtp (pos 0)) adaptive_without_mtp (
          refuse
            (not (e.mtp_adaptive == "") && not (accepted (valid_adaptive (codes e.mtp_adaptive))))
            bad_adaptive
            (refuse (outside 1 64 e.seqs) bad_seqs (
              refuse (outside 4096 1048576 e.ctx) bad_ctx (
                refuse (lt_int (pos 262144) e.ctx && not e.yarn) ctx_without_yarn (
                  refuse (x.at_most_zero e.gpu_mem || x.above_cap e.gpu_mem) bad_gpu_mem (
                    refuse (not (e.kv_dtype == "auto" || e.kv_dtype == "fp8")) bad_kv_dtype (
                      refuse (outside 1 128 e.workers) bad_workers
                        (refuse (lt_int e.read_ahead (pos 0)) bad_read_ahead rest))))))))))

  -- The checks of the bindings, the ports and the access to the console.
  unfoldable pub check_access : Engine F → Serve → Option Invalid
  unfolding valid_bind docker_size
  check_access e s = refuse (not (valid_bind e.bind)) bad_engine_bind (
      refuse (not (valid_bind s.bind)) bad_serve_bind (
        refuse (outside 1 65535 e.port) bad_engine_port (
          refuse (outside 1 65535 s.port) bad_serve_port (
            refuse (eq_int s.port e.port) same_port (
              refuse (not (e.container_mem == "") && not (docker_size (codes e.container_mem)))
                bad_container_mem
                (refuse (s.require_api_key && nat_eq (length s.api_keys) 0) no_api_keys (
                  refuse (not s.auth_enabled && not (is_loopback_bind s.bind)) auth_off_exposed
                    none)))))))

  -- The first invalid field, or `none`.
  unfoldable pub validate : Config F → Option Invalid
  unfolding check_engine check_access
  validate c = check_engine c.engine (check_access c.engine c.serve)
