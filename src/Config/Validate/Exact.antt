-- ===== src/Config/Validate/Exact.antt =====
-- What a valid configuration is, without the order of the checks.
use qfn_pgx.Base.{
  ℕ, ◌≤◌, ◌<◌, ◌≡◌, Bool, true, false, not, ◌⊎◌, ◌↔◌, ◌&&◌, ◌||◌, Option, none, String, String_eq,
  ◌==◌, List, [], ◌∷◌, length, arith, eq_iff, nat_eq,
}
use qfn_pgx.Base.Int.{ℤ, pos, negsuc, lt_int, le_int, eq_int}
use qfn_pgx.Base.Bytes.{codes}
use qfn_pgx.Config.Types.{Engine, Serve, Config, ApiKey, is_loopback_bind}
use qfn_pgx.Config.Adaptive.{valid_adaptive, accepted}
use qfn_pgx.Config.Validate.{
  Invalid, Externals, refuse, outside, docker_size, valid_bind, check_engine, check_access,
  validate,
}

infixr 2 ◌and◌
abbrev ◌and◌ : Type 0 → Type 0 → Type 0
P and Q = P × Q

abbrev Between : ℕ → ℕ → ℤ → Type 0
Between lo hi (pos n) = (lo ≤ n) × (n ≤ hi)
Between lo hi (negsuc n) = ⊥

abbrev Nonnegative : ℤ → Type 0
Nonnegative (pos n) = Unit {0}
Nonnegative (negsuc n) = ⊥

abbrev Positive : ℤ → Type 0
Positive (pos n) = 0 < n
Positive (negsuc n) = ⊥

-- An empty policy, or one of the grammar for an engine that speculates.
abbrev Adaptive : ℤ → String → Type 0
Adaptive mtp s = (s ≡ "") ⊎ (Positive mtp × (accepted (valid_adaptive (codes s)) ≡ true))

abbrev OneOf : String → String → String → Type 0
OneOf a b s = (s ≡ a) ⊎ (s ≡ b)

-- The conditions on the engine's fields up to its binding, before further ones.
abbrev pub EngineIsValid : {F : Type 0} → Externals F → Engine F → Type 0 → Type 0
EngineIsValid x e rest =
    OneOf "nvfp4" "hybrid" e.mode
    and Between 0 4 e.mtp
    and Adaptive e.mtp e.mtp_adaptive
    and Between 1 64 e.seqs
    and (Between 4096 1048576 e.ctx × ((e.yarn ≡ true) ⊎ Between 0 262144 e.ctx))
    and ((x.at_most_zero e.gpu_mem ≡ false) × (x.above_cap e.gpu_mem ≡ false))
    and OneOf "auto" "fp8" e.kv_dtype
    and Between 1 128 e.workers
    and Nonnegative e.read_ahead
    and rest

abbrev IsBind : {F : Type 0} → Externals F → String → Type 0
IsBind x bind = (bind ≡ "localhost") ⊎ (x.is_ip bind ≡ true)

abbrev pub AccessIsValid : {F : Type 0} → Externals F → Engine F → Serve → Type 0
AccessIsValid x e s =
    IsBind x e.bind
    and IsBind x s.bind
    and Between 1 65535 e.port
    and Between 1 65535 s.port
    and (¬ (s.port ≡ e.port))
    and ((e.container_mem ≡ "") ⊎ (docker_size (codes e.container_mem) ≡ true))
    and ((s.require_api_key ≡ false) ⊎ ¬ (s.api_keys ≡ []))
    and ((s.auth_enabled ≡ true) ⊎ (is_loopback_bind s.bind ≡ true))

refuse_iff :
    {P Q : Type 0} (b : Bool) (p : Invalid) (rest : Option Invalid)
    → ((b ≡ false) ↔ P)
    → ((rest ≡ none) ↔ Q)
    → (refuse b p rest ≡ none) ↔ (P × Q)
refuse_iff true p rest f g = ground (arith, f, g)
refuse_iff false p rest f g = ground (arith, f, g)

last_iff : {P : Type 0} (b : Bool) (p : Invalid) → ((b ≡ false) ↔ P) → (refuse b p none ≡ none) ↔ P
last_iff true p f = ground (arith, f)
last_iff false p f = ground (arith, f)

outside_iff : (lo hi : ℕ) (n : ℤ) → (outside lo hi n ≡ false) ↔ Between lo hi n
outside_iff lo hi (pos n) = ground arith
outside_iff lo hi (negsuc n) = ground arith

nonneg_check : (n : ℤ) → (lt_int n (pos 0) ≡ false) ↔ Nonnegative n
nonneg_check (pos n) = ground arith
nonneg_check (negsuc n) = ground arith

neither_check : (a b s : String) → (not (s == a || s == b) ≡ false) ↔ OneOf a b s
neither_check a b s = ground (arith, eq_iff s a, eq_iff s b)

window_iff :
    (y : Bool) (n : ℤ)
    → ((outside 4096 1048576 n ≡ false) × ((lt_int (pos 262144) n && not y) ≡ false))
      ↔ (Between 4096 1048576 n × ((y ≡ true) ⊎ Between 0 262144 n))
window_iff y (pos n) = ground arith
window_iff y (negsuc n) = ground arith

policy_checks :
    (mtp : ℤ) (s : String)
    → (((not (s == "") && le_int mtp (pos 0)) ≡ false)
        × ((not (s == "") && not (accepted (valid_adaptive (codes s)))) ≡ false))
      ↔ Adaptive mtp s
policy_checks (pos n) s = ground (arith, eq_iff s "")
policy_checks (negsuc n) s = ground (arith, eq_iff s "")

-- Two checks of one condition.
refuse_pair_iff :
    {P Q : Type 0} (b c : Bool) (p q : Invalid) (rest : Option Invalid)
    → (((b ≡ false) × (c ≡ false)) ↔ P)
    → ((rest ≡ none) ↔ Q)
    → (refuse b p (refuse c q rest) ≡ none) ↔ (P × Q)
refuse_pair_iff true c p q rest f g = ground (arith, f, g)
refuse_pair_iff false true p q rest f g = ground (arith, f, g)
refuse_pair_iff false false p q rest f g = ground (arith, f, g)

either_iff : (a b : Bool) → ((a || b) ≡ false) ↔ ((a ≡ false) × (b ≡ false))
either_iff a b = ground arith

port_iff : (a b : ℤ) → (eq_int a b ≡ false) ↔ ¬ (a ≡ b)
port_iff (pos a) (pos b) = ground arith
port_iff (pos a) (negsuc b) = ground arith
port_iff (negsuc a) (pos b) = ground arith
port_iff (negsuc a) (negsuc b) = ground arith

keys_iff :
    (r : Bool) (ks : List ApiKey)
    → ((r && nat_eq (length ks) 0) ≡ false) ↔ ((r ≡ false) ⊎ ¬ (ks ≡ []))
keys_iff r [] = ground arith
keys_iff r (k ∷ ks) = ground arith

unless_empty :
    (s : String) (b : Bool) → ((not (s == "") && not b) ≡ false) ↔ ((s ≡ "") ⊎ (b ≡ true))
unless_empty s b = ground (arith, eq_iff s "")

exposed_iff : (a b : Bool) → ((not a && not b) ≡ false) ↔ ((a ≡ true) ⊎ (b ≡ true))
exposed_iff a b = ground arith

module _ {F : Type 0} (x : Externals F) where
  valid_bind_lem : (bind : String) → (not (valid_bind x bind) ≡ false) ↔ IsBind x bind
  unfolding valid_bind
  valid_bind_lem bind = ground (arith, eq_iff bind "localhost")

  check_access_iff : (e : Engine F) (s : Serve) → (check_access x e s ≡ none) ↔ AccessIsValid x e s
  unfolding check_access
  check_access_iff e s = refuse_iff _ _ _ (valid_bind_lem e.bind) (
      refuse_iff _ _ _ (valid_bind_lem s.bind) (
        refuse_iff _ _ _ (outside_iff 1 65535 e.port) (
          refuse_iff _ _ _ (outside_iff 1 65535 s.port) (
            refuse_iff _ _ _ (port_iff s.port e.port) (
              refuse_iff _ _ _ (unless_empty e.container_mem _) (
                refuse_iff _ _ _ (keys_iff s.require_api_key s.api_keys)
                  (last_iff _ _ (exposed_iff s.auth_enabled _))))))))

  check_engine_iff :
      {Q : Type 0} (e : Engine F) (rest : Option Invalid)
      → ((rest ≡ none) ↔ Q)
      → (check_engine x e rest ≡ none) ↔ EngineIsValid x e Q
  unfolding check_engine
  check_engine_iff e rest q = refuse_iff _ _ _ (neither_check "nvfp4" "hybrid" e.mode) (
      refuse_iff _ _ _ (outside_iff 0 4 e.mtp) (
        refuse_pair_iff _ _ _ _ _ (policy_checks e.mtp e.mtp_adaptive) (
          refuse_iff _ _ _ (outside_iff 1 64 e.seqs) (
            refuse_pair_iff _ _ _ _ _ (window_iff e.yarn e.ctx) (
              refuse_iff _ _ _ (either_iff _ _) (
                refuse_iff _ _ _ (neither_check "auto" "fp8" e.kv_dtype) (
                  refuse_iff _ _ _ (outside_iff 1 128 e.workers)
                    (refuse_iff _ _ _ (nonneg_check e.read_ahead) q))))))))

  -- `Validate` finds no error exactly where every field passes the check of its own: the modes, the
  -- numbers, the draft policy and its speculation, the long window with YaRN, the bindings, two different
  -- ports, the memory cap, the named keys where keys are required, and authentication where the console is
  -- bound beyond loopback. The order of the checks does not matter. The fraction of GPU memory need only be
  -- neither at most 0 nor above 0.875 in the comparisons of floats, which a NaN is not either.
  pub validate_exact :
      (c : Config F)
      → (validate x c ≡ none) ↔ EngineIsValid x c.engine (AccessIsValid x c.engine c.serve)
  unfolding validate
  validate_exact c = check_engine_iff c.engine _ (check_access_iff c.engine c.serve)
