-- ===== src/Config/Profiles.antt =====
-- internal/profiles/profiles.go: a launch profile, an overlay over the engine's configuration.
pub mod Layers
pub mod Names
use qfn_pgx.Base.{
  ℕ, Bool, true, false, ◌&&◌, ◌||◌, Option, none, some, String, List, [], ◌∷◌, ℕ_eq, ◌==◌, all,
  length, leb,
}
use qfn_pgx.Base.Int.{ℤ}
use qfn_pgx.Base.Bytes.{Text, codes, is_digit}
use qfn_pgx.Config.Types.{Engine}

-- A pointer is an `Option`. `container_name` is `Name_`.
pub record Profile (F : Type 0) : Type 0 where
  pub name : String
  pub description : String
  pub mode : Option String
  pub prefix_cache : Option Bool
  pub exact_topk : Option Bool
  pub ctx : Option ℤ
  pub yarn : Option Bool
  pub mtp : Option ℤ
  pub mtp_adaptive : Option String
  pub seqs : Option ℤ
  pub gpu_mem : Option F
  pub kv_dtype : Option String
  pub prewarm : Option Bool
  pub workers : Option ℤ
  pub read_ahead : Option ℤ
  pub host_embed : Option Bool
  pub cpuset : Option String
  pub extra : Option String
  pub port : Option ℤ
  pub bind : Option String
  pub lockdown : Option Bool
  pub container_mem : Option String
  pub image : Option String
  pub model : Option String
  pub container_name : Option String

-- `set`, `seti`, `setb` and `setf`
abbrev pub set : {A : Type 0} → A → Option A → A
set dst none = dst
set dst (some src) = src

unfoldable pub apply : {F : Type 0} → Profile F → Engine F → Engine F
apply p e = record e {
  mode = set e.mode p.mode;
  prefix_cache = set e.prefix_cache p.prefix_cache;
  exact_topk = set e.exact_topk p.exact_topk;
  ctx = set e.ctx p.ctx;
  yarn = set e.yarn p.yarn;
  mtp = set e.mtp p.mtp;
  mtp_adaptive = set e.mtp_adaptive p.mtp_adaptive;
  seqs = set e.seqs p.seqs;
  gpu_mem = set e.gpu_mem p.gpu_mem;
  kv_dtype = set e.kv_dtype p.kv_dtype;
  prewarm = set e.prewarm p.prewarm;
  workers = set e.workers p.workers;
  read_ahead = set e.read_ahead p.read_ahead;
  host_embed = set e.host_embed p.host_embed;
  cpuset = set e.cpuset p.cpuset;
  extra = set e.extra p.extra;
  port = set e.port p.port;
  bind = set e.bind p.bind;
  lockdown = set e.lockdown p.lockdown;
  container_mem = set e.container_mem p.container_mem;
  image = set e.image p.image;
  model = set e.model p.model;
  name = set e.name p.container_name;
}

unfoldable pub from_engine : {F : Type 0} → String → String → Engine F → Profile F
from_engine name desc e = record {
  name = name;
  description = desc;
  mode = some e.mode;
  prefix_cache = some e.prefix_cache;
  exact_topk = some e.exact_topk;
  ctx = some e.ctx;
  yarn = some e.yarn;
  mtp = some e.mtp;
  mtp_adaptive = some e.mtp_adaptive;
  seqs = some e.seqs;
  gpu_mem = some e.gpu_mem;
  kv_dtype = some e.kv_dtype;
  prewarm = some e.prewarm;
  workers = some e.workers;
  read_ahead = some e.read_ahead;
  host_embed = some e.host_embed;
  cpuset = some e.cpuset;
  extra = some e.extra;
  port = some e.port;
  bind = some e.bind;
  lockdown = some e.lockdown;
  container_mem = some e.container_mem;
  image = some e.image;
  model = some e.model;
  container_name = some e.name;
}

abbrev pub is_lower : ℕ → Bool
is_lower c = leb b'a' c && leb c b'z'

abbrev pub is_name_char : ℕ → Bool
is_name_char c = is_lower c || is_digit c || c == b'.' || c == b'_' || c == b'-'

-- The regular expression `validName`: at most 63 characters after the first.
abbrev pub valid_chars : Text → Bool
valid_chars [] = false
valid_chars (c ∷ s) = (is_lower c || is_digit c) && all is_name_char s && leb (length s) 63

-- `ValidateName(name) == nil`
unfoldable pub validate_name : String → Bool
validate_name name = valid_chars (codes name)
