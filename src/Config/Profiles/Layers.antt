-- ===== src/Config/Profiles/Layers.antt =====
-- Layers of configuration: base, profile, flags.
use qfn_pgx.Base.{◌≡◌, refl, Option, none, some, String}
use qfn_pgx.Config.Types.{Engine}
use qfn_pgx.Config.Profiles.{Profile, set, apply, from_engine}

-- `q`'s field where it has one, else `p`'s.
abbrev over : {A : Type 0} → Option A → Option A → Option A
over p none = p
over p (some a) = some a

-- One profile for `p` with `q` over it.
abbrev pub merge : {F : Type 0} → Profile F → Profile F → Profile F
merge p q = record {
  name = q.name;
  description = q.description;
  mode = over p.mode q.mode;
  prefix_cache = over p.prefix_cache q.prefix_cache;
  exact_topk = over p.exact_topk q.exact_topk;
  ctx = over p.ctx q.ctx;
  yarn = over p.yarn q.yarn;
  mtp = over p.mtp q.mtp;
  mtp_adaptive = over p.mtp_adaptive q.mtp_adaptive;
  seqs = over p.seqs q.seqs;
  gpu_mem = over p.gpu_mem q.gpu_mem;
  kv_dtype = over p.kv_dtype q.kv_dtype;
  prewarm = over p.prewarm q.prewarm;
  workers = over p.workers q.workers;
  read_ahead = over p.read_ahead q.read_ahead;
  host_embed = over p.host_embed q.host_embed;
  cpuset = over p.cpuset q.cpuset;
  extra = over p.extra q.extra;
  port = over p.port q.port;
  bind = over p.bind q.bind;
  lockdown = over p.lockdown q.lockdown;
  container_mem = over p.container_mem q.container_mem;
  image = over p.image q.image;
  model = over p.model q.model;
  container_name = over p.container_name q.container_name;
}

set-over : {A : Type 0} (a : A) (p q : Option A) → set (set a p) q ≡ set a (over p q)
set-over a none none = refl
set-over a (some b) none = refl
set-over a none (some c) = refl
set-over a (some b) (some c) = refl

-- Layers are applied in turn: a later profile has the last word on the fields that it sets, and an
-- earlier one keeps the others; two profiles have the effect of the one that merges them.
pub apply-merge :
    {F : Type 0} (p q : Profile F) (e : Engine F) → apply q (apply p e) ≡ apply (merge p q) e
unfolding apply
apply-merge p q e = cc (
  set-over e.mode p.mode q.mode,
  set-over e.prefix_cache p.prefix_cache q.prefix_cache,
  set-over e.exact_topk p.exact_topk q.exact_topk,
  set-over e.ctx p.ctx q.ctx,
  set-over e.yarn p.yarn q.yarn,
  set-over e.mtp p.mtp q.mtp,
  set-over e.mtp_adaptive p.mtp_adaptive q.mtp_adaptive,
  set-over e.seqs p.seqs q.seqs,
  set-over e.gpu_mem p.gpu_mem q.gpu_mem,
  set-over e.kv_dtype p.kv_dtype q.kv_dtype,
  set-over e.prewarm p.prewarm q.prewarm,
  set-over e.workers p.workers q.workers,
  set-over e.read_ahead p.read_ahead q.read_ahead,
  set-over e.host_embed p.host_embed q.host_embed,
  set-over e.cpuset p.cpuset q.cpuset,
  set-over e.extra p.extra q.extra,
  set-over e.port p.port q.port,
  set-over e.bind p.bind q.bind,
  set-over e.lockdown p.lockdown q.lockdown,
  set-over e.container_mem p.container_mem q.container_mem,
  set-over e.image p.image q.image,
  set-over e.model p.model q.model,
  set-over e.name p.container_name q.container_name,
)

-- The snapshot of a configuration, applied to any other, gives the first one back, but for the number
-- of images, which a profile does not carry.
pub apply-from_engine :
    {F : Type 0} (name desc : String) (e e' : Engine F)
    → apply (from_engine name desc e) e' ≡ record e { images = e'.images }
unfolding apply from_engine
apply-from_engine name desc e e' = refl
