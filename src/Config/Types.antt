-- ===== src/Config/Types.antt =====
-- internal/config/config.go: the configuration tree. A `float64` is the parameter `F`, an `int` an
-- integer.
use qfn_pgx.Base.{Bool, true, false, ◌||◌, String, String_eq, ◌==◌, List, []}
use qfn_pgx.Base.Int.{ℤ, pos}

pub record Paths : Type 0 where
  pub hf_cache : String
  pub state_dir : String

pub record Engine (F : Type 0) : Type 0 where
  pub mode : String
  pub prefix_cache : Bool
  pub exact_topk : Bool
  pub ctx : ℤ
  pub yarn : Bool
  pub mtp : ℤ
  pub mtp_adaptive : String
  pub seqs : ℤ
  pub gpu_mem : F
  pub kv_dtype : String
  pub prewarm : Bool
  pub workers : ℤ
  pub read_ahead : ℤ
  pub host_embed : Bool
  pub cpuset : String
  pub extra : String
  pub port : ℤ
  pub bind : String
  pub lockdown : Bool
  pub container_mem : String
  pub images : ℤ
  pub image : String
  pub model : String
  pub name : String

pub record ApiKey : Type 0 where
  pub key_name : String
  pub key_hash : String
  pub created : String

pub record Serve : Type 0 where
  pub port : ℤ
  pub bind : String
  pub proxy : Bool
  pub max_prompt_tokens : ℤ
  pub auth_enabled : Bool
  pub sampling_defaults : Bool
  pub require_api_key : Bool
  pub api_keys : List ApiKey

pub record Service : Type 0 where
  pub serve_always_on : Bool
  pub engine_autostart : Bool

pub record Meta : Type 0 where
  pub first_run_done : Bool
  pub default_profile : String

pub record Config (F : Type 0) : Type 0 where
  pub paths : Paths
  pub engine : Engine F
  pub serve : Serve
  pub service : Service
  pub meta : Meta

-- `gpu_mem` stands for the float 0.85.
abbrev pub defaults : {F : Type 0} → F → Config F
defaults gpu_mem = record {
  paths = record { hf_cache = "~/.cache/huggingface"; state_dir = "~/.local/state/qfn" };
  engine = record {
    mode = "nvfp4";
    prefix_cache = true;
    exact_topk = true;
    ctx = pos 262144;
    yarn = false;
    mtp = pos 2;
    mtp_adaptive = "";
    seqs = pos 8;
    gpu_mem = gpu_mem;
    kv_dtype = "auto";
    prewarm = false;
    workers = pos 32;
    read_ahead = pos 0;
    host_embed = false;
    cpuset = "";
    extra = "";
    port = pos 18300;
    bind = "127.0.0.1";
    lockdown = true;
    container_mem = "";
    images = pos 4;
    image = "qwen38-flash-dgx";
    model = "RadixArk/Qwen3.8-Flash-Next-NVFP4";
    name = "qwen38-flash";
  };
  serve = record {
    port = pos 8799;
    bind = "0.0.0.0";
    proxy = true;
    max_prompt_tokens = pos 0;
    auth_enabled = true;
    sampling_defaults = false;
    require_api_key = false;
    api_keys = [];
  };
  service = record { serve_always_on = true; engine_autostart = false };
  meta = record { first_run_done = false; default_profile = "" };
}

unfoldable pub is_loopback_bind : String → Bool
is_loopback_bind bind =
    bind == "127.0.0.1" || bind == "localhost" || bind == "::1" || bind == "[::1]"
