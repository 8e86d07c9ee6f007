-- ===== src/Config/Render.antt =====
-- `Render` of internal/config/render.go: the commented configuration file. A text is its characters, and the text of
-- a float is the parameter `format_float`.
pub mod Reads
pub mod Says
pub mod Exact
mod Tests
use mathlib.Core.List.{map}
use qfn_pgx.Base.{ℕ, ◌+◌, Bool, true, false, List, [], ◌∷◌, ◌++◌, ℕ_eq, ◌==◌, if◌then◌else◌}
use qfn_pgx.Base.Int.{ℤ}
use qfn_pgx.Base.Bytes.{Text, codes}
use qfn_pgx.Config.Types.{Config, Paths, Engine, Serve, Service, Meta, ApiKey}
use qfn_pgx.Config.Adaptive.{format_int}

-- What `q`, `tf`, `n` and `f` are given.
pub data Val (F : Type 0) : Type 0 where
  quoted : Text → Val F
  truth : Bool → Val F
  int : ℤ → Val F
  float : F → Val F

-- A call of `WriteString` or of `line`; `field` is a line of an API key, which has no comment.
pub data Chunk (F : Type 0) : Type 0 where
  written : Text → Chunk F
  entry : Text → Val F → Text → Chunk F
  field : Text → Val F → Chunk F

-- `strings.ReplaceAll(s, `"`, `\"`)`
unfoldable pub escape : Text → Text
escape [] = []
escape (c ∷ s) = let rest = escape s in if c == 34 then 92 ∷ 34 ∷ rest else c ∷ rest

-- `q`
unfoldable pub q : Text → Text
unfolding escape
q s = 34 ∷ (escape s ++ 34 ∷ [])

-- `tf`
abbrev pub tf : Bool → Text
tf true = codes "true"
tf false = codes "false"

module _ {F : Type 0} (format_float : F → Text) where
  unfoldable pub val_text : Val F → Text
  unfolding q format_int
  val_text (quoted s) = q s
  val_text (truth b) = tf b
  val_text (int n) = format_int n
  val_text (float f) = format_float f

  -- `line`
  unfoldable pub line : Text → Val F → Text → Text
  unfolding val_text
  line key val comment =
      key ++ (codes " = " ++ (val_text val ++ (codes "  # " ++ (comment ++ 10 ∷ []))))

  unfoldable pub chunk_text : Chunk F → Text
  unfolding line val_text
  chunk_text (written s) = s
  chunk_text (entry key val comment) = line key val comment
  chunk_text (field key val) = key ++ (codes " = " ++ (val_text val ++ 10 ∷ []))

  unfoldable pub write_all : List (Chunk F) → Text
  unfolding chunk_text
  write_all [] = []
  write_all (c ∷ cs) = chunk_text c ++ write_all cs

module _ {F : Type 0} where
  head_chunks : Config F → List (Chunk F)
  head_chunks cfg =
      written (codes "# QFN-PGX configuration — generated by `qfn init` / `qfn config`.\n")
      ∷ written
          (codes "# Every value is validated on save and on load; fix the line and rerun if\n")
      ∷ written
          (codes "# qfn complains here. `qfn config init` regenerates this file from defaults.\n\n")
      ∷ written (codes "[paths]\n")
      ∷ entry (codes "hf_cache") (quoted (codes cfg.paths.hf_cache))
          (codes "Hugging Face cache holding the checkpoint snapshot")
      ∷ entry (codes "state_dir") (quoted (codes cfg.paths.state_dir))
          (codes "qfn state: bench history, lockout state, service inventory")
      ∷ []

  engine_chunks : Config F → List (Chunk F)
  engine_chunks cfg =
      written (codes "\n[engine]\n")
      ∷ entry (codes "mode") (quoted (codes cfg.engine.mode)) (
          codes
            "\"nvfp4\" = checkpoint as published; \"hybrid\" = fp8 side layers (+20% decode, run qfn prepare-hybrid first)")
      ∷ entry (codes "prefix_cache") (truth cfg.engine.prefix_cache)
          (codes "repeated prefixes skip prefill (~14s -> ~1.4s TTFT on a 20k prefix)")
      ∷ entry (codes "exact_topk") (truth cfg.engine.exact_topk)
          (codes "deterministic greedy at T=0; costs ~10-40% on long prefills")
      ∷ entry (codes "ctx") (int cfg.engine.ctx)
          (codes "max context; >262144 requires yarn=true (validated to 500000)")
      ∷ entry (codes "yarn") (truth cfg.engine.yarn)
          (codes "YaRN rope scaling (factor 4) to go past the native window")
      ∷ entry (codes "mtp") (int cfg.engine.mtp)
          (codes "MTP speculative tokens (0 = off; 2 is this checkpoint's measured peak)")
      ∷ entry (codes "mtp_adaptive") (quoted (codes cfg.engine.mtp_adaptive)) (
          codes
            "batch-shaped draft lengths, e.g. \"3:1-4,1:5-16\" (draft 3 for batch 1-4, 1 for 5-16); \"\" = fixed mtp")
      ∷ entry (codes "seqs") (int cfg.engine.seqs)
          (codes "max concurrent sequences — do not leave at 1-2 when measuring throughput")
      ∷ entry (codes "gpu_mem") (float cfg.engine.gpu_mem) (
          codes
            "fraction of the 128 GB unified pool for weights+KV (max 0.875; 0.80 for long-running service)")
      ∷ entry (codes "kv_dtype") (quoted (codes cfg.engine.kv_dtype))
          (codes "keep \"auto\" (bf16); fp8 is refused by the QSA layers")
      ∷ entry (codes "prewarm") (truth cfg.engine.prewarm)
          (codes "stream the ~48 GiB PLE table once at boot to warm the page cache")
      ∷ entry (codes "workers") (int cfg.engine.workers) (codes "threads for the PLE mmap gather")
      ∷ entry (codes "ple_readahead") (int cfg.engine.read_ahead) (
          codes
            "PLE mmap per-step readahead hint cap (0 = off; 2048 = upstream Spark-tuned, +8-11% C1 decode)")
      ∷ entry (codes "host_embeddings") (truth cfg.engine.host_embed) (
          codes
            "true = token embedding tables live in pinned host RAM (~2.4 GiB back to the pool; off until benched)")
      ∷ entry (codes "cpuset") (quoted (codes cfg.engine.cpuset))
          (codes "docker --cpuset-cpus (\"\" = unpinned; experiment, unverified on this lane)")
      ∷ entry (codes "extra") (quoted (codes cfg.engine.extra))
          (codes "extra vllm flags passed verbatim, appended last (argparse last-wins)")
      ∷ entry (codes "port") (int cfg.engine.port) (codes "host port published for the engine API")
      ∷ entry (codes "bind") (quoted (codes cfg.engine.bind)) (
          codes
            "\"127.0.0.1\" keeps the engine reachable only through the qfn proxy; \"0.0.0.0\" exposes it directly")
      ∷ entry (codes "lockdown") (truth cfg.engine.lockdown) (
          codes
            "start vLLM with a generated --api-key only the qfn proxy holds (stored age-encrypted)")
      ∷ entry (codes "container_mem_cap") (quoted (codes cfg.engine.container_mem)) (
          codes
            "docker --memory (\"\" = none, correct here: PLE mmap needs the page cache; see qfn doctor)")
      ∷ entry (codes "images") (int cfg.engine.images) (
          codes "images accepted per request (0 = text-only; vision weights exist in the snapshot)")
      ∷ entry (codes "image") (quoted (codes cfg.engine.image))
          (codes "engine image built from engine/Dockerfile")
      ∷ entry (codes "model") (quoted (codes cfg.engine.model))
          (codes "checkpoint id (resolved to the local snapshot dir)")
      ∷ entry (codes "name") (quoted (codes cfg.engine.name)) (codes "docker container name")
      ∷ []

  serve_chunks : Config F → List (Chunk F)
  serve_chunks cfg =
      written (codes "\n[serve]\n")
      ∷ entry (codes "port") (int cfg.serve.port)
          (codes "web console + proxy port (ssh -L 8799:localhost:8799 <spark> to reach it)")
      ∷ entry (codes "bind") (quoted (codes cfg.serve.bind)) (
          codes
            "console bind; 0.0.0.0 = reachable on the LAN (auth is always on; open the port in the firewall, e.g. `sudo ufw allow 8799`)")
      ∷ entry (codes "proxy") (truth cfg.serve.proxy)
          (codes "mount /v1/* as the OpenAI-compatible front door on this port")
      ∷ entry (codes "max_prompt_tokens") (int cfg.serve.max_prompt_tokens)
          (codes "0 = no ceiling; >0 rejects over-long prompts via a /tokenize pre-check")
      ∷ entry (codes "sampling_defaults") (truth cfg.serve.sampling_defaults) (
          codes
            "true = proxy fills omitted temperature/top_p/top_k from the checkpoint's generation_config.json")
      ∷ entry (codes "auth_enabled") (truth cfg.serve.auth_enabled) (
          codes
            "password gate set by `qfn init` (credentials.age); cannot be disabled off-loopback")
      ∷ entry (codes "require_api_key") (truth cfg.serve.require_api_key)
          (codes "future: reject cookie-only /v1 calls once named machine keys ship")
      ∷ []

  key_chunks : List ApiKey → List (Chunk F)
  key_chunks [] = []
  key_chunks (k ∷ ks) =
      written (codes "\n[[serve.api_keys]]\n")
      ∷ field (codes "name") (quoted (codes k.key_name))
      ∷ field (codes "key_hash") (quoted (codes k.key_hash))
      ∷ field (codes "created") (quoted (codes k.created))
      ∷ key_chunks ks

  tail_chunks : Config F → List (Chunk F)
  tail_chunks cfg =
      written (codes "\n[service]\n")
      ∷ entry (codes "serve_always_on") (truth cfg.service.serve_always_on)
          (codes "qfn service install makes the console reboot-persistent")
      ∷ entry (codes "engine_autostart") (truth cfg.service.engine_autostart)
          (codes "also enable the engine unit so the model boots with the box")
      ∷ written (codes "\n[meta]\n")
      ∷ entry (codes "first_run_done") (truth cfg.meta.first_run_done)
          (codes "false re-opens the wizard on next run")
      ∷ entry (codes "default_profile") (quoted (codes cfg.meta.default_profile))
          (codes "profile applied by `qfn up` with no argument")
      ∷ []

  -- The calls of `Render`, in order.
  unfoldable pub chunks : Config F → List (Chunk F)
  unfolding head_chunks engine_chunks serve_chunks key_chunks tail_chunks
  chunks cfg =
      head_chunks cfg
      ++ (engine_chunks cfg
          ++ (serve_chunks cfg ++ (key_chunks cfg.serve.api_keys ++ tail_chunks cfg)))

-- `Render`
unfoldable pub render : {F : Type 0} → (F → Text) → Config F → Text
unfolding write_all chunks
render format_float cfg = write_all format_float (chunks cfg)
