-- ===== src/Engine/Launch.antt =====
-- `DockerArgs` of internal/engine/spec.go: the arguments of `docker run` for a configuration of the engine.
-- The format of a float is a parameter.
pub mod Locked
mod Tests
use qfn_pgx.Base.{
  ℕ, ◌+◌, Bool, true, false, not, ◌&&◌, ◌||◌, Option, none, some, String, String_eq, List_eq, ℕ_eq,
  ◌==◌, List, [], ◌∷◌, ◌++◌, if◌then◌else◌,
}
use qfn_pgx.Base.Int.{ℤ, pos, negsuc, lt_int}
use qfn_pgx.Base.Bytes.{Text, codes, fields, join}
use qfn_pgx.Proxy.Registry.{itoa}
use qfn_pgx.Config.Types.{Engine}
use qfn_pgx.Config.Adaptive.{format_int, adaptive_ranges}
use qfn_pgx.Engine.Snapshot.{Result, ok, refused, no_key, no_cache, Disk, snapshot_in_container}

-- `LaunchOpts`
pub record LaunchOpts : Type 0 where
  pub engine_api_key : String
  pub hf_cache_host : String

abbrev pub splitting_ops : Text
splitting_ops =
    codes
      "[\"vllm::unified_attention_with_output\",\"vllm::unified_mla_attention_with_output\",\"vllm::mamba_mixer2\",\"vllm::mamba_mixer\",\"vllm::short_conv\",\"vllm::qwen3_8_flash_next_ple_short_conv\",\"vllm::qwen3_8_flash_next_qsa_with_output\",\"vllm::linear_attention\",\"vllm::qwen_gdn_attention_core\",\"vllm::qwen_gdn_attention_core_fused_norm_packed\",\"vllm::sparse_attn_indexer\",\"vllm::ple_mmap_lookup\"]"

abbrev pub yarn_overrides : Text
yarn_overrides =
    codes
      "{\"text_config\": {\"rope_parameters\": {\"mrope_interleaved\": true, \"mrope_section\": [11, 11, 10], \"rope_type\": \"yarn\", \"rope_theta\": 10000000, \"partial_rotary_factor\": 0.25, \"factor\": 4.0, \"original_max_position_embeddings\": 262144}}}"

-- `b01`
abbrev pub b01 : Bool → Text
b01 true = codes "1"
b01 false = codes "0"

-- `max(n, 0)`
abbrev pub at_least_zero : ℤ → ℕ
at_least_zero (pos n) = n
at_least_zero (negsuc n) = 0

unfoldable pub when : Bool → List Text → List Text
when true args = args
when false args = []

abbrev ranges_field : Option Text → List Text
ranges_field none = []
ranges_field (some r) = (codes "\"num_speculative_tokens_per_batch_size\":" ++ r) ∷ []

module _ {F : Type 0} (format_float : F → Text) where
  -- The value of `--speculative-config`.
  unfoldable pub speculative : Engine F → Text
  unfolding when join format_int adaptive_ranges
  speculative e =
      let draft =
        (codes "\"method\":\"mtp\""
          ∷ (codes "\"num_speculative_tokens\":" ++ format_int e.mtp)
          ∷ [])
        ++ (when e.yarn ((codes "\"max_model_len\":" ++ format_int e.ctx) ∷ [])
            ++ when (not (e.mtp_adaptive == ""))
                (ranges_field (adaptive_ranges (codes e.mtp_adaptive)))) in
      b'{' ∷ (join (codes ",") draft ++ b'}' ∷ [])

  -- The arguments of docker.
  unfoldable pub docker_part : Engine F → LaunchOpts → List Text → List Text
  unfolding when format_int itoa
  docker_part e o hybrid_env =
      (codes "run"
        ∷ codes "-d"
        ∷ codes "--name"
        ∷ codes e.name
        ∷ codes "--restart"
        ∷ codes "unless-stopped"
        ∷ codes "--gpus"
        ∷ codes "all"
        ∷ codes "--ipc=host"
        ∷ codes "--shm-size"
        ∷ codes "16g"
        ∷ codes "-p"
        ∷ (codes e.bind ++ (b':' ∷ (format_int e.port ++ codes ":8000")))
        ∷ [])
      ++ (when (not (e.cpuset == "")) (codes "--cpuset-cpus" ∷ codes e.cpuset ∷ [])
          ++ (when (not (e.container_mem == "")) (
                codes "--memory"
                ∷ codes e.container_mem
                ∷ codes "--memory-swap"
                ∷ codes e.container_mem
                ∷ [])
              ++ (hybrid_env
                  ++ (codes "-v"
                      ∷ (codes o.hf_cache_host ++ codes ":/hf")
                      ∷ codes "-e"
                      ∷ codes "HF_HOME=/hf"
                      ∷ codes "-e"
                      ∷ codes "HF_HUB_OFFLINE=1"
                      ∷ codes "-e"
                      ∷ codes "VLLM_PLE_MMAP=1"
                      ∷ codes "-e"
                      ∷ (codes "VLLM_PLE_MMAP_WORKERS=" ++ format_int e.workers)
                      ∷ codes "-e"
                      ∷ (codes "VLLM_PLE_MMAP_PREWARM=" ++ b01 e.prewarm)
                      ∷ codes "-e"
                      ∷ (codes "VLLM_PLE_MMAP_READAHEAD=" ++ itoa (at_least_zero e.read_ahead))
                      ∷ codes "-e"
                      ∷ (codes "QWEN38_HOST_EMBEDDINGS=" ++ b01 e.host_embed)
                      ∷ codes "-e"
                      ∷ (codes "VLLM_QSA_EXACT_TOPK=" ++ b01 e.exact_topk)
                      ∷ codes "-e"
                      ∷ codes "VLLM_USE_FLASHINFER_SAMPLER=1"
                      ∷ codes "-e"
                      ∷ (codes "VLLM_ALLOW_LONG_MAX_MODEL_LEN=" ++ b01 e.yarn)
                      ∷ codes e.image
                      ∷ []))))

  -- The arguments of the engine but for the key.
  unfoldable pub engine_part : Engine F → Text → List Text
  unfolding when format_int itoa fields speculative
  engine_part e snap_in =
      (snap_in
        ∷ codes "--served-model-name"
        ∷ codes "qwen3.8-flash-next"
        ∷ codes "--host"
        ∷ codes "0.0.0.0"
        ∷ codes "--port"
        ∷ codes "8000"
        ∷ codes "--load-format"
        ∷ codes "safetensors"
        ∷ codes "--max-model-len"
        ∷ format_int e.ctx
        ∷ codes "--max-num-seqs"
        ∷ format_int e.seqs
        ∷ codes "--gpu-memory-utilization"
        ∷ format_float e.gpu_mem
        ∷ (if e.prefix_cache
            then codes "--enable-prefix-caching"
            else codes "--no-enable-prefix-caching")
        ∷ codes "--enable-chunked-prefill"
        ∷ codes "--max-num-batched-tokens"
        ∷ codes "8192"
        ∷ codes "--limit-mm-per-prompt"
        ∷ (codes "{\"image\": " ++ (itoa (at_least_zero e.images) ++ codes "}"))
        ∷ codes "-cc.cudagraph_mode=PIECEWISE"
        ∷ (codes "-cc.splitting_ops=" ++ splitting_ops)
        ∷ codes "--no-enable-flashinfer-autotune"
        ∷ codes "--kv-cache-dtype"
        ∷ codes e.kv_dtype
        ∷ [])
      ++ (when e.yarn (codes "--hf-overrides" ∷ yarn_overrides ∷ [])
          ++ (fields (codes e.extra)
              ++ ((codes "--enable-auto-tool-choice"
                    ∷ codes "--tool-call-parser"
                    ∷ codes "qwen3_coder"
                    ∷ codes "--reasoning-parser"
                    ∷ codes "qwen3"
                    ∷ [])
                  ++ when (lt_int (pos 0) e.mtp)
                      (codes "--speculative-config" ∷ speculative e ∷ []))))

  with_snapshot : Engine F → LaunchOpts → Result (Text × List Text) → Result (List Text)
  unfolding docker_part engine_part when
  with_snapshot e o (refused r) = refused r
  with_snapshot e o (ok (snap_in, hybrid_env)) = ok (
      docker_part e o hybrid_env
      ++ (engine_part e snap_in
          ++ when e.lockdown (codes "--api-key" ∷ codes o.engine_api_key ∷ [])))

  -- `DockerArgs`, with the locator of the cache.
  unfoldable pub docker_args : Disk → Text → Engine F → LaunchOpts → Result (List Text)
  unfolding with_snapshot snapshot_in_container
  docker_args D hf_cache e o =
      if e.lockdown && o.engine_api_key == ""
      then refused no_key
      else if o.hf_cache_host == ""
      then refused no_cache
      else with_snapshot e o (snapshot_in_container D hf_cache e)
