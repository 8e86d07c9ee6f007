-- ===== src/Config/Render/Says.antt =====
-- What the file of a configuration should say, and the texts that it holds.
use qfn_pgx.Base.{List, [], ◌∷◌, ◌++◌}
use qfn_pgx.Base.Bytes.{Text, codes}
use qfn_pgx.Config.Types.{Config, ApiKey}
use qfn_pgx.Config.Adaptive.{format_int}
use qfn_pgx.Config.Render.{tf}
use qfn_pgx.Config.Render.Reads.{Item, opened, valued, str, bare}

-- The texts of a key, and those of a configuration.
abbrev pub key_texts : List ApiKey → List Text
key_texts [] = []
key_texts (k ∷ ks) = codes k.key_name ∷ codes k.key_hash ∷ codes k.created ∷ key_texts ks

module _ {F : Type 0} (cfg : Config F) where
  abbrev pub paths_texts : List Text
  paths_texts = codes cfg.paths.hf_cache ∷ codes cfg.paths.state_dir ∷ []

  abbrev pub engine_texts : List Text
  engine_texts =
      codes cfg.engine.mode
      ∷ codes cfg.engine.mtp_adaptive
      ∷ codes cfg.engine.kv_dtype
      ∷ codes cfg.engine.cpuset
      ∷ codes cfg.engine.extra
      ∷ codes cfg.engine.bind
      ∷ codes cfg.engine.container_mem
      ∷ codes cfg.engine.image
      ∷ codes cfg.engine.model
      ∷ codes cfg.engine.name
      ∷ []

  abbrev pub serve_texts : List Text
  serve_texts = codes cfg.serve.bind ∷ []

  abbrev pub meta_texts : List Text
  meta_texts = codes cfg.meta.default_profile ∷ []

  abbrev pub texts : List Text
  texts =
      paths_texts ++ (engine_texts ++ (serve_texts ++ (key_texts cfg.serve.api_keys ++ meta_texts)))

-- What the file should say: each table of the tree with each of its fields, under the names of their tags.
abbrev pub key_items : List ApiKey → List Item
key_items [] = []
key_items (k ∷ ks) =
    opened (codes "[[serve.api_keys]]")
    ∷ valued (codes "name") (str (codes k.key_name))
    ∷ valued (codes "key_hash") (str (codes k.key_hash))
    ∷ valued (codes "created") (str (codes k.created))
    ∷ key_items ks

module _ {F : Type 0} (format_float : F → Text) (cfg : Config F) where
  abbrev pub paths_items : List Item
  paths_items =
      opened (codes "[paths]")
      ∷ valued (codes "hf_cache") (str (codes cfg.paths.hf_cache))
      ∷ valued (codes "state_dir") (str (codes cfg.paths.state_dir))
      ∷ []

  abbrev pub engine_items : List Item
  engine_items =
      opened (codes "[engine]")
      ∷ valued (codes "mode") (str (codes cfg.engine.mode))
      ∷ valued (codes "prefix_cache") (bare (tf cfg.engine.prefix_cache))
      ∷ valued (codes "exact_topk") (bare (tf cfg.engine.exact_topk))
      ∷ valued (codes "ctx") (bare (format_int cfg.engine.ctx))
      ∷ valued (codes "yarn") (bare (tf cfg.engine.yarn))
      ∷ valued (codes "mtp") (bare (format_int cfg.engine.mtp))
      ∷ valued (codes "mtp_adaptive") (str (codes cfg.engine.mtp_adaptive))
      ∷ valued (codes "seqs") (bare (format_int cfg.engine.seqs))
      ∷ valued (codes "gpu_mem") (bare (format_float cfg.engine.gpu_mem))
      ∷ valued (codes "kv_dtype") (str (codes cfg.engine.kv_dtype))
      ∷ valued (codes "prewarm") (bare (tf cfg.engine.prewarm))
      ∷ valued (codes "workers") (bare (format_int cfg.engine.workers))
      ∷ valued (codes "ple_readahead") (bare (format_int cfg.engine.read_ahead))
      ∷ valued (codes "host_embeddings") (bare (tf cfg.engine.host_embed))
      ∷ valued (codes "cpuset") (str (codes cfg.engine.cpuset))
      ∷ valued (codes "extra") (str (codes cfg.engine.extra))
      ∷ valued (codes "port") (bare (format_int cfg.engine.port))
      ∷ valued (codes "bind") (str (codes cfg.engine.bind))
      ∷ valued (codes "lockdown") (bare (tf cfg.engine.lockdown))
      ∷ valued (codes "container_mem_cap") (str (codes cfg.engine.container_mem))
      ∷ valued (codes "images") (bare (format_int cfg.engine.images))
      ∷ valued (codes "image") (str (codes cfg.engine.image))
      ∷ valued (codes "model") (str (codes cfg.engine.model))
      ∷ valued (codes "name") (str (codes cfg.engine.name))
      ∷ []

  abbrev pub serve_items : List Item
  serve_items =
      opened (codes "[serve]")
      ∷ valued (codes "port") (bare (format_int cfg.serve.port))
      ∷ valued (codes "bind") (str (codes cfg.serve.bind))
      ∷ valued (codes "proxy") (bare (tf cfg.serve.proxy))
      ∷ valued (codes "max_prompt_tokens") (bare (format_int cfg.serve.max_prompt_tokens))
      ∷ valued (codes "sampling_defaults") (bare (tf cfg.serve.sampling_defaults))
      ∷ valued (codes "auth_enabled") (bare (tf cfg.serve.auth_enabled))
      ∷ valued (codes "require_api_key") (bare (tf cfg.serve.require_api_key))
      ∷ []

  abbrev pub tail_items : List Item
  tail_items =
      opened (codes "[service]")
      ∷ valued (codes "serve_always_on") (bare (tf cfg.service.serve_always_on))
      ∷ valued (codes "engine_autostart") (bare (tf cfg.service.engine_autostart))
      ∷ opened (codes "[meta]")
      ∷ valued (codes "first_run_done") (bare (tf cfg.meta.first_run_done))
      ∷ valued (codes "default_profile") (str (codes cfg.meta.default_profile))
      ∷ []

  abbrev pub items : List Item
  items =
      paths_items ++ (engine_items ++ (serve_items ++ (key_items cfg.serve.api_keys ++ tail_items)))
