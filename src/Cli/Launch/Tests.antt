-- ===== src/Cli/Launch/Tests.antt =====
-- A launch of codex from an environment with keys of its own.
use qfn_pgx.Base.{◌≡◌, refl, true, false, none, some, List_eq, ℕ_eq, List, [], ◌∷◌}
use qfn_pgx.Base.Int.{pos}
use qfn_pgx.Base.Bytes.{Text, codes}
use qfn_pgx.Base.Dict.{lookup}
use qfn_pgx.Cli.Launch.{LaunchPlan, child_env, cloud_keys, mask, is_dropped}
use qfn_pgx.Cli.Launch.Command.{Invocation, Host, launch, key_of}
use qfn_pgx.Cli.Launch.Environment.{entries, planned_entries, entries-child_env, all_names}
use qfn_pgx.Cli.Launch.Plans.{is_cloud}
use qfn_pgx.Cli.Launch.Clouds.{NoCloud, launch-NoCloud}

abbrev user_env : List Text
user_env =
    codes "OPENAI_API_KEY=sk-paid"
    ∷ codes "PATH=/bin"
    ∷ codes "GROQ_API_KEY=paid"
    ∷ codes "OPENAI_BASE_URL=https://x"
    ∷ []

abbrev box : Host
box = record {
  serve_base_url = codes "http://127.0.0.1:8799/";
  console_up = true;
  front_key = codes "front";
  rotated_key = none;
  models = λ url key. none;
  last_ctx = pos 0;
  cfg_ctx = pos 4096;
  write_opencode = λ c. none;
  write_dsh = λ s. none;
  environ = user_env;
  look_path = λ bin. some (codes "/bin/codex");
}

abbrev asked : Invocation
asked = record {
  agent_name = codes "codex";
  agent_args = codes "fix it" ∷ [];
  server_flag = [];
  model_flag = [];
  dry_run = false;
}

abbrev agent_env : List Text
agent_env =
    codes "PATH=/bin"
    ∷ codes "OPENAI_API_KEY=front"
    ∷ codes "OPENAI_BASE_URL=http://127.0.0.1:8799/v1"
    ∷ []

launch-NoCloud_example : NoCloud (key_of box) (codes "OPENAI_API_KEY") agent_env
unfolding launch is_cloud lookup
launch-NoCloud_example =
    launch-NoCloud asked box (codes "/bin/codex")
      (codes "--model" ∷ codes "qwen3.8-flash-next" ∷ codes "fix it" ∷ []) agent_env
      (codes "OPENAI_API_KEY") refl refl

abbrev plan : LaunchPlan
plan = record {
  agent = codes "codex";
  binary = codes "codex";
  args = [];
  env_set = (codes "B", codes "2") ∷ (codes "A", codes "1") ∷ [];
  env_clear = codes "C" ∷ [];
  note = [];
}

abbrev twice : List Text
twice = codes "D=4" ∷ codes "A=0" ∷ codes "C=3" ∷ codes "D=5" ∷ codes "A" ∷ []

entries-child_env_example :
    entries (codes "D") (child_env plan twice) ≡ planned_entries plan (codes "D") twice
unfolding all_names
entries-child_env_example = entries-child_env plan (codes "D") twice ((refl, tt), (tt, tt)) refl

child_env_run : child_env plan twice ≡ codes "D=4" ∷ codes "D=5" ∷ codes "A=1" ∷ codes "B=2" ∷ []
unfolding child_env is_dropped lookup
child_env_run = refl

-- An agent other than claude keeps a bearer token of the cloud that the list does not name.
token_stays :
    entries
      (codes "ANTHROPIC_AUTH_TOKEN")
      (child_env (record plan { env_clear = cloud_keys }) (codes "ANTHROPIC_AUTH_TOKEN=paid" ∷ []))
    ≡ codes "ANTHROPIC_AUTH_TOKEN=paid" ∷ []
unfolding child_env entries is_dropped lookup
token_stays = refl

masked : mask (codes "abcdefghijkl") ≡ codes "abcd…ijkl"
unfolding mask
masked = refl
