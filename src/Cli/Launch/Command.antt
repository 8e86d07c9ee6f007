-- ===== src/Cli/Launch/Command.antt =====
-- The command `launch` of internal/cli/launch.go, from its flags to the program that runs.
use qfn_pgx.Base.{
  ℕ, Bool, Option, none, some, List_eq, ℕ_eq, ◌==◌, List, [], ◌∷◌, ◌++◌, if◌then◌else◌,
}
use qfn_pgx.Base.Dict.{insert}
use qfn_pgx.Base.Int.{ℤ, pos, eq_int, le_int}
use qfn_pgx.Base.Bytes.{Text, codes}
use qfn_pgx.Config.Adaptive.{format_int}
use qfn_pgx.Proxy.FrontDoor.{trim_slashes}
use qfn_pgx.Cli.Launch.{LaunchPlan, build_launch, child_env}

-- `opencodeConfig`, with its one provider and its one model.
pub record OpencodeConfig : Type 0 where
  pub schema : Text
  pub default_model : Text
  pub npm : Text
  pub provider_name : Text
  pub base_url : Text
  pub api_key : Text
  pub model_name : Text
  pub context : ℤ
  pub output : ℕ

-- `opencodeConfigJSON`, without the encoding.
unfoldable pub opencode_config : Text → Text → Text → ℤ → OpencodeConfig
unfolding trim_slashes
opencode_config server key model ctx_window = record {
  schema = codes "https://opencode.ai/config.json";
  default_model = codes "qfn/" ++ model;
  npm = codes "@ai-sdk/openai-compatible";
  provider_name = codes "QFN Spark (local)";
  base_url = trim_slashes server ++ codes "/v1";
  api_key = key;
  model_name = model;
  context = if le_int ctx_window (pos 0) then pos 262144 else ctx_window;
  output = 16384;
}

-- The file of `writeDshSettings`.
unfoldable pub dsh_settings : Text → Text → Text → ℤ → Text
unfolding trim_slashes format_int
dsh_settings server key model ctx_window =
    codes
      "# generated by qfn launch dsh — points the harness at the local Spark lane\nmodels:\n  baseurl: "
    ++ (trim_slashes server
        ++ (codes "/v1\n  api_key: "
            ++ (key
                ++ (codes "\n  model: "
                    ++ (model
                        ++ (codes "\n  max_context_tokens: "
                            ++ (format_int ctx_window ++ codes "\n")))))))

-- The command's arguments and flags.
pub record Invocation : Type 0 where
  pub agent_name : Text
  pub agent_args : List Text
  pub server_flag : Text
  pub model_flag : Text
  pub dry_run : Bool

-- What the command meets: the console, the store, the engine's models at a URL with a key, none for an error,
-- the two files that are written, none for an error, the environment and the programs on the path.
pub record Host : Type 0 where
  pub serve_base_url : Text
  pub console_up : Bool
  pub front_key : Text
  pub rotated_key : Option Text
  pub models : Text → Text → Option (List Text)
  pub last_ctx : ℤ
  pub cfg_ctx : ℤ
  pub write_opencode : OpencodeConfig → Option Text
  pub write_dsh : Text → Option Text
  pub environ : List Text
  pub look_path : Text → Option Text

pub data Failure : Type 0 where
  console_down no_front_key unknown_agent not_written no_command not_found : Failure

-- What the command comes to: an error, the plan of a dry run, or a program with its arguments and environment.
pub data Outcome : Type 0 where
  refused : Failure → Outcome
  shown : LaunchPlan → Outcome
  executed : Text → List Text → List Text → Outcome

unfoldable pub first_model : Option (List Text) → Text
first_model none = codes "qwen3.8-flash-next"
first_model (some []) = codes "qwen3.8-flash-next"
first_model (some (id ∷ ids)) = id

-- `discoverModel`
unfoldable pub discover_model : Host → Text → Text → Text
unfolding first_model trim_slashes
discover_model h server key = first_model (h.models (trim_slashes server ++ codes "/v1/models") key)

-- The server of the flag, or the console, which must be up.
unfoldable pub server_of : Invocation → Host → Option Text
server_of inv h =
    if inv.server_flag == []
    then (if h.console_up then some h.serve_base_url else none)
    else some inv.server_flag

unfoldable pub key_of : Host → Option Text
key_of h = if h.front_key == [] then h.rotated_key else some h.front_key

-- The settings that dsh and opencode read from a file; opencode is told where.
unfoldable pub with_settings : Host → Text → Text → Text → ℤ → LaunchPlan → Option LaunchPlan
unfolding dsh_settings opencode_config insert
with_settings h server key model ctx_window pl =
    if pl.agent == codes "dsh"
    then elim (h.write_dsh (dsh_settings server key model ctx_window)) [
      | none ↦ none
      | some path ↦ some pl
    ]
    else if pl.agent == codes "opencode"
    then elim (h.write_opencode (opencode_config server key model ctx_window)) [
      | none ↦ none
      | some path ↦ some (record pl { env_set = insert (codes "OPENCODE_CONFIG") path pl.env_set })
    ]
    else some pl

-- The program and its arguments; generic mode takes them from after the dash.
unfoldable pub command_of : Invocation → LaunchPlan → List Text → Option (Text × List Text)
command_of inv pl [] = if pl.agent == codes "generic" then none else some (pl.binary, pl.args)
command_of inv pl (bin ∷ rest) =
    if pl.agent == codes "generic" then some (bin, rest) else some (pl.binary, pl.args)

unfoldable pub exec_at : Host → LaunchPlan → List Text → Option Text → Outcome
unfolding child_env
exec_at h pl args none = refused not_found
exec_at h pl args (some path) = executed path args (child_env pl h.environ)

unfoldable pub exec_plan : Host → LaunchPlan → Option (Text × List Text) → Outcome
unfolding exec_at
exec_plan h pl none = refused no_command
exec_plan h pl (some (bin, args)) = exec_at h pl args (h.look_path bin)

unfoldable pub launch_plan : Invocation → Host → Option LaunchPlan → Outcome
unfolding command_of exec_plan
launch_plan inv h none = refused not_written
launch_plan inv h (some pl) =
    if inv.dry_run then shown pl else exec_plan h pl (command_of inv pl inv.agent_args)

unfoldable pub settle : Invocation → Host → Text → Text → Text → ℤ → Option LaunchPlan → Outcome
unfolding launch_plan with_settings
settle inv h server key model ctx_window none = refused unknown_agent
settle inv h server key model ctx_window (some pl) =
    launch_plan inv h
      (with_settings h server key model ctx_window (record pl { args = pl.args ++ inv.agent_args }))

unfoldable pub resolved : Invocation → Host → Text → Option Text → Outcome
unfolding settle build_launch discover_model
resolved inv h server none = refused no_front_key
resolved inv h server (some key) =
    let model = if inv.model_flag == [] then discover_model h server key else inv.model_flag in
    let ctx_window = if eq_int h.last_ctx (pos 0) then h.cfg_ctx else h.last_ctx in
    settle inv h server key model ctx_window
      (build_launch inv.agent_name server key model ctx_window)

unfoldable pub at_server : Invocation → Host → Option Text → Outcome
unfolding resolved key_of
at_server inv h none = refused console_down
at_server inv h (some server) = resolved inv h server (key_of h)

-- The command `launch`.
unfoldable pub launch : Invocation → Host → Outcome
unfolding at_server server_of
launch inv h = at_server inv h (server_of inv h)
