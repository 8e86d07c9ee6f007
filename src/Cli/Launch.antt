-- ===== src/Cli/Launch.antt =====
-- internal/cli/launch.go: how an agent is started. A map of the environment is a dictionary; what the
-- console, the network, the disk and the path answer is part of the inputs.
pub mod Command
pub mod Environment
pub mod Plans
pub mod Clouds
mod Tests
use mathlib.Core.List.{map}
use qfn_pgx.Base.{
  ℕ, Bool, true, false, not, ◌&&◌, ◌||◌, Option, none, some, is_some, String, List_eq, ℕ_eq, ◌==◌,
  List, [], ◌∷◌, ◌++◌, any, length, take, drop, ltb, leb, ◌-◌, if◌then◌else◌,
}
use qfn_pgx.Base.Dict.{Dict, lookup, insert}
use qfn_pgx.Base.Int.{ℤ, pos, negsuc, eq_int, le_int}
use qfn_pgx.Base.Bytes.{Text, codes, cut}
use qfn_pgx.Config.Adaptive.{format_int}
use qfn_pgx.Engine.Snapshot.{sort}
use qfn_pgx.Proxy.FrontDoor.{trim_slashes}

-- `cloudKeys`
abbrev pub cloud_keys : List Text
cloud_keys =
    codes "ANTHROPIC_API_KEY"
    ∷ codes "ANTHROPIC_OAUTH_TOKEN"
    ∷ codes "OPENAI_API_KEY"
    ∷ codes "OPENAI_API_BASE"
    ∷ codes "GEMINI_API_KEY"
    ∷ codes "MISTRAL_API_KEY"
    ∷ codes "GROQ_API_KEY"
    ∷ codes "XAI_API_KEY"
    ∷ codes "OPENROUTER_API_KEY"
    ∷ codes "DEEPSEEK_API_KEY"
    ∷ codes "AZURE_OPENAI_API_KEY"
    ∷ codes "WATSONX_APIKEY"
    ∷ []

pub record LaunchPlan : Type 0 where
  pub agent : Text
  pub binary : Text
  pub args : List Text
  pub env_set : Dict Text Text
  pub env_clear : List Text
  pub note : Text

before_equals : Text → Option (Text × Text) → Text
before_equals kv none = kv
before_equals kv (some (name, value)) = name

-- The name of an entry of the environment.
unfoldable pub name_of : Text → Text
unfolding before_equals cut
name_of kv = before_equals kv (cut b'=' kv)

-- The names that `ChildEnv` drops.
unfoldable pub is_dropped : LaunchPlan → Text → Bool
unfolding lookup
is_dropped pl name = any (λ k. k == name) pl.env_clear || is_some (lookup name pl.env_set)

unfoldable pub undropped : LaunchPlan → List Text → List Text
unfolding is_dropped name_of
undropped pl [] = []
undropped pl (kv ∷ base) =
    let rest = undropped pl base in if is_dropped pl (name_of kv) then rest else kv ∷ rest

keys : Dict Text Text → List Text
keys [] = []
keys ((k, v) ∷ m) = k ∷ keys m

-- `sortedKeys`
unfoldable pub sorted_keys : Dict Text Text → List Text
unfolding keys sort
sorted_keys m = sort (keys m)

-- `m[k]`, "" where it is missing.
abbrev pub text_or : Option Text → Text
text_or none = []
text_or (some v) = v

-- `k+"="+m[k]`
unfoldable pub entry : Dict Text Text → Text → Text
entry m k = k ++ (b'=' ∷ text_or (lookup k m))

-- `ChildEnv`
unfoldable pub child_env : LaunchPlan → List Text → List Text
unfolding undropped sorted_keys entry
child_env pl base = undropped pl base ++ map (entry pl.env_set) (sorted_keys pl.env_set)

-- The agents that `buildLaunch` knows.
pub data Agent : Type 0 where
  claude codex opencode dsh generic unknown : Agent

unfoldable pub agent_of : Text → Agent
agent_of agent =
    if agent == codes "claude" || agent == codes "claude-code"
    then claude
    else if agent == codes "codex"
    then codex
    else if agent == codes "opencode"
    then opencode
    else if agent == codes "dsh"
    then dsh
    else if agent == codes "generic"
    then generic
    else unknown

openai_env : Text → Text → Dict Text Text
openai_env base key = (codes "OPENAI_BASE_URL", base) ∷ (codes "OPENAI_API_KEY", key) ∷ []

claude_env : Text → Text → Text → ℤ → Dict Text Text
unfolding trim_slashes format_int
claude_env server key model ctx_window =
    (codes "ANTHROPIC_BASE_URL", trim_slashes server)
    ∷ (codes "ANTHROPIC_AUTH_TOKEN", key)
    ∷ (codes "ANTHROPIC_API_KEY", [])
    ∷ (codes "ANTHROPIC_MODEL", model)
    ∷ (codes "ANTHROPIC_DEFAULT_OPUS_MODEL", model)
    ∷ (codes "ANTHROPIC_DEFAULT_SONNET_MODEL", model)
    ∷ (codes "ANTHROPIC_DEFAULT_HAIKU_MODEL", model)
    ∷ (codes "CLAUDE_CODE_SUBAGENT_MODEL", model)
    ∷ (codes "CLAUDE_CODE_MAX_CONTEXT_TOKENS", format_int ctx_window)
    ∷ (codes "CLAUDE_CODE_MAX_OUTPUT_TOKENS", codes "16384")
    ∷ (codes "CLAUDE_CODE_ATTRIBUTION_HEADER", codes "0")
    ∷ []

build_for : Agent → LaunchPlan → Text → Text → Text → ℤ → Option LaunchPlan
unfolding claude_env openai_env trim_slashes
build_for claude pl server key model ctx_window =
    some (record pl { binary = codes "claude"; env_set = claude_env server key model ctx_window })
build_for codex pl server key model ctx_window = some (record pl {
  binary = codes "codex";
  args = codes "--model" ∷ model ∷ [];
  env_set = openai_env (trim_slashes server ++ codes "/v1") key;
})
build_for opencode pl server key model ctx_window = some (record pl { binary = codes "opencode" })
build_for dsh pl server key model ctx_window = some (record pl {
  binary = codes "dsh";
  env_set = (codes "DEEPSEEK_API_KEY", key) ∷ [];
  note = codes "settings yaml written separately; run: dsh --settings <the printed path>";
})
build_for generic pl server key model ctx_window = some (record pl {
  binary = [];
  env_set = openai_env (trim_slashes server ++ codes "/v1") key;
  note = codes "generic mode: env is exported for the child command after `--`";
})
build_for unknown pl server key model ctx_window = none

-- `buildLaunch`: none for an agent that is not known.
unfoldable pub build_launch : Text → Text → Text → Text → ℤ → Option LaunchPlan
unfolding build_for agent_of
build_launch agent server key model ctx_window =
    build_for (agent_of agent)
      (record {
        agent = agent;
        binary = [];
        args = [];
        env_set = [];
        env_clear = cloud_keys;
        note = [];
      })
      server key model ctx_window

-- `mask`, of a text of ASCII characters.
unfoldable pub mask : Text → Text
mask s =
    if s == []
    then codes "\"\""
    else if leb (length s) 8
    then codes "****"
    else take 4 s ++ (codes "…" ++ drop (length s - 4) s)
