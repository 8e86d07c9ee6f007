-- ===== src/Cli/Launch/Plans.antt =====
-- What holds of every plan that the command makes.
use qfn_pgx.Base.{
  ◌≡◌, refl, arith, Bool, true, false, not, ◌&&◌, Option, none, some, List_eq, ℕ_eq, ◌==◌, List, [],
  ◌∷◌, any, Bool-cases, Option-cases, inl, inr, ◌⊎◌,
}
use qfn_pgx.Base.Int.{ℤ}
use qfn_pgx.Base.Dict.{Dict, insert, Lacks, IsMap, insert-IsMap}
use qfn_pgx.Base.Bytes.{Text, codes}
use qfn_pgx.Cli.Launch.{
  LaunchPlan, cloud_keys, keys, Agent, claude, codex, opencode, dsh, generic, unknown, agent_of,
  build_for, build_launch, openai_env, claude_env,
}
use qfn_pgx.Cli.Launch.Command.{Host, dsh_settings, opencode_config, with_settings}
use qfn_pgx.Cli.Launch.Environment.{is_name, all_names}

-- The variables of the paid endpoints that must not reach an agent, written out here on their own.
abbrev paid_names : List Text
paid_names =
    codes "ANTHROPIC_API_KEY"
    ∷ codes "ANTHROPIC_OAUTH_TOKEN"
    ∷ codes "OPENAI_API_KEY"
    ∷ codes "OPENAI_API_BASE"
    ∷ codes "GEMINI_API_KEY"
    ∷ codes "MISTRAL_API_KEY"
    ∷ codes "GROQ_API_KEY"
    ∷ codes "XAI_API_KEY"
    ∷ codes "OPENROUTER_API_KEY"
    ∷ codes "DEEPSEEK_API_KEY"
    ∷ codes "AZURE_OPENAI_API_KEY"
    ∷ codes "WATSONX_APIKEY"
    ∷ []

unfoldable pub is_cloud : Text → Bool
is_cloud name = any (λ k. k == name) paid_names

-- A name that is set is no cloud key, or has the value "" or the key of the console.
abbrev pub Harmless : Text → Text × Text → Type 0
Harmless key (name, v) = (is_cloud name ≡ false) ⊎ ((v ≡ []) ⊎ (v ≡ key))

abbrev pub AllHarmless : Text → Dict Text Text → Type 0
AllHarmless key [] = Unit
AllHarmless key (x ∷ m) = Harmless key x × AllHarmless key m

-- What holds of every plan that is made with a key.
abbrev pub Clean : Text → LaunchPlan → Type 0
Clean key pl =
    (pl.env_clear ≡ cloud_keys)
    × AllHarmless key pl.env_set
    × IsMap pl.env_set
    × (all_names pl.env_set ≡ true)

abbrev pub Every : {A : Type 0} → (A → Type 0) → Option A → Type 0
Every P none = Unit
Every P (some a) = P a

AllHarmless-insert :
    (key k v : Text) (m : Dict Text Text)
    → is_cloud k ≡ false
    → AllHarmless key m
    → AllHarmless key (insert k v m)
unfolding insert
AllHarmless-insert key k v [] n h = (inl n, tt)
AllHarmless-insert key k v ((j, w) ∷ m) n h = elim (Bool-cases (j == k)) [
  | inl p ↦ rw p (inl n, h.1)
  | inr p ↦ rw p (h.0, AllHarmless-insert key k v m n h.1)
]

all_names-insert :
    (k v : Text) (m : Dict Text Text)
    → is_name k ≡ true
    → all_names m ≡ true
    → all_names (insert k v m) ≡ true
unfolding insert all_names keys
all_names-insert k v [] n h = ground (arith, n)
all_names-insert k v ((j, w) ∷ m) n h = ground (arith, n, h, all_names-insert k v m n)

lacks : Text → Dict Text Text → Bool
lacks k [] = true
lacks k ((j, v) ∷ m) = not (j == k) && lacks k m

is_map : Dict Text Text → Bool
unfolding lacks
is_map [] = true
is_map ((j, v) ∷ m) = lacks j m && is_map m

lacks-Lacks : (k : Text) (m : Dict Text Text) → lacks k m ≡ true → Lacks k m
unfolding lacks
lacks-Lacks k [] h = tt
lacks-Lacks k ((j, v) ∷ m) h = (ground (arith, h), lacks-Lacks k m (ground (arith, h)))

is_map-IsMap : (m : Dict Text Text) → is_map m ≡ true → IsMap m
unfolding is_map
is_map-IsMap [] h = tt
is_map-IsMap ((j, v) ∷ m) h =
    (lacks-Lacks j m (ground (arith, h)), is_map-IsMap m (ground (arith, h)))

openai-Clean :
    (base key : Text)
    → AllHarmless key (openai_env base key)
      × IsMap (openai_env base key)
      × (all_names (openai_env base key) ≡ true)
unfolding openai_env is_map lacks is_cloud all_names keys
openai-Clean base key =
    ((inl refl, (inr (inr refl), tt)), is_map-IsMap (openai_env base key) refl, refl)

claude-Clean :
    (server key model : Text) (ctx : ℤ)
    → let m = claude_env server key model ctx in AllHarmless key m × IsMap m × (all_names m ≡ true)
unfolding claude_env is_map lacks is_cloud all_names keys
claude-Clean server key model ctx = (
  (
    inl refl,
    (
      inl refl,
      (
        inr (inl refl),
        (
          inl refl,
          (inl refl, (inl refl, (inl refl, (inl refl, (inl refl, (inl refl, (inl refl, tt))))))),
        ),
      ),
    ),
  ),
  is_map-IsMap (claude_env server key model ctx) refl,
  refl,
)

build_for-Clean :
    (a : Agent) (pl : LaunchPlan) (server key model : Text) (ctx : ℤ)
    → pl.env_clear ≡ cloud_keys
    → pl.env_set ≡ []
    → Every (Clean key) (build_for a pl server key model ctx)
unfolding build_for all_names keys is_cloud
build_for-Clean claude pl server key model ctx c e =
    let m = claude-Clean server key model ctx in (c, m.0, m.1, m.2)
build_for-Clean codex pl server key model ctx c e = let m = openai-Clean _ key in (c, m.0, m.1, m.2)
build_for-Clean opencode pl server key model ctx c e = (c, rw e tt, rw e tt, rw e refl)
build_for-Clean dsh pl server key model ctx c e = (c, (inr (inr refl), tt), (tt, tt), refl)
build_for-Clean generic pl server key model ctx c e =
    let m = openai-Clean _ key in (c, m.0, m.1, m.2)
build_for-Clean unknown pl server key model ctx c e = tt

pub build_launch-Clean :
    (agent server key model : Text) (ctx : ℤ)
    → Every (Clean key) (build_launch agent server key model ctx)
unfolding build_launch
build_launch-Clean agent server key model ctx =
    build_for-Clean (agent_of agent) _ server key model ctx refl refl

told-Clean :
    (key path : Text) (pl : LaunchPlan)
    → Clean key pl
    → Clean key (record pl { env_set = insert (codes "OPENCODE_CONFIG") path pl.env_set })
unfolding is_cloud
told-Clean key path pl (c, h, m, n) = (
  c,
  AllHarmless-insert key (codes "OPENCODE_CONFIG") path pl.env_set refl h,
  insert-IsMap (codes "OPENCODE_CONFIG") path pl.env_set m,
  all_names-insert (codes "OPENCODE_CONFIG") path pl.env_set refl n,
)

pub settings-Clean :
    (h : Host) (server key model : Text) (ctx : ℤ) (pl : LaunchPlan)
    → Clean key pl
    → Every (Clean key) (with_settings h server key model ctx pl)
unfolding with_settings
settings-Clean h server key model ctx pl c = elim (Bool-cases (pl.agent == codes "dsh")) [
  | inl p ↦ rw p (elim (Option-cases (h.write_dsh (dsh_settings server key model ctx))) [
    | inl q ↦ rw q tt
    | inr (path, q) ↦ rw q c
  ])
  | inr p ↦ rw p (elim (Bool-cases (pl.agent == codes "opencode")) [
    | inl r ↦ rw r (elim (Option-cases (h.write_opencode (opencode_config server key model ctx))) [
      | inl q ↦ rw q tt
      | inr (path, q) ↦ rw q (told-Clean key path pl c)
    ])
    | inr r ↦ rw r c
  ])
]
