-- ===== src/Cli/Launch/Clouds.antt =====
-- Which keys of the user's environment do not reach an agent.
use qfn_pgx.Base.{
  ◌≡◌, refl, sym, ap, subst, ◌∙◌, true, Option, none, some, List_eq, ℕ_eq, ◌==◌, List, [], ◌∷◌,
  ◌++◌, any, if◌then◌else◌, Bool-cases, inl, inr, ◌⊎◌,
}
use qfn_pgx.Base.Int.{ℤ, pos, eq_int}
use qfn_pgx.Base.Dict.{Dict, lookup}
use qfn_pgx.Base.Bytes.{Text}
use qfn_pgx.Cli.Launch.{LaunchPlan, entry, child_env, build_launch}
use qfn_pgx.Cli.Launch.Command.{
  Invocation, Host, Failure, Outcome, refused, shown, executed, discover_model, server_of, key_of,
  with_settings, command_of, exec_at, exec_plan, launch_plan, settle, resolved, at_server, launch,
}
use qfn_pgx.Cli.Launch.Environment.{entries, planned_entries, entries-child_env}
use qfn_pgx.Cli.Launch.Plans.{
  is_cloud, AllHarmless, Clean, Every, build_launch-Clean, settings-Clean,
}

-- The agent runs in the environment of a clean plan.
abbrev Runs : Text → Host → Outcome → Type 0
Runs key h (executed path args env) =
    (pl : LaunchPlan) × Clean key pl × (env ≡ child_env pl h.environ)
Runs key h _ = Unit

exec_at-Runs :
    (key : Text) (h : Host) (pl : LaunchPlan) (args : List Text) (path : Option Text)
    → Clean key pl
    → Runs key h (exec_at h pl args path)
unfolding exec_at
exec_at-Runs key h pl args none c = tt
exec_at-Runs key h pl args (some path) c = (pl, c, refl)

exec_plan-Runs :
    (key : Text) (h : Host) (pl : LaunchPlan) (cmd : Option (Text × List Text))
    → Clean key pl
    → Runs key h (exec_plan h pl cmd)
unfolding exec_plan
exec_plan-Runs key h pl none c = tt
exec_plan-Runs key h pl (some (bin, args)) c = exec_at-Runs key h pl args (h.look_path bin) c

launch_plan-Runs :
    (key : Text) (inv : Invocation) (h : Host) (o : Option LaunchPlan)
    → Every (Clean key) o
    → Runs key h (launch_plan inv h o)
unfolding launch_plan
launch_plan-Runs key inv h none c = tt
launch_plan-Runs key inv h (some pl) c = elim (Bool-cases inv.dry_run) [
  | inl p ↦ rw p tt
  | inr p ↦ rw p (exec_plan-Runs key h pl (command_of inv pl inv.agent_args) c)
]

settle-Runs :
    (inv : Invocation) (h : Host) (server key model : Text) (ctx : ℤ) (o : Option LaunchPlan)
    → Every (Clean key) o
    → Runs key h (settle inv h server key model ctx o)
unfolding settle
settle-Runs inv h server key model ctx none c = tt
settle-Runs inv h server key model ctx (some pl) c =
    let longer = record pl { args = pl.args ++ inv.agent_args } in
    launch_plan-Runs key inv h (with_settings h server key model ctx longer)
      (settings-Clean h server key model ctx longer c)

-- The same, with the key that the command uses.
abbrev RunsWith : Option Text → Host → Outcome → Type 0
RunsWith none h (executed path args env) = ⊥
RunsWith none h _ = Unit
RunsWith (some key) h out = Runs key h out

resolved-Runs :
    (inv : Invocation) (h : Host) (server : Text) (k : Option Text)
    → RunsWith k h (resolved inv h server k)
unfolding resolved
resolved-Runs inv h server none = tt
resolved-Runs inv h server (some key) =
    let model = if inv.model_flag == [] then discover_model h server key else inv.model_flag in
    let ctx = if eq_int h.last_ctx (pos 0) then h.cfg_ctx else h.last_ctx in
    settle-Runs inv h server key model ctx (build_launch inv.agent_name server key model ctx)
      (build_launch-Clean inv.agent_name server key model ctx)

refused-Runs : (k : Option Text) (h : Host) (f : Failure) → RunsWith k h (refused f)
refused-Runs none h f = tt
refused-Runs (some key) h f = tt

at_server-Runs :
    (inv : Invocation) (h : Host) (server : Option Text)
    → RunsWith (key_of h) h (at_server inv h server)
unfolding at_server
at_server-Runs inv h none = refused-Runs (key_of h) h _
at_server-Runs inv h (some server) = resolved-Runs inv h server (key_of h)

launch-Runs : (inv : Invocation) (h : Host) → RunsWith (key_of h) h (launch inv h)
unfolding launch
launch-Runs inv h = at_server-Runs inv h (server_of inv h)

-- What an agent may find under one of the twelve names: nothing, or one entry with "" or the console's key.
abbrev pub NoCloud : Option Text → Text → List Text → Type 0
NoCloud none name env = ⊥
NoCloud (some key) name env =
    (entries name env ≡ [])
    ⊎ ((entries name env ≡ (name ++ b'=' ∷ []) ∷ [])
        ⊎ (entries name env ≡ (name ++ b'=' ∷ key) ∷ []))

harmless_value :
    (key name : Text) (m : Dict Text Text)
    → is_cloud name ≡ true
    → AllHarmless key m
    → (lookup name m ≡ none) ⊎ ((lookup name m ≡ some []) ⊎ (lookup name m ≡ some key))
unfolding lookup
harmless_value key name [] c h = inl refl
harmless_value key name ((j, v) ∷ m) c (first, rest) = elim (Bool-cases (j == name)) [
  | inl p ↦ rw p (elim first [
    | inl n ↦ absurd (cc (ap is_cloud ((List_eq.same_iff j name).0 p), n, c))
    | inr (inl e) ↦ inr (inl (ap some e))
    | inr (inr e) ↦ inr (inr (ap some e))
  ])
  | inr p ↦ rw p (harmless_value key name m c rest)
]

planned_none :
    (pl : LaunchPlan) (name : Text) (base : List Text)
    → lookup name pl.env_set ≡ none
    → any (λ k. k == name) pl.env_clear ≡ true
    → planned_entries pl name base ≡ []
unfolding planned_entries
planned_none pl name base l c = rw (l, c) refl

planned_some :
    (pl : LaunchPlan) (name v : Text) (base : List Text)
    → lookup name pl.env_set ≡ some v
    → planned_entries pl name base ≡ (name ++ b'=' ∷ v) ∷ []
unfolding planned_entries entry
planned_some pl name v base l = rw l refl

planned_harmless :
    (key name : Text) (pl : LaunchPlan) (base : List Text)
    → is_cloud name ≡ true
    → Clean key pl
    → NoCloud (some key) name (child_env pl base)
unfolding is_cloud
planned_harmless key name pl base c (clear, h, m, n) =
    let e = entries-child_env pl name base m n in
    elim (harmless_value key name pl.env_set c h) [
      | inl l ↦ inl (e ∙ planned_none pl name base l (ap (any (λ k. k == name)) clear ∙ c))
      | inr (inl l) ↦ inr (inl (e ∙ planned_some pl name [] base l))
      | inr (inr l) ↦ inr (inr (e ∙ planned_some pl name key base l))
    ]

runs_harmless :
    (k : Option Text) (h : Host) (out : Outcome) (path : Text) (args env : List Text) (name : Text)
    → RunsWith k h out
    → out ≡ executed path args env
    → is_cloud name ≡ true
    → NoCloud k name env
runs_harmless k h (refused f) path args env name r p c = absurd (cc)
runs_harmless k h (shown pl) path args env name r p c = absurd (cc)
runs_harmless none h (executed a b d) path args env name r p c = r
runs_harmless (some key) h (executed a b d) path args env name (pl, clean, e) p c =
    let same : d ≡ env = cc in
    subst (λ x. NoCloud (some key) name x) (sym e ∙ same)
      (planned_harmless key name pl h.environ c clean)

-- Whatever agent is launched, with whatever flags and from whatever environment, the program that runs finds
-- under each of twelve names, nothing at all or one entry that holds "" or the console's own key: ANTHROPIC_API_KEY,
-- ANTHROPIC_OAUTH_TOKEN, OPENAI_API_KEY, OPENAI_API_BASE, GEMINI_API_KEY, MISTRAL_API_KEY, GROQ_API_KEY,
-- XAI_API_KEY, OPENROUTER_API_KEY, DEEPSEEK_API_KEY, AZURE_OPENAI_API_KEY and WATSONX_APIKEY. Nothing is said of
-- other names, such as ANTHROPIC_AUTH_TOKEN. A program runs only if the console has a key.
pub launch-NoCloud :
    (inv : Invocation) (h : Host) (path : Text) (args env : List Text) (name : Text)
    → launch inv h ≡ executed path args env
    → is_cloud name ≡ true
    → NoCloud (key_of h) name env
launch-NoCloud inv h path args env name p c =
    runs_harmless (key_of h) h (launch inv h) path args env name (launch-Runs inv h) p c
