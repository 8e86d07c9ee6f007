-- ===== src/Engine/Launch/Tests.antt =====
-- A launch of the default engine under the lockdown, with a hybrid and two plain snapshots on the disk.
use qfn_pgx.Base.{◌≡◌, refl, Bool, true, some, List, [], ◌∷◌, ◌++◌}
use qfn_pgx.Base.Bytes.{Text, codes}
use qfn_pgx.Config.Types.{Engine, defaults}
use qfn_pgx.Engine.Snapshot.{Disk}
use qfn_pgx.Engine.Launch.{LaunchOpts, docker_args}
use qfn_pgx.Engine.Launch.Locked.{is_locked, launch_locked}

abbrev names : List Text
names = codes "b" ∷ codes "a-fp8hybrid" ∷ codes "a" ∷ []

abbrev entries : List Text → List (Text × Bool)
entries [] = []
entries (n ∷ ns) = (n, true) ∷ entries ns

abbrev concat : List Text → Text
concat [] = []
concat (t ∷ ts) = t ++ concat ts

abbrev disk : Disk
disk = record { read_dir = λ path. some (entries names); exists = λ path. true; join = concat }

-- A float is its text.
abbrev engine : Engine Text
engine = record (defaults (codes "0.85")).engine { lockdown = true; extra = "--api-key stolen" }

abbrev opts : LaunchOpts
opts = record { engine_api_key = "sk-1"; hf_cache_host = "/cache" }

abbrev same_text : Text → Text
same_text t = t

launch_locked_example :
    is_locked "sk-1" (docker_args same_text disk (codes "/cache") engine opts) ≡ true
launch_locked_example = launch_locked same_text engine opts disk (codes "/cache") refl
