-- ===== src/Engine/Snapshot.antt =====
-- `pathLocator` of internal/engine/snapshot.go: which snapshot of the model the engine is given. What is on
-- the disk and `filepath.Join` are parameters; the path of the cache is given as `filepath.Clean` leaves it.
pub mod Least
use qfn_pgx.Base.{
  ℕ, Bool, true, false, not, ◌&&◌, ◌||◌, Option, none, some, String, String_eq, List_eq, ℕ_eq, ◌==◌,
  List, [], ◌∷◌, ◌++◌, ltb, if◌then◌else◌,
}
use qfn_pgx.Base.Bytes.{Text, codes, has_prefix}
use mathlib.Core.List.{reverse}
use qfn_pgx.Config.Types.{Engine}

-- The errors of a launch.
pub data Refusal : Type 0 where
  no_key no_cache no_checkpoint no_plain not_prepared unknown_mode : Refusal

pub data Result {ℓ} (A : Type ℓ) : Type ℓ where
  ok : A → Result A
  refused : Refusal → Result A

-- The entries of a directory with whether they are directories, none for an error, and whether a path exists.
pub record Disk : Type 0 where
  pub read_dir : Text → Option (List (Text × Bool))
  pub exists : Text → Bool
  pub join : List Text → Text

-- `strings.ReplaceAll(s, "/", "--")`
unfoldable pub dashes : Text → Text
dashes [] = []
dashes (c ∷ s) = let rest = dashes s in if c == b'/' then b'-' ∷ b'-' ∷ rest else c ∷ rest

-- The order of strings, by their characters.
unfoldable pub leq : Text → Text → Bool
leq [] t = true
leq (c ∷ s) [] = false
leq (c ∷ s) (d ∷ t) = ltb c d || (c == d && leq s t)

unfoldable pub put : Text → List Text → List Text
unfolding leq
put n [] = n ∷ []
put n (m ∷ ms) = let rest = put n ms in if leq n m then n ∷ m ∷ ms else m ∷ rest

-- `sort.Strings`
unfoldable pub sort : List Text → List Text
unfolding put
sort [] = []
sort (n ∷ ns) = put n (sort ns)

unfoldable pub dirs : List (Text × Bool) → List Text
dirs [] = []
dirs ((n, is_dir) ∷ es) = let rest = dirs es in if is_dir then n ∷ rest else rest

unfoldable pub is_hybrid : Text → Bool
unfolding has_prefix
is_hybrid n = has_prefix (reverse n) (reverse (codes "-fp8hybrid"))

-- The first plain name.
unfoldable pub first_plain : List Text → Option Text
first_plain [] = none
first_plain (n ∷ ns) = let rest = first_plain ns in if is_hybrid n then rest else some n

module _ {F : Type 0} (D : Disk) (hf_cache : Text) where
  unfoldable pub repo_dir : Engine F → Text
  unfolding dashes
  repo_dir e = D.join (hf_cache ∷ codes "hub" ∷ (codes "models--" ++ dashes (codes e.model)) ∷ [])

  unfoldable pub snapshots_dir : Engine F → Text
  unfolding repo_dir
  snapshots_dir e = D.join (repo_dir e ∷ codes "snapshots" ∷ [])

  unfoldable pub in_container : Engine F → Text → Text
  unfolding dashes
  in_container e snap =
      codes "/hf/hub/models--" ++ (dashes (codes e.model) ++ (codes "/snapshots/" ++ snap))

  -- The path in the container, and the variables of the hybrid mode.
  with_mode : Engine F → Text → Result (Text × List Text)
  unfolding in_container snapshots_dir
  with_mode e snap =
      let hybrid = snap ++ codes "-fp8hybrid" in
      if e.mode == "nvfp4"
      then ok (in_container e snap, [])
      else if e.mode == "hybrid"
      then (if D.exists (D.join (snapshots_dir e ∷ hybrid ∷ codes ".prepared" ∷ []))
          then ok (
            in_container e hybrid,
            codes "-e" ∷ codes "VLLM_FP8_HYBRID=1" ∷ codes "-e" ∷ codes "VLLM_USE_DEEP_GEMM=0" ∷ [],
          )
          else refused not_prepared)
      else refused unknown_mode

  with_plain : Engine F → Option Text → Result (Text × List Text)
  unfolding with_mode
  with_plain e none = refused no_plain
  with_plain e (some snap) = with_mode e snap

  with_entries : Engine F → Option (List (Text × Bool)) → Result (Text × List Text)
  unfolding with_plain sort dirs first_plain
  with_entries e none = refused no_checkpoint
  with_entries e (some []) = refused no_checkpoint
  with_entries e (some (x ∷ es)) = with_plain e (first_plain (sort (dirs (x ∷ es))))

  -- `SnapshotInContainer`
  unfoldable pub snapshot_in_container : Engine F → Result (Text × List Text)
  unfolding with_entries snapshots_dir
  snapshot_in_container e = with_entries e (D.read_dir (snapshots_dir e))
