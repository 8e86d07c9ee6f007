-- ===== src/Engine/Launch/Locked.antt =====
-- The launch under the lockdown.
use qfn_pgx.Base.{
  ◌≡◌, refl, ◌∙◌, ap, sym, arith, Bool, true, false, not, ◌&&◌, String, String_eq, List_eq, ℕ_eq,
  ◌==◌, List, [], ◌∷◌, ◌++◌, if_elim, beq_refl,
}
use mathlib.Core.List.{append_assoc}
use qfn_pgx.Base.Bytes.{Text, codes}
use qfn_pgx.Config.Types.{Engine}
use qfn_pgx.Engine.Snapshot.{Result, ok, refused, Disk, snapshot_in_container}
use qfn_pgx.Engine.Launch.{LaunchOpts, when, docker_part, engine_part, with_snapshot, docker_args}

-- The last two of a list.
unfoldable pub last_two : List Text → List Text
last_two [] = []
last_two (a ∷ []) = a ∷ []
last_two (a ∷ b ∷ []) = a ∷ b ∷ []
last_two (a ∷ b ∷ c ∷ xs) = last_two (b ∷ c ∷ xs)

last_two-append : (xs : List Text) (a b : Text) → last_two (xs ++ a ∷ b ∷ []) ≡ a ∷ b ∷ []
unfolding last_two
last_two-append [] a b = refl
last_two-append (x ∷ []) a b = refl
last_two-append (x ∷ y ∷ []) a b = refl
last_two-append (x ∷ y ∷ z ∷ xs) a b = last_two-append (y ∷ z ∷ xs) a b

-- A refused launch, or one whose last two arguments give the engine a key that is not empty. The last
-- occurrence of an option wins in the engine.
abbrev pub is_locked : String → Result (List Text) → Bool
is_locked key (refused r) = true
is_locked key (ok args) = last_two args == codes "--api-key" ∷ codes key ∷ [] && not (key == "")

module _ {F : Type 0} (format_float : F → Text) (e : Engine F) (o : LaunchOpts) where
  with_snapshot-locked :
      (r : Result (Text × List Text))
      → e.lockdown ≡ true
      → (o.engine_api_key == "") ≡ false
      → is_locked o.engine_api_key (with_snapshot format_float e o r) ≡ true
  unfolding with_snapshot when
  with_snapshot-locked (refused r) l k = refl
  with_snapshot-locked (ok (snap_in, hybrid_env)) l k =
      let docker = docker_part format_float e o hybrid_env in
      let engine = engine_part format_float e snap_in in
      let key = codes "--api-key" ∷ codes o.engine_api_key ∷ [] in
      let ends : last_two (docker ++ (engine ++ key)) ≡ key =
        ap last_two (sym (append_assoc docker engine key))
        ∙ last_two-append (docker ++ engine) (codes "--api-key") (codes o.engine_api_key) in
      rw (l, k, ends, beq_refl) refl

  -- Under the lockdown the engine never starts open: whatever the disk holds and whatever extra arguments
  -- the configuration has, a launch is refused, or its last two arguments give the engine the key,
  -- which is not empty.
  pub launch_locked :
      (D : Disk) (hf_cache : Text)
      → e.lockdown ≡ true
      → is_locked o.engine_api_key (docker_args format_float D hf_cache e o) ≡ true
  unfolding docker_args
  launch_locked D hf_cache l =
      let P : Result (List Text) → Type 0 = λ r. is_locked o.engine_api_key r ≡ true in
      if_elim P (e.lockdown && o.engine_api_key == "") _ _ (λ p. refl)
        (λ p.
          if_elim P (o.hf_cache_host == "") _ _ (λ q. refl)
            (λ q.
              with_snapshot-locked (snapshot_in_container D hf_cache e) l (ground (arith, l, p))))
