-- ===== src/Doctor/Verdict.antt =====
-- When the battery has something bad to say.
use qfn_pgx.Base.{
  ℕ, ◌≡◌, refl, arith, ap, ◌∙◌, leb, Bool, true, false, not, ◌&&◌, ◌||◌, Option, none, some,
  is_some, String_eq, List_eq, ℕ_eq, ◌==◌, ◌/◌, List, [], ◌∷◌, ◌++◌, any, Bool-cases, inl, inr,
  Option-cases,
}
use qfn_pgx.Base.Bytes.{Text, cut}
use qfn_pgx.Config.Types.{Engine}
use qfn_pgx.Collector.Metrics.{Floats}
use qfn_pgx.Doctor.{
  bad, warn, Check, check, ok_or, Host, Image, probe_failed, missing, present, mentions_nvidia,
  image_status, base_checks, base_tag_check, hybrid_checks, checkpoint_checks, disk_checks,
  memory_check, pressure_check, telemetry_checks, battery, rank, sort_checks, run, tag_status,
  digest_status, text_before, disk_need,
}
use qfn_pgx.Doctor.Order.{of_rank, by_urgency, sort_checks-by_urgency}

abbrev pub is_bad : Check → Bool
is_bad c = rank c.status == 0

any-append : (f : Check → Bool) (a b : List Check) → any f (a ++ b) ≡ (any f a || any f b)
any-append f [] b = refl
any-append f (c ∷ a) b = ground (arith, any-append f a b)

bad_of_rank : (n : ℕ) (cs : List Check) → (n == 0) ≡ false → any is_bad (of_rank n cs) ≡ false
unfolding of_rank
bad_of_rank n [] h = refl
bad_of_rank n (c ∷ cs) h = ground (arith, bad_of_rank n cs h, h)

bad_first : (cs : List Check) → any is_bad (of_rank 0 cs) ≡ any is_bad cs
unfolding of_rank
bad_first [] = refl
bad_first (c ∷ cs) = ground (arith, bad_first cs)

any_bad-sort_checks : (cs : List Check) → any is_bad (sort_checks cs) ≡ any is_bad cs
any_bad-sort_checks cs =
    let rest = any-append is_bad (of_rank 1 cs) (of_rank 2 cs) in
    ap (any is_bad) (sort_checks-by_urgency cs)
    ∙ any-append is_bad (of_rank 0 cs) (of_rank 1 cs ++ of_rank 2 cs)
    ∙ ground (arith, rest, bad_first cs, bad_of_rank 1 cs refl, bad_of_rank 2 cs refl)

-- The five conditions that the doctor takes for essential: docker, its nvidia runtime, the image unless its
-- probe failed, the directory of the checkpoint, and its hybrid variant in that mode.
abbrev pub image_usable : Image → Bool
image_usable missing = false
image_usable _ = true

abbrev pub is_ready : {F : Type 0} → Engine F → Host F → Bool
is_ready e h =
    is_some h.version
    && mentions_nvidia h.info
    && image_usable h.image
    && h.repo_exists
    && (not (e.mode == "hybrid") || h.hybrid_prepared)

bad_image : (i : Image) → is_bad (check "engine.image" (image_status i)) ≡ not (image_usable i)
unfolding image_status
bad_image probe_failed = refl
bad_image missing = refl
bad_image present = refl

ok_or_warn : (b : Bool) → (rank (ok_or warn b) == 0) ≡ false
ok_or_warn true = refl
ok_or_warn false = refl

ok_or_bad : (b : Bool) → (rank (ok_or bad b) == 0) ≡ not b
ok_or_bad true = refl
ok_or_bad false = refl

tag_not_bad :
    (digest_of : Text → Option Text) (want : Text) (s : Option Text)
    → (rank (tag_status digest_of want s) == 0) ≡ false
unfolding tag_status digest_status
tag_not_bad digest_of want none = refl
tag_not_bad digest_of want (some out) = elim (Option-cases (digest_of out)) [
  | inl p ↦ rw p refl
  | inr (d, p) ↦ rw p (ok_or_warn (d == want))
]

ready_parts :
    (a b c d f : Bool)
    → (not a || (not b || (not c || (not (d && f) || false)))) ≡ not (a && b && c && d && f)
ready_parts true true true true true = refl
ready_parts true true true true false = refl
ready_parts true true true false f = refl
ready_parts true true false d f = refl
ready_parts true false c d f = refl
ready_parts false b c d f = refl

two_not_bad : (b c : Bool) → b ≡ false → c ≡ false → (b || (c || false)) ≡ false
two_not_bad b c h k = ground (arith, h, k)

module _ {F : Type 0} (fl : Floats F) (e : Engine F) (model : Text) (h : Host F) where
  tag_check_not_bad : is_bad (base_tag_check fl h) ≡ false
  unfolding base_tag_check
  tag_check_not_bad = elim (Bool-cases (h.base_ref == [])) [
    | inl p ↦ rw p refl
    | inr p ↦ rw p (
        tag_not_bad h.digest_of h.pinned_digest
          (h.imagetools (text_before h.base_ref (cut b'@' h.base_ref))))
  ]

  base_not_bad : (quick : Bool) → any is_bad (base_checks fl quick h) ≡ false
  unfolding base_checks
  base_not_bad true = refl
  base_not_bad false = elim (Bool-cases (h.base_ref == [])) [
    | inl p ↦ rw p (ground (arith, tag_check_not_bad))
    | inr p ↦ rw p (
        two_not_bad (is_bad (check "engine.base_digest" (ok_or warn (is_some h.base_inspect))))
          (is_bad (base_tag_check fl h)) (ok_or_warn (is_some h.base_inspect)) tag_check_not_bad)
  ]

  bad_hybrid :
      (hybrid prepared : Bool)
      → any is_bad (hybrid_checks fl hybrid prepared) ≡ not (not hybrid || prepared)
  unfolding hybrid_checks
  bad_hybrid true true = refl
  bad_hybrid true false = refl
  bad_hybrid false true = refl
  bad_hybrid false false = refl

  bad_checkpoint :
      any is_bad (checkpoint_checks fl e h)
      ≡ not (h.repo_exists && (not (e.mode == "hybrid") || h.hybrid_prepared))
  unfolding checkpoint_checks
  bad_checkpoint = elim (Bool-cases h.repo_exists) [
    | inl p ↦ rw p (bad_hybrid (e.mode == "hybrid") h.hybrid_prepared)
    | inr p ↦ rw p refl
  ]

  disk_not_bad : (free : Option ℕ) → any is_bad (disk_checks fl e model free) ≡ false
  unfolding disk_checks
  disk_not_bad none = refl
  disk_not_bad (some f) = ground (arith, ok_or_warn (leb (disk_need fl e model) (f / 1048576)))

  memory_not_bad : (m : Option Text) → is_bad (memory_check fl m) ≡ false
  unfolding memory_check
  memory_not_bad none = refl
  memory_not_bad (some content) = ok_or_warn _

  pressure_not_bad : is_bad (pressure_check fl h) ≡ false
  unfolding pressure_check
  pressure_not_bad = ok_or_warn _

  telemetry_not_bad : (quick : Bool) → any is_bad (telemetry_checks fl quick h) ≡ false
  unfolding telemetry_checks
  telemetry_not_bad true = refl
  telemetry_not_bad false = ground (arith, ok_or_warn h.has_smi)

  -- The parts of the battery that can be bad, and the rest.
  battery_bad :
      (quick : Bool)
      → any is_bad (battery fl e model h quick) ≡ (
          not (is_some h.version)
          || (not (mentions_nvidia h.info)
              || (not (image_usable h.image) || (any is_bad (checkpoint_checks fl e h) || false))))
  unfolding battery
  battery_bad quick =
      let base = base_checks fl quick h in
      let point = checkpoint_checks fl e h in
      let disk = disk_checks fl e model h.free_kb in
      let end = memory_check fl h.mem_file ∷ pressure_check fl h ∷ telemetry_checks fl quick h in
      let parts =
        any-append is_bad base (point ++ (disk ++ end))
        ∙ (λ i. base_not_bad quick i || any-append is_bad point (disk ++ end) i)
        ∙ ap (λ b. any is_bad point || b)
            (any-append is_bad disk end ∙ (λ i.
              disk_not_bad h.free_kb i
              || (memory_not_bad h.mem_file i
                  || (pressure_not_bad i || telemetry_not_bad quick i)))) in
      λ i.
        ok_or_bad (is_some h.version) i
        || (ok_or_bad (mentions_nvidia h.info) i || (bad_image h.image i || parts i))

  run-is_ready : (quick : Bool) → any is_bad (run fl e model h quick) ≡ not (is_ready e h)
  unfolding run
  run-is_ready quick =
      any_bad-sort_checks (battery fl e model h quick)
      ∙ battery_bad quick
      ∙ ap
          (λ b.
            not (is_some h.version)
            || (not (mentions_nvidia h.info) || (not (image_usable h.image) || (b || false))))
          bad_checkpoint
      ∙ ready_parts (is_some h.version) (mentions_nvidia h.info) (image_usable h.image)
          h.repo_exists (not (e.mode == "hybrid") || h.hybrid_prepared)

  pub run_verdict :
      (quick : Bool)
      → (run fl e model h quick ≡ by_urgency (battery fl e model h quick))
        × (any is_bad (run fl e model h quick) ≡ not (is_ready e h))
  unfolding run
  run_verdict quick = (sort_checks-by_urgency (battery fl e model h quick), run-is_ready quick)
