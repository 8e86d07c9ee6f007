-- ===== src/Doctor.antt =====
-- internal/doctor/doctor.go: the battery of checks, its order, and the memory guard before a launch. The messages
-- and the hints of a check are left out.
pub mod Order
pub mod Verdict
mod Tests
use qfn_pgx.Base.{
  ℕ, ◌+◌, ◌*◌, ◌/◌, ◌%◌, ◌^◌, ltb, leb, Bool, true, false, not, ◌&&◌, ◌||◌, Option, none, some,
  is_some, String, String_eq, List_eq, ℕ_eq, ◌==◌, List, [], ◌∷◌, ◌++◌, if◌then◌else◌,
}
use qfn_pgx.Base.Bytes.{Text, codes, contains, cut, has_prefix, split, fields, parse_uint}
use qfn_pgx.Config.Types.{Engine}
use qfn_pgx.Collector.Metrics.{Floats}
use qfn_pgx.Collector.Proc.{MemInfo, minus, trim_colon}

pub data Status : Type 0 where
  bad warn ok : Status

-- `Check`
pub record Check : Type 0 where
  pub id : String
  pub status : Status

-- The probe of the engine's image.
pub data Image : Type 0 where
  probe_failed missing present : Image

-- What the battery meets. A command's output is none for an error; `digest_of` is the regular expression that
-- finds a digest in an output, and `scan_avg10` is the scan of "some avg10=%f".
pub record Host (F : Type 0) : Type 0 where
  pub version : Option Text
  pub info : Option Text
  pub image : Image
  pub base_ref : Text
  pub base_inspect : Option Text
  pub imagetools : Text → Option Text
  pub digest_of : Text → Option Text
  pub pinned_digest : Text
  pub repo_exists : Bool
  pub hybrid_prepared : Bool
  pub free_kb : Option ℕ
  pub mem_file : Option Text
  pub pressure : String → Option Text
  pub scan_avg10 : Text → Option F
  pub has_smi : Bool

abbrev check : String → Status → Check
check id status = record { id = id; status = status }

abbrev ok_or : Status → Bool → Status
ok_or other true = ok
ok_or other false = other

abbrev text_before : Text → Option (Text × Text) → Text
text_before s none = s
text_before s (some (a, b)) = a

-- `firstLine`
unfoldable pub first_line : Text → Text
unfolding cut
first_line s = text_before s (cut b'\n' s)

set_field : Text → Option ℕ → MemInfo → MemInfo
set_field key none m = m
set_field key (some v) m =
    if key == codes "MemTotal"
    then record m { mem_total_kib = v }
    else if key == codes "MemAvailable"
    then record m { mem_available_kib = v }
    else if key == codes "SwapTotal"
    then record m { swap_total_kib = v }
    else if key == codes "SwapFree"
    then record m { swap_free_kib = v }
    else m

mem_fields : List Text → MemInfo → MemInfo
unfolding set_field trim_colon parse_uint
mem_fields [] m = m
mem_fields (key ∷ []) m = m
mem_fields (key ∷ value ∷ rest) m = set_field (trim_colon key) (parse_uint value) m

mem_lines : List Text → MemInfo → MemInfo
unfolding mem_fields fields
mem_lines [] m = m
mem_lines (l ∷ ls) m = mem_lines ls (mem_fields (fields l) m)

-- `readMemInfo` of sysfs.go, on the content of the file; the cached pages are not read.
unfoldable pub read_mem_info : Text → MemInfo
unfolding mem_lines split
read_mem_info content = mem_lines (split b'\n' content) (record {
  mem_total_kib = 0;
  mem_available_kib = 0;
  swap_total_kib = 0;
  swap_free_kib = 0;
  cached_kib = 0;
})

unfoldable pub mentions_nvidia : Option Text → Bool
unfolding contains
mentions_nvidia none = false
mentions_nvidia (some info) = contains info (codes "nvidia")

image_status : Image → Status
image_status probe_failed = warn
image_status missing = bad
image_status present = ok

digest_status : Text → Option Text → Status
digest_status want none = warn
digest_status want (some d) = ok_or warn (d == want)

tag_status : (Text → Option Text) → Text → Option Text → Status
unfolding digest_status
tag_status digest_of want none = warn
tag_status digest_of want (some out) = digest_status want (digest_of out)

module _ {F : Type 0} (fl : Floats F) where
  open fl use {fmul, fdiv, less, of_nat, truncate}

  -- `baseTagCheck`
  unfoldable pub base_tag_check : Host F → Check
  unfolding tag_status cut
  base_tag_check h =
      if h.base_ref == []
      then check "engine.base_tag" ok
      else check "engine.base_tag" (
          tag_status h.digest_of h.pinned_digest
            (h.imagetools (text_before h.base_ref (cut b'@' h.base_ref))))

  base_checks : Bool → Host F → List Check
  base_checks true h = []
  base_checks false h =
      (if h.base_ref == []
        then []
        else check "engine.base_digest" (ok_or warn (is_some h.base_inspect)) ∷ [])
      ++ base_tag_check h ∷ []

  hybrid_checks : Bool → Bool → List Check
  hybrid_checks true prepared = check "checkpoint.hybrid" (ok_or bad prepared) ∷ []
  hybrid_checks false true = check "checkpoint.hybrid" ok ∷ []
  hybrid_checks false false = []

  checkpoint_checks : Engine F → Host F → List Check
  unfolding hybrid_checks
  checkpoint_checks e h =
      if not h.repo_exists
      then check "checkpoint" bad ∷ []
      else check "checkpoint" ok ∷ hybrid_checks (e.mode == "hybrid") h.hybrid_prepared

  -- The space that a mode wants, in GiB.
  disk_need : Engine F → Text → ℕ
  unfolding has_prefix
  disk_need e model =
      (if has_prefix model (codes "nvidia/") then 138 else 130)
      + (if e.mode == "hybrid" then 13 else 0)

  disk_checks : Engine F → Text → Option ℕ → List Check
  unfolding disk_need
  disk_checks e model none = []
  disk_checks e model (some free) =
      check "disk" (ok_or warn (leb (disk_need e model) (free / 1048576))) ∷ []

  swap_busy : MemInfo → Bool
  swap_busy m =
      ltb 0 m.swap_total_kib
      && less (of_nat 20) (
          fdiv (fmul (of_nat 100) (of_nat (minus m.swap_total_kib m.swap_free_kib)))
            (of_nat m.swap_total_kib))

  memory_check : Option Text → Check
  unfolding swap_busy read_mem_info
  memory_check none = check "memory" warn
  memory_check (some content) =
      check "memory" (ok_or warn (not (swap_busy (read_mem_info content))))

  stalled : Host F → Option Text → Bool
  unfolding first_line
  stalled h none = false
  stalled h (some content) = elim (h.scan_avg10 (first_line content)) [
    | none ↦ false
    | some avg ↦ less (of_nat 5) avg
  ]

  pressure_check : Host F → Check
  unfolding stalled
  pressure_check h = check "pressure" (
      ok_or warn (
        not (
          stalled h (h.pressure "cpu")
          || stalled h (h.pressure "memory")
          || stalled h (h.pressure "io"))))

  telemetry_checks : Bool → Host F → List Check
  telemetry_checks true h = []
  telemetry_checks false h = check "gpu.telemetry" (ok_or warn h.has_smi) ∷ []

  -- The checks of `Run`, in the order in which they are made; `model` is the characters of the model's name.
  unfoldable pub battery : Engine F → Text → Host F → Bool → List Check
  unfolding mentions_nvidia image_status base_checks checkpoint_checks disk_checks memory_check
      pressure_check telemetry_checks
  battery e model h quick =
      check "docker.daemon" (ok_or bad (is_some h.version))
      ∷ check "docker.gpuruntime" (ok_or bad (mentions_nvidia h.info))
      ∷ check "engine.image" (image_status h.image)
      ∷ (base_checks quick h
          ++ (checkpoint_checks e h
              ++ (disk_checks e model h.free_kb
                  ++ (memory_check h.mem_file ∷ pressure_check h ∷ telemetry_checks quick h))))

-- The order of `sortChecks`.
abbrev pub rank : Status → ℕ
rank bad = 0
rank warn = 1
rank ok = 2

-- The sort is stable: a check stays behind those before it that are as urgent.
unfoldable pub put_check : Check → List Check → List Check
put_check c [] = c ∷ []
put_check c (d ∷ cs) =
    let rest = put_check c cs in
    if leb (rank c.status) (rank d.status) then c ∷ d ∷ cs else d ∷ rest

-- `sortChecks`
unfoldable pub sort_checks : List Check → List Check
unfolding put_check
sort_checks [] = []
sort_checks (c ∷ cs) = put_check c (sort_checks cs)

-- `Run`
unfoldable pub run : {F : Type 0} → Floats F → Engine F → Text → Host F → Bool → List Check
unfolding sort_checks battery
run fl e model h quick = sort_checks (battery fl e model h quick)

-- The KiB that `Preflight` asks for: the engine's share of the pool and 8 GiB.
unfoldable pub need_kib : {F : Type 0} → Floats F → ℕ → F → ℕ
need_kib fl pool gpu_mem = (fl.truncate (fl.fmul (fl.of_nat pool) gpu_mem) + 8 * 1048576) % 2 ^ 64

-- `Preflight`: whether the launch may go on, with the content of /proc/meminfo, none where it cannot be read.
unfoldable pub preflight : {F : Type 0} → Floats F → Option Text → F → Bool → Bool
unfolding need_kib read_mem_info
preflight fl file gpu_mem true = true
preflight fl none gpu_mem false = true
preflight fl (some content) gpu_mem false =
    let m = read_mem_info content in
    not (ltb m.mem_available_kib (need_kib fl m.mem_total_kib gpu_mem))
