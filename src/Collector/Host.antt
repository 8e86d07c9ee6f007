-- ===== src/Collector/Host.antt =====
-- The host's and the container's part of `SampleOnce` in internal/collector/collector.go, and `readCgroup` of
-- internal/collector/cgroup.go. `filepath.Join` is a concatenation, which it is for a container's id.
use qfn_pgx.Base.{
  ℕ, ◌-◌, ltb, Bool, true, false, not, ◌&&◌, ◌||◌, Option, none, some, String, String_eq, List_eq,
  ℕ_eq, ◌==◌, List, [], ◌∷◌, ◌++◌, length, if◌then◌else◌,
}
use qfn_pgx.Base.Dict.{Dict, insert}
use qfn_pgx.Base.Bytes.{Text, codes, trim_space, parse_uint}
use qfn_pgx.Collector.Metrics.{Floats, Psi, rate_u, parse_psi, load_avg}
use qfn_pgx.Collector.Proc.{
  parse_mem_info, VmStat, parse_vm_stat, CpuTimes, no_times, parse_proc_stat, usage_from, minus,
  io_stat, read_kv,
}

-- `HostState`; a fraction of a CPU is its numerator and denominator.
pub record HostState (F : Type 0) : Type 0 where
  pub mem_total_kib : ℕ
  pub mem_available_kib : ℕ
  pub mem_used_kib : ℕ
  pub swap_total_kib : ℕ
  pub swap_used_kib : ℕ
  pub cached_kib : ℕ
  pub psi : Dict String (Psi F)
  pub swap_in_per_s : F
  pub swap_out_per_s : F
  pub maj_fault_per_s : F
  pub per_core : List (ℕ × ℕ)
  pub cpu_total : ℕ × ℕ
  pub load1 : F
  pub hf_free_kib : ℕ

-- The counters of the host that the collector keeps.
pub record HostPrev : Type 0 where
  pub prev_vm : VmStat
  pub prev_stat : CpuTimes
  pub prev_cores : List CpuTimes

abbrev pub new_host_prev : HostPrev
new_host_prev = record {
  prev_vm = record { pswpin = 0; pswpout = 0; majfault = 0 };
  prev_stat = no_times;
  prev_cores = [];
}

-- `ContainerState`
pub record ContainerState (F : Type 0) : Type 0 where
  pub id : Text
  pub mem_bytes : ℕ
  pub cpu_per_s : F
  pub read_bps : F
  pub write_bps : F

-- `CgroupStats`
pub record CgroupStats : Type 0 where
  pub mem_current : ℕ
  pub cpu_usec : ℕ
  pub read_bytes : ℕ
  pub write_bytes : ℕ
  pub found : Bool

-- `cgPrev`, with the container's id and when it was looked up.
pub record ContainerPrev : Type 0 where
  pub prev_cpu_usec : ℕ
  pub prev_read_bytes : ℕ
  pub prev_write_bytes : ℕ
  pub seen : Bool
  pub cg_id : Text
  pub cg_id_at : Option ℕ

abbrev pub new_container_prev : ContainerPrev
new_container_prev = record {
  prev_cpu_usec = 0;
  prev_read_bytes = 0;
  prev_write_bytes = 0;
  seen = false;
  cg_id = [];
  cg_id_at = none;
}

-- What the operating system answers during a sample: the files, none for an error, the free space, and the
-- container's id, none for an error.
pub record System : Type 0 where
  pub read_file : Text → Option Text
  pub stat_free_kb : Option ℕ
  pub container_id : Option Text

-- `cgroupPath`
unfoldable pub cgroup_path : Text → Text
cgroup_path id = codes "/sys/fs/cgroup/system.slice/docker-" ++ (id ++ codes ".scope")

-- `readFileUint`, on the content of the file.
unfoldable pub read_file_uint : Option Text → Option ℕ
unfolding trim_space parse_uint
read_file_uint none = none
read_file_uint (some b) = parse_uint (trim_space b)

abbrev or_zero : Option ℕ → ℕ
or_zero none = 0
or_zero (some n) = n

abbrev is_read {ℓ} : {A : Type ℓ} → Option A → Bool
is_read none = false
is_read (some b) = true

cpu_of : Option Text → ℕ
unfolding read_kv
cpu_of none = 0
cpu_of (some b) = or_zero (read_kv b (codes "service_usec"))

io_of : Option Text → ℕ × ℕ
unfolding io_stat
io_of none = (0, 0)
io_of (some b) = io_stat b

-- `readCgroup`
unfoldable pub read_cgroup : System → Text → CgroupStats
unfolding cgroup_path read_file_uint cpu_of io_of
read_cgroup sys id =
    let dir = cgroup_path id in
    let current = read_file_uint (sys.read_file (dir ++ codes "/memory.current")) in
    let io = sys.read_file (dir ++ codes "/io.stat") in
    record {
      mem_current = or_zero current;
      cpu_usec = cpu_of (sys.read_file (dir ++ codes "/cpu.stat"));
      read_bytes = (io_of io).0;
      write_bytes = (io_of io).1;
      found = is_read current || is_read io;
    }

module _ {F : Type 0} (fl : Floats F) where
  open fl use {fzero, fdiv, less, of_nat}

  abbrev pub no_host : HostState F
  no_host = record {
    mem_total_kib = 0;
    mem_available_kib = 0;
    mem_used_kib = 0;
    swap_total_kib = 0;
    swap_used_kib = 0;
    cached_kib = 0;
    psi = [];
    swap_in_per_s = fzero;
    swap_out_per_s = fzero;
    maj_fault_per_s = fzero;
    per_core = [];
    cpu_total = (0, 1);
    load1 = fzero;
    hf_free_kib = 0;
  }

  with_memory : Option Text → HostState F → HostState F
  unfolding parse_mem_info
  with_memory none h = h
  with_memory (some b) h =
      let m = parse_mem_info b in
      record h {
        mem_total_kib = m.mem_total_kib;
        mem_available_kib = m.mem_available_kib;
        mem_used_kib = minus m.mem_total_kib m.mem_available_kib;
        swap_total_kib = m.swap_total_kib;
        swap_used_kib = minus m.swap_total_kib m.swap_free_kib;
        cached_kib = m.cached_kib;
      }

  with_pressure : String → Option Text → HostState F → HostState F
  unfolding parse_psi insert
  with_pressure res none h = h
  with_pressure res (some b) h = record h { psi = insert res (parse_psi fl b) h.psi }

  unfoldable pub with_vm : Option Text → F → HostState F × HostPrev → HostState F × HostPrev
  unfolding parse_vm_stat rate_u
  with_vm none dt r = r
  with_vm (some b) dt (h, prev) =
      let cur = parse_vm_stat b in
      (
        (if less fzero dt
            then record h {
              swap_in_per_s = rate_u fl cur.pswpin prev.prev_vm.pswpin dt;
              swap_out_per_s = rate_u fl cur.pswpout prev.prev_vm.pswpout dt;
              maj_fault_per_s = rate_u fl cur.majfault prev.prev_vm.majfault dt;
            }
            else h),
        record prev { prev_vm = cur },
      )

  abbrev first_usage : List (ℕ × ℕ) → ℕ × ℕ
  first_usage [] = (0, 1)
  first_usage (u ∷ us) = u

  unfoldable pub with_stat : Option Text → HostState F × HostPrev → HostState F × HostPrev
  unfolding parse_proc_stat usage_from
  with_stat none r = r
  with_stat (some b) (h, prev) =
      let (total, cores) = parse_proc_stat b in
      (
        (if ltb 0 (length prev.prev_cores)
            then record h {
              per_core = usage_from prev.prev_cores cores;
              cpu_total = first_usage (usage_from (prev.prev_stat ∷ []) (total ∷ []));
            }
            else h),
        record prev { prev_stat = total; prev_cores = cores },
      )

  load_of : Option Text → F
  unfolding load_avg
  load_of none = fzero
  load_of (some b) = elim (load_avg fl b) [ none ↦ fzero | some l1 ↦ l1 ]

  -- The host's part of `SampleOnce`.
  unfoldable pub host_tick : System → F → HostPrev → HostState F × HostPrev
  unfolding with_memory with_pressure with_vm with_stat load_of
  host_tick sys dt prev =
      let h1 = with_memory (sys.read_file (codes "/proc/meminfo")) (no_host) in
      let h2 = with_pressure "cpu" (sys.read_file (codes "/proc/pressure/cpu")) h1 in
      let h3 = with_pressure "memory" (sys.read_file (codes "/proc/pressure/memory")) h2 in
      let h4 = with_pressure "io" (sys.read_file (codes "/proc/pressure/io")) h3 in
      let r1 = with_vm (sys.read_file (codes "/proc/vmstat")) dt (h4, prev) in
      let (h, p) = with_stat (sys.read_file (codes "/proc/stat")) r1 in
      (
        record h {
          load1 = load_of (sys.read_file (codes "/proc/loadavg"));
          hf_free_kib = or_zero sys.stat_free_kb;
        },
        p,
      )

  abbrev is_due : ℕ → Option ℕ → Bool
  is_due now none = true
  is_due now (some at) = ltb 5000000000 (now - at)

  -- The id is looked up again after five seconds, and kept where that fails.
  unfoldable pub refresh_id : Text → System → ℕ → ContainerPrev → ContainerPrev
  refresh_id name sys now prev =
      if name == [] || not (is_due now prev.cg_id_at) then prev else elim sys.container_id [
        | none ↦ record prev { cg_id_at = some now }
        | some id ↦ record prev { cg_id = id; cg_id_at = some now }
      ]

  show_cgroup : CgroupStats → F → ContainerPrev → Option (ContainerState F) × ContainerPrev
  unfolding rate_u
  show_cgroup cg dt prev =
      let moving = less fzero dt && prev.seen in
      if not cg.found then (none, prev) else (
        some (record {
          id = prev.cg_id;
          mem_bytes = cg.mem_current;
          cpu_per_s =
              if moving
              then fdiv (rate_u fl cg.cpu_usec prev.prev_cpu_usec dt) (of_nat 1000000)
              else fzero;
          read_bps = if moving then rate_u fl cg.read_bytes prev.prev_read_bytes dt else fzero;
          write_bps = if moving then rate_u fl cg.write_bytes prev.prev_write_bytes dt else fzero;
        }),
        record prev {
          prev_cpu_usec = cg.cpu_usec;
          prev_read_bytes = cg.read_bytes;
          prev_write_bytes = cg.write_bytes;
          seen = true;
        },
      )

  -- The container's part of `SampleOnce`.
  unfoldable pub container_tick :
      Text → System → ℕ → F → ContainerPrev → Option (ContainerState F) × ContainerPrev
  unfolding refresh_id read_cgroup show_cgroup
  container_tick name sys now dt prev =
      let p = refresh_id name sys now prev in
      if p.cg_id == [] then (none, p) else show_cgroup (read_cgroup sys p.cg_id) dt p
