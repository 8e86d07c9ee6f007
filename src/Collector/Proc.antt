-- ===== src/Collector/Proc.antt =====
-- internal/collector/sysproc.go: the counters of /proc/meminfo, /proc/vmstat and /proc/stat, and the busy
-- fractions; `io.stat` and the key-value files of internal/collector/cgroup.go. A `uint64` wraps at 2 ^ 64. A
-- fraction is its numerator and denominator.
pub mod Usage
mod Tests
use qfn_pgx.Base.{
  ℕ, zero, suc, ◌+◌, ◌-◌, ◌%◌, ◌^◌, ltb, leb, Bool, true, false, not, ◌&&◌, ◌||◌, Option, none,
  some, List_eq, ℕ_eq, ◌==◌, List, [], ◌∷◌, ◌++◌, length, drop, if◌then◌else◌,
}
use qfn_pgx.Base.Int.{ℤ, pos, negsuc}
use qfn_pgx.Base.Bytes.{
  Text, codes, has_prefix, fields, split, cut, atoi, parse_uint, parse_uint_anyway,
}

-- The entry of a list, "" past its end.
abbrev pub word_at : ℕ → List Text → Text
word_at n [] = []
word_at zero (w ∷ ws) = w
word_at (suc n) (w ∷ ws) = word_at n ws

pub record MemInfo : Type 0 where
  pub mem_total_kib : ℕ
  pub mem_available_kib : ℕ
  pub swap_total_kib : ℕ
  pub swap_free_kib : ℕ
  pub cached_kib : ℕ

-- `strings.TrimSuffix(s, ":")`
unfoldable pub trim_colon : Text → Text
trim_colon [] = []
trim_colon (c ∷ []) = if c == b':' then [] else c ∷ []
trim_colon (c ∷ d ∷ s) = c ∷ trim_colon (d ∷ s)

set_mem : Text → Option ℕ → MemInfo → MemInfo
set_mem key none m = m
set_mem key (some v) m =
    if key == codes "MemTotal"
    then record m { mem_total_kib = v }
    else if key == codes "MemAvailable"
    then record m { mem_available_kib = v }
    else if key == codes "SwapTotal"
    then record m { swap_total_kib = v }
    else if key == codes "SwapFree"
    then record m { swap_free_kib = v }
    else if key == codes "Cached"
    then record m { cached_kib = v }
    else m

mem_lines : List Text → MemInfo → MemInfo
unfolding set_mem trim_colon fields parse_uint
mem_lines [] m = m
mem_lines (l ∷ ls) m =
    let f = fields l in
    mem_lines ls (
      if ltb (length f) 2
      then m
      else set_mem (trim_colon (word_at 0 f)) (parse_uint (word_at 1 f)) m)

-- `parseMemInfo`
unfoldable pub parse_mem_info : Text → MemInfo
unfolding mem_lines split
parse_mem_info content = mem_lines (split b'\n' content) (record {
  mem_total_kib = 0;
  mem_available_kib = 0;
  swap_total_kib = 0;
  swap_free_kib = 0;
  cached_kib = 0;
})

pub record VmStat : Type 0 where
  pub pswpin : ℕ
  pub pswpout : ℕ
  pub majfault : ℕ

set_vm : Text → Option ℕ → VmStat → VmStat
set_vm key none m = m
set_vm key (some v) m =
    if key == codes "pswpin"
    then record m { pswpin = v }
    else if key == codes "pswpout"
    then record m { pswpout = v }
    else if key == codes "pgmajfault"
    then record m { majfault = v }
    else m

vm_lines : List Text → VmStat → VmStat
unfolding set_vm fields parse_uint
vm_lines [] m = m
vm_lines (l ∷ ls) m =
    let f = fields l in
    vm_lines ls (if length f == 2 then set_vm (word_at 0 f) (parse_uint (word_at 1 f)) m else m)

-- `parseVMStat`
unfoldable pub parse_vm_stat : Text → VmStat
unfolding vm_lines split
parse_vm_stat content =
    vm_lines (split b'\n' content) (record { pswpin = 0; pswpout = 0; majfault = 0 })

pub record CpuTimes : Type 0 where
  pub user : ℕ
  pub nice : ℕ
  pub system : ℕ
  pub idle : ℕ
  pub iowait : ℕ
  pub irq : ℕ
  pub softirq : ℕ
  pub steal : ℕ

abbrev pub no_times : CpuTimes
no_times = record {
  user = 0;
  nice = 0;
  system = 0;
  idle = 0;
  iowait = 0;
  irq = 0;
  softirq = 0;
  steal = 0;
}

-- The difference of two `uint64`.
abbrev pub minus : ℕ → ℕ → ℕ
minus a b = (a + (2 ^ 64 - b)) % 2 ^ 64

-- `total`
unfoldable pub total_time : CpuTimes → ℕ
total_time c =
    (c.user + c.nice + c.system + c.idle + c.iowait + c.irq + c.softirq + c.steal) % 2 ^ 64

-- `busy`
unfoldable pub busy_time : CpuTimes → ℕ
unfolding total_time
busy_time c = minus (minus (total_time c) c.idle) c.iowait

-- The columns of a line, 0 where they are missing.
unfoldable pub times_of : List Text → CpuTimes
unfolding parse_uint_anyway
times_of f = record {
  user = parse_uint_anyway (word_at 1 f);
  nice = parse_uint_anyway (word_at 2 f);
  system = parse_uint_anyway (word_at 3 f);
  idle = parse_uint_anyway (word_at 4 f);
  iowait = parse_uint_anyway (word_at 5 f);
  irq = parse_uint_anyway (word_at 6 f);
  softirq = parse_uint_anyway (word_at 7 f);
  steal = parse_uint_anyway (word_at 8 f);
}

-- `cores[idx] = t`, after empty entries where the list is too short.
unfoldable pub put_core : ℕ → CpuTimes → List CpuTimes → List CpuTimes
put_core zero t [] = t ∷ []
put_core zero t (c ∷ cores) = t ∷ cores
put_core (suc n) t [] = no_times ∷ put_core n t []
put_core (suc n) t (c ∷ cores) = c ∷ put_core n t cores

-- An index that is negative, which the kernel does not write, panics in the code and is left out here.
abbrev put_at : Option ℤ → CpuTimes → List CpuTimes → List CpuTimes
put_at (some (pos n)) t cores = put_core n t cores
put_at _ t cores = cores

stat_line : List Text → CpuTimes × List CpuTimes → CpuTimes × List CpuTimes
unfolding times_of put_core has_prefix atoi
stat_line f (total, cores) =
    if ltb (length f) 5 || not (has_prefix (word_at 0 f) (codes "cpu"))
    then (total, cores)
    else if word_at 0 f == codes "cpu"
    then (times_of f, cores)
    else (total, put_at (atoi (drop 3 (word_at 0 f))) (times_of f) cores)

stat_lines : List Text → CpuTimes × List CpuTimes → CpuTimes × List CpuTimes
unfolding stat_line fields
stat_lines [] x = x
stat_lines (l ∷ ls) x = stat_lines ls (stat_line (fields l) x)

-- `parseProcStat`
unfoldable pub parse_proc_stat : Text → CpuTimes × List CpuTimes
unfolding stat_lines split
parse_proc_stat content = stat_lines (split b'\n' content) (no_times, [])

-- The fraction of one core; 0 where a difference is not positive as an `int64`.
unfoldable pub usage : CpuTimes → CpuTimes → ℕ × ℕ
unfolding total_time busy_time
usage prev cur =
    let dt = minus (total_time cur) (total_time prev) in
    let db = minus (busy_time cur) (busy_time prev) in
    if ltb 0 dt && ltb dt (2 ^ 63) && ltb db (2 ^ 63) then (db, dt) else (0, 1)

-- `usageFrom`
unfoldable pub usage_from : List CpuTimes → List CpuTimes → List (ℕ × ℕ)
unfolding usage
usage_from prev [] = []
usage_from [] (c ∷ cur) = (0, 1) ∷ usage_from [] cur
usage_from (p ∷ prev) (c ∷ cur) = usage p c ∷ usage_from prev cur

-- The bytes that `io.stat` counts, read and written.
abbrev add_io : Option (Text × Text) → ℕ × ℕ → ℕ × ℕ
add_io none io = io
add_io (some (k, v)) (read, written) =
    if k == codes "rbytes"
    then ((read + parse_uint_anyway v) % 2 ^ 64, written)
    else if k == codes "wbytes"
    then (read, (written + parse_uint_anyway v) % 2 ^ 64)
    else (read, written)

unfoldable pub add_words : List Text → ℕ × ℕ → ℕ × ℕ
unfolding cut
add_words [] io = io
add_words (w ∷ ws) io = add_words ws (add_io (cut b'=' w) io)

unfoldable pub io_lines : List Text → ℕ × ℕ → ℕ × ℕ
unfolding add_words fields
io_lines [] io = io
io_lines (l ∷ ls) io = io_lines ls (add_words (fields l) io)

-- The loop of `readCgroup` over `io.stat`.
unfoldable pub io_stat : Text → ℕ × ℕ
unfolding io_lines split
io_stat content = io_lines (split b'\n' content) (0, 0)

unfoldable pub kv_lines : Text → List Text → Option ℕ
unfolding fields parse_uint
kv_lines key [] = none
kv_lines key (l ∷ ls) =
    let rest = kv_lines key ls in
    let f = fields l in
    if length f == 2 && word_at 0 f == key then parse_uint (word_at 1 f) else rest

-- `readKV`, on the content of the file.
unfoldable pub read_kv : Text → Text → Option ℕ
unfolding kv_lines split
read_kv content key = kv_lines key (split b'\n' content)
