-- ===== src/Collector/Proc/Tests.antt =====
-- Two samples of a core, and one whose time waited ran backwards.
use qfn_pgx.Base.{none, ◌≡◌, refl, arith, true, [], ◌∷◌, all}
use qfn_pgx.Base.Bytes.{codes, parse_uint_anyway, digits_value}
use qfn_pgx.Collector.Proc.{
  CpuTimes, no_times, parse_proc_stat, usage, usage_from, read_kv, io_stat,
}
use qfn_pgx.Collector.Proc.Usage.{shares, is_fraction, usage_from-shares}

abbrev before : CpuTimes
before = record no_times { user = 10; idle = 80; iowait = 20 }

abbrev later : CpuTimes
later = record no_times { user = 40; idle = 140; iowait = 30 }

usage_from-shares_example :
    (usage_from (before ∷ []) (later ∷ later ∷ []) ≡ shares (before ∷ []) (later ∷ later ∷ []))
    × (all is_fraction (usage_from (before ∷ []) (later ∷ later ∷ [])) ≡ true)
usage_from-shares_example =
    usage_from-shares (before ∷ []) (later ∷ later ∷ [])
      ((omega arith, omega arith, omega arith), tt)

parsed :
    parse_proc_stat (codes "cpu  1 2 3 4\ncpu0 10 0 0 80 20\nintr 7")
    ≡ (record no_times { user = 1; nice = 2; system = 3; idle = 4 }, before ∷ [])
unfolding parse_proc_stat
parsed = refl

-- The kernel may take back time that was counted as waiting for a disk: the fraction is then above one.
above_one : usage before (record no_times { user = 40; idle = 80; iowait = 5 }) ≡ (30, 15)
unfolding usage
above_one = refl

-- What `readCgroup` asks of a `cpu.stat` of cgroup v2.
cpu_stat :
    (read_kv (codes "usage_usec 900\nuser_usec 700") (codes "service_usec") ≡ none)
    × (io_stat (codes "8:16 rbytes=5 wbytes=1 rios=0\n8:0 rbytes=7") ≡ (12, 1))
unfolding read_kv io_stat parse_uint_anyway digits_value
cpu_stat = (refl, refl)
