-- ===== src/Collector/Metrics.antt =====
-- The readings of a scrape in internal/collector/vllm.go (`Gauge`, `MaxGauge`, `histSnap`), the rates of
-- internal/collector/collector.go, and the text forms of internal/collector/sysproc.go and gpu.go that
-- hold floats. A `float64` is `F`, with the operations of `Floats`; a bucket's count is a number.
pub mod Bounds
pub mod Merged
use mathlib.Core.List.{map}
use qfn_pgx.Base.{
  ℕ, ◌+◌, ◌-◌, ◌*◌, ◌/◌, ltb, Bool, true, false, not, ◌&&◌, ◌||◌, Option, none, some, String,
  String_eq, List_eq, ℕ_eq, ◌==◌, List, [], ◌∷◌, length, if◌then◌else◌,
}
use qfn_pgx.Base.Dict.{Dict, lookup}
use qfn_pgx.Base.Bytes.{Text, codes, fields, split, cut, trim_space, parse_uint_anyway}
use qfn_pgx.Collector.Proc.{word_at}
use qfn_pgx.Collector.Window.{HistSnap}

-- The operations on `float64` that the collector uses: among them `float64(n)` of a natural number, `int64(f)`
-- of a float above 10 ^ 9, `Seconds` of a duration in nanoseconds, and `strconv.ParseFloat`, whose flag is
-- whether there is no error.
pub record Floats (F : Type 0) : Type 0 where
  pub fzero : F
  pub fadd : F → F → F
  pub fsub : F → F → F
  pub fmul : F → F → F
  pub fdiv : F → F → F
  pub less : F → F → Bool
  pub same : F → F → Bool
  pub of_nat : ℕ → F
  pub seconds : ℕ → F
  pub truncate : F → ℕ
  pub parse_float : Text → F × Bool

-- `dto.Metric`: what a series holds. A bucket is its bound, none for +Inf, with its cumulative count.
pub record Metric (F : Type 0) : Type 0 where
  pub gauge : Option F
  pub counter : Option F
  pub histogram : Option (List (Option F × ℕ))

-- The families of `Metrics`, and when they were scraped.
pub record Metrics (F : Type 0) : Type 0 where
  pub families : Dict String (List (Metric F))
  pub scraped_at : ℕ

-- The PSI averages of one resource, for tasks of which some and all wait.
pub record Averages (F : Type 0) : Type 0 where
  pub avg10 : F
  pub avg60 : F
  pub avg300 : F

pub record Psi (F : Type 0) : Type 0 where
  pub psi_some : Averages F
  pub psi_full : Averages F

-- `GPU`
pub record Gpu (F : Type 0) : Type 0 where
  pub available : Bool
  pub source : String
  pub util_pct : F
  pub power_w : F
  pub temp_c : F
  pub clock_mhz : F
  pub max_power_w : F

module _ {F : Type 0} (fl : Floats F) where
  open fl use {fzero, fadd, fsub, fdiv, less, same, of_nat, parse_float}

  -- The value of a series that is a gauge or a counter.
  abbrev pub value_of : Metric F → Option F
  value_of mm = elim mm.gauge [ some v ↦ some v | none ↦ mm.counter ]

  sum_values : List (Metric F) → F → Bool → F × Bool
  sum_values [] sum found = (sum, found)
  sum_values (mm ∷ ms) sum found = elim (value_of mm) [
    | some v ↦ sum_values ms (fadd sum v) true
    | none ↦ sum_values ms sum found
  ]

  -- `Gauge`
  unfoldable pub gauge_of : Metrics F → String → F × Bool
  unfolding sum_values
  gauge_of m name = elim (lookup name m.families) [
    | none ↦ (fzero, false)
    | some f ↦ sum_values f fzero false
  ]

  max_values : List (Metric F) → F → Bool → F × Bool
  max_values [] best found = (best, found)
  max_values (mm ∷ ms) best found = elim (value_of mm) [
    | some v ↦ max_values ms (if not found || less best v then v else best) true
    | none ↦ max_values ms best found
  ]

  -- `MaxGauge`
  unfoldable pub max_gauge : Metrics F → String → F × Bool
  unfolding max_values
  max_gauge m name = elim (lookup name m.families) [
    | none ↦ (fzero, false)
    | some f ↦ max_values f fzero false
  ]

  -- `perLe[le] += n`: a NaN is never found and gets an entry each time.
  unfoldable pub add_bucket : F → ℕ → HistSnap F → HistSnap F
  add_bucket le n [] = (le, n) ∷ []
  add_bucket le n ((b, c) ∷ hs) =
      let rest = add_bucket le n hs in if same b le then (b, c + n) ∷ hs else (b, c) ∷ rest

  -- `perLe[le]`
  unfoldable pub count_at : F → HistSnap F → ℕ
  count_at le [] = 0
  count_at le ((b, c) ∷ hs) = let rest = count_at le hs in if same b le then c else rest

  -- The order of `sort.Float64s`: a NaN comes before every other number.
  unfoldable pub precedes : F → F → Bool
  precedes a b = less a b || (not (same a a) && same b b)

  unfoldable pub place : F → List F → List F
  unfolding precedes
  place le [] = le ∷ []
  place le (b ∷ bs) = let rest = place le bs in if precedes b le then b ∷ rest else le ∷ b ∷ bs

  unfoldable pub sort_bounds : List F → List F
  unfolding place
  sort_bounds [] = []
  sort_bounds (le ∷ les) = place le (sort_bounds les)

  unfoldable pub add_buckets : List (Option F × ℕ) → HistSnap F → HistSnap F
  unfolding add_bucket
  add_buckets [] hs = hs
  add_buckets ((none, n) ∷ bs) hs = add_buckets bs hs
  add_buckets ((some le, n) ∷ bs) hs = add_buckets bs (add_bucket le n hs)

  unfoldable pub add_series : List (Metric F) → HistSnap F → HistSnap F
  unfolding add_buckets
  add_series [] hs = hs
  add_series (mm ∷ ms) hs = elim mm.histogram [
    | none ↦ add_series ms hs
    | some bs ↦ add_series ms (add_buckets bs hs)
  ]

  abbrev non_empty : HistSnap F → Option (HistSnap F)
  non_empty [] = none
  non_empty (x ∷ hs) = some (x ∷ hs)

  -- The bounds of the map, in order, each with its count.
  unfoldable pub by_bound : HistSnap F → HistSnap F
  unfolding sort_bounds count_at
  by_bound per_le = map (λ le. (le, count_at le per_le)) (sort_bounds (map (λ x. x.0) per_le))

  -- `histSnap`, of a family of `Metrics`
  unfoldable pub hist_snap : Metrics F → String → Option (HistSnap F)
  unfolding add_series by_bound
  hist_snap m name = elim (lookup name m.families) [
    | none ↦ none
    | some f ↦ non_empty (by_bound (add_series f []))
  ]

  -- `rate`
  unfoldable pub rate : F → F → F → F
  rate cur prev dt =
      if not (less fzero dt)
      then fzero
      else if less cur prev
      then fdiv cur dt
      else fdiv (fsub cur prev) dt

  -- `rateU`
  unfoldable pub rate_u : ℕ → ℕ → F → F
  unfolding rate
  rate_u cur prev dt = rate (of_nat cur) (of_nat prev) dt

  abbrev no_averages : Averages F
  no_averages = record { avg10 = fzero; avg60 = fzero; avg300 = fzero }

  set_average : Text → F × Bool → Averages F → Averages F
  set_average k (f, false) a = a
  set_average k (f, true) a =
      if k == codes "avg10"
      then record a { avg10 = f }
      else if k == codes "avg60"
      then record a { avg60 = f }
      else if k == codes "avg300"
      then record a { avg300 = f }
      else a

  psi_words : List Text → Averages F → Averages F
  unfolding set_average cut
  psi_words [] a = a
  psi_words (w ∷ ws) a = elim (cut b'=' w) [
    | none ↦ psi_words ws a
    | some (k, v) ↦ psi_words ws (set_average k (parse_float v) a)
  ]

  psi_line : List Text → Psi F → Psi F
  unfolding psi_words
  psi_line [] p = p
  psi_line (kind ∷ []) p = p
  psi_line (kind ∷ w ∷ ws) p =
      if kind == codes "some"
      then record p { psi_some = psi_words (w ∷ ws) no_averages }
      else if kind == codes "full"
      then record p { psi_full = psi_words (w ∷ ws) no_averages }
      else p

  psi_lines : List Text → Psi F → Psi F
  unfolding psi_line fields
  psi_lines [] p = p
  psi_lines (l ∷ ls) p = psi_lines ls (psi_line (fields l) p)

  -- `parsePSI`
  unfoldable pub parse_psi : Text → Psi F
  unfolding psi_lines split
  parse_psi content =
      psi_lines (split b'\n' content) (record { psi_some = no_averages; psi_full = no_averages })

  -- `loadAvg`, on the content of the file.
  unfoldable pub load_avg : Text → Option F
  unfolding fields
  load_avg content = elim (fields content) [ [] ↦ none | w ∷ ws ↦ some ((parse_float w).0) ]

  abbrev pub no_gpu : Gpu F
  no_gpu = record {
    available = false;
    source = "";
    util_pct = fzero;
    power_w = fzero;
    temp_c = fzero;
    clock_mhz = fzero;
    max_power_w = fzero;
  }

  gpu_field : ℕ → List Text → F
  unfolding trim_space
  gpu_field n f = (parse_float (trim_space (word_at n f))).0

  -- `sample`, on what `nvidia-smi` prints: none for an error.
  unfoldable pub gpu_sample : Option Text → Gpu F
  unfolding gpu_field trim_space split
  gpu_sample none = no_gpu
  gpu_sample (some out) =
      let f = split b',' (word_at 0 (split b'\n' (trim_space out))) in
      if trim_space out == [] || ltb (length f) 4 then no_gpu else record {
        available = true;
        source = "nvidia-smi";
        util_pct = gpu_field 0 f;
        power_w = gpu_field 1 f;
        temp_c = gpu_field 2 f;
        clock_mhz = gpu_field 3 f;
        max_power_w = if ltb 4 (length f) then gpu_field 4 f else fzero;
      }

-- Floats that are whole numbers, on which the collector can be run.
abbrev pub whole : Floats ℕ
whole = record {
  fzero = 0;
  fadd = ◌+◌;
  fsub = ◌-◌;
  fmul = ◌*◌;
  fdiv = ◌/◌;
  less = ltb;
  same = λ a b. a == b;
  of_nat = λ n. n;
  seconds = λ n. n / 1000000000;
  truncate = λ n. n;
  parse_float = λ s. (parse_uint_anyway s, true);
}
