-- ===== src/Collector/Sampler/Tests.antt =====
-- A collector on a box whose files can be read at some ticks only, with two subscribers.
use qfn_pgx.Base.{
  ℕ, ◌*◌, ◌≤◌, ◌≡◌, refl, ltb, Option, none, some, String_eq, List_eq, ℕ_eq, ◌==◌, List, [], ◌∷◌,
  arith, ◌++◌, length, if◌then◌else◌,
}
use qfn_pgx.Base.Bytes.{Text, codes, parse_uint, parse_digits, digits_value}
use qfn_pgx.Base.Dict.{lookup, insert}
use qfn_pgx.Collector.Metrics.{Metric, Metrics, no_gpu, hist_snap, count_at, whole}
use qfn_pgx.Collector.Metrics.Bounds.{IsOrdered, IsAscending, series_counts_at}
use qfn_pgx.Collector.Metrics.Merged.{hist_snap-IsAscending}
use qfn_pgx.Collector.Window.{HistSnap}
use qfn_pgx.Collector.Scrape.{is_asked, engine_tick, elapsed, new_scraper}
use qfn_pgx.Collector.Scrape.Consecutive.{run_samples, rates_of, between}
use qfn_pgx.Collector.Sampler.{
  Snapshot, Settings, Io, sample_once, new_collector, scrape_engine, subscribe, tick,
}
use qfn_pgx.Collector.Sampler.Broadcast.{
  Event, ticked, subscribed, reads, watch_all, Misses, newest, reads_in_order,
}
use qfn_pgx.Collector.Sampler.Engine.{run_collector, answers, snapshot_rates}

abbrev cfg : Settings
cfg = record {
  engine_base = codes "http://x/";
  engine_key = [];
  container_name = [];
  interval = 1000000000;
}

abbrev vmstat : Option Text → Text → Option Text
vmstat content path = if path == codes "/proc/vmstat" then content else none

abbrev report : ℕ → Metrics ℕ
report tokens = record {
  families =
      (
        "vllm:generation_tokens_total",
        record { gauge = none; counter = some tokens; histogram = none } ∷ [],
      )
      ∷ [];
  scraped_at = 0;
}

abbrev meets : ℕ → Option Text → Io ℕ
meets second content = record {
  now = second * 1000000000;
  system = record { read_file = vmstat content; stat_free_kb = none; container_id = none };
  gpu = no_gpu whole;
  scrape = λ url key. if url == codes "http://x/metrics" then some (codes "m") else none;
  parse_metrics = λ text. some (report (second * 10));
}

abbrev events : List (Event ℕ)
events =
    ticked (meets 1 none)
    ∷ subscribed 8
    ∷ ticked (meets 2 none)
    ∷ reads 7
    ∷ reads 8
    ∷ ticked (meets 3 none)
    ∷ []

reads_in_order_example :
    let w =
      watch_all whole cfg 7 events
        (record { collector = subscribe whole 7 (new_collector whole); taken = []; made = [] }) in
    (buffered : List (Snapshot ℕ)) × (lookup 7 w.collector.subs ≡ some buffered)
    × (length buffered ≤ 4)
    × Misses (w.taken ++ buffered) w.made
    × (w.collector.last ≡ newest whole cfg 7 none w.made)
    × (lookup 7 (tick whole cfg (meets 4 none) w.collector).subs
        ≡ some (
            if ltb (length buffered) 4
            then buffered ++ (sample_once whole cfg (meets 4 none) w.collector).0 ∷ []
            else buffered))
reads_in_order_example =
    reads_in_order whole cfg 7 (new_collector whole) events (meets 4 none)
      (tt, (refl, (tt, (tt, (tt, (tt, tt))))))

abbrev ticks : List (Io ℕ)
ticks = meets 1 none ∷ meets 2 none ∷ []

snapshot_rates_example :
    let c = run_collector whole cfg ticks (new_collector whole) in
    let r = run_samples whole (answers whole cfg ticks) (new_scraper whole, none, none) in
    rates_of whole (sample_once whole cfg (meets 3 none) c).0.engine
    ≡ between whole r.2 (report 30) (elapsed whole r.1 (3 * 1000000000))
unfolding run_samples engine_tick is_asked scrape_engine answers
snapshot_rates_example =
    snapshot_rates whole cfg ticks (meets 3 none) (report 30) refl ((λ p. cc), ((λ p. cc), tt)) refl
      refl

abbrev buckets : List (Option ℕ × ℕ)
buckets = (some 5, 2) ∷ (some 1, 1) ∷ (none, 9) ∷ []

abbrev family : List (Metric ℕ)
family =
    record { gauge = none; counter = none; histogram = some buckets }
    ∷ record { gauge = none; counter = none; histogram = some ((some 3, 4) ∷ (some 5, 7) ∷ []) }
    ∷ []

abbrev one_family : Metrics ℕ
one_family = record { families = ("ttft", family) ∷ []; scraped_at = 0 }

abbrev merged : HistSnap ℕ
merged = (1, 1) ∷ (3, 4) ∷ (5, 9) ∷ []

whole-IsOrdered : IsOrdered whole
whole-IsOrdered = record {
  same_iff = λ a b. ℕ_eq.same_iff a b;
  asym = λ a b h. ground (arith, h);
  total = λ a b h k. ground (arith, h, k);
}

hist_snap-IsAscending_example :
    IsAscending whole merged × ((k : ℕ) → count_at whole k merged ≡ series_counts_at whole k family)
unfolding hist_snap lookup
hist_snap-IsAscending_example =
    hist_snap-IsAscending whole whole-IsOrdered one_family "ttft" family merged refl refl

-- A tick that cannot read /proc/vmstat: the pages of three seconds are shown as those of one.
unread_tick :
    let c =
      run_collector whole cfg
        (meets 1 (some (codes "pswpin 10")) ∷ meets 2 none ∷ meets 3 none ∷ [])
        (new_collector whole) in
    (sample_once whole cfg (meets 4 (some (codes "pswpin 40"))) c).0.host.swap_in_per_s ≡ 30
unfolding run_collector sample_once tick parse_uint parse_digits digits_value lookup insert
unread_tick = refl
