-- ===== src/Collector/Scrape.antt =====
-- `fillEngine` and the engine's part of `SampleOnce` in internal/collector/collector.go: the scrape of the
-- engine's metrics, its rates, and how often a dead engine is asked.
pub mod Consecutive
pub mod Backoff
mod Tests
use mathlib.Core.List.{map}
use qfn_pgx.Base.{
  ℕ, zero, suc, ◌+◌, ◌-◌, ◌*◌, ◌/◌, ◌%◌, ltb, leb, Bool, true, false, not, ◌&&◌, ◌||◌, Option, none,
  some, String, String_eq, ℕ_eq, ◌==◌, List, [], ◌∷◌, length, if◌then◌else◌,
}
use qfn_pgx.Base.Dict.{lookup}
use qfn_pgx.Collector.Metrics.{Floats, Metrics, gauge_of, max_gauge, hist_snap, rate}
use qfn_pgx.Collector.Window.{HistSnap, Position, quantile_window}
use qfn_pgx.Collector.History.{
  HistAt, HistState, new_hist_state, horizon_of, ring_of, window_ends, scraped, reset,
}

-- `engPrev`: the counters of the scrape before.
pub record EngPrev (F : Type 0) : Type 0 where
  pub prompt : F
  pub generation : F
  pub prefix_q : F
  pub prefix_h : F
  pub spec_acc : F
  pub spec_draft_tok : F
  pub spec_drafts : F
  pub spec_seen : Bool
  pub seen : Bool

pub record SpecStats (F : Type 0) : Type 0 where
  pub active : Bool
  pub acceptance_pct : F
  pub accepted_per_s : F
  pub drafted_per_s : F
  pub mean_tokens : F

-- A quantile is its position in the window, none for 0.
pub record EngineState (F : Type 0) : Type 0 where
  pub reachable : Bool
  pub running : F
  pub waiting : F
  pub swapped : F
  pub kv_usage_pct : F
  pub prompt_tok_per_s : F
  pub gen_tok_per_s : F
  pub prefix_hit_ratio : F
  pub ttft_p50 : Option (Position F)
  pub ttft_p90 : Option (Position F)
  pub itl_p50 : Option (Position F)
  pub itl_p90 : Option (Position F)
  pub e2e_p50 : Option (Position F)
  pub uptime_s : F
  pub ttft_samples : ℕ
  pub spec : SpecStats F

-- The part of the collector that the scrape reads and writes.
pub record Scraper (F : Type 0) : Type 0 where
  pub hist : HistState (HistSnap F)
  pub prev_eng : EngPrev F
  pub met_tick : ℕ
  pub met_fail : ℕ

-- A scrape: an error, a text that does not parse, or its metrics.
pub data Scraped (F : Type 0) : Type 0 where
  failed unparsed : Scraped F
  metrics : Metrics F → Scraped F

module _ {F : Type 0} (fl : Floats F) where
  open fl use {fzero, fmul, fdiv, less, of_nat, seconds, truncate}

  -- The zero values.
  abbrev pub no_prev : EngPrev F
  no_prev = record {
    prompt = fzero;
    generation = fzero;
    prefix_q = fzero;
    prefix_h = fzero;
    spec_acc = fzero;
    spec_draft_tok = fzero;
    spec_drafts = fzero;
    spec_seen = false;
    seen = false;
  }

  abbrev pub no_spec : SpecStats F
  no_spec = record {
    active = false;
    acceptance_pct = fzero;
    accepted_per_s = fzero;
    drafted_per_s = fzero;
    mean_tokens = fzero;
  }

  abbrev pub no_engine : EngineState F
  no_engine = record {
    reachable = false;
    running = fzero;
    waiting = fzero;
    swapped = fzero;
    kv_usage_pct = fzero;
    prompt_tok_per_s = fzero;
    gen_tok_per_s = fzero;
    prefix_hit_ratio = fzero;
    ttft_p50 = none;
    ttft_p90 = none;
    itl_p50 = none;
    itl_p90 = none;
    e2e_p50 = none;
    uptime_s = fzero;
    ttft_samples = 0;
    spec = no_spec;
  }

  abbrev pub new_scraper : Scraper F
  new_scraper = record { hist = new_hist_state; prev_eng = no_prev; met_tick = 0; met_fail = 0 }

  abbrev counts_of : Option (HistAt (HistSnap F)) → HistSnap F
  counts_of none = []
  counts_of (some (at, full)) = full

  -- `quantilesFromRing`, for a quantile p / q; none from a ring of fewer than two scrapes.
  ring_quantile : List (HistAt (HistSnap F)) → ℕ → ℕ → ℕ × ℕ → Option (Position F)
  unfolding window_ends quantile_window
  ring_quantile ring now horizon (p, q) =
      let ends = window_ends ring now horizon in
      if ltb (length ring) 2
      then none
      else quantile_window (λ a b. not (less b a)) (counts_of ends.0) (counts_of ends.1) p q

  -- `Quantiles`, with the state that it leaves.
  unfoldable pub quantiles :
      Metrics F
      → String
      → List (ℕ × ℕ)
      → HistState (HistSnap F)
      → List (Option (Position F)) × HistState (HistSnap F)
  unfolding ring_quantile hist_snap scraped
  quantiles m name phis hs = elim (hist_snap fl m name) [
    | none ↦ (map (λ _. none) phis, hs)
    | some cur ↦
        let hs' = scraped name m.scraped_at cur hs in
        let ring = ring_of (lookup name hs'.rings) in
        (map (ring_quantile ring m.scraped_at (horizon_of hs.horizon)) phis, hs')
  ]

  abbrev nth_quantile : ℕ → List (Option (Position F)) → Option (Position F)
  nth_quantile n [] = none
  nth_quantile zero (x ∷ xs) = x
  nth_quantile (suc n) (x ∷ xs) = nth_quantile n xs

  -- The counters that `fillEngine` keeps for the next scrape.
  unfoldable pub prev_of : Metrics F → EngPrev F
  unfolding gauge_of
  prev_of m = record {
    prompt = (gauge_of fl m "vllm:prompt_tokens_total").0;
    generation = (gauge_of fl m "vllm:generation_tokens_total").0;
    prefix_q = (gauge_of fl m "vllm:prefix_cache_queries").0;
    prefix_h = (gauge_of fl m "vllm:prefix_cache_hits").0;
    spec_acc = (gauge_of fl m "vllm:spec_decode_num_accepted_tokens_total").0;
    spec_draft_tok = (gauge_of fl m "vllm:spec_decode_num_draft_tokens_total").0;
    spec_drafts = (gauge_of fl m "vllm:spec_decode_num_drafts_total").0;
    spec_seen = true;
    seen = true;
  }

  -- The rates of `fillEngine`.
  unfoldable pub fill_rates : EngPrev F → EngPrev F → F → EngineState F → EngineState F
  unfolding rate
  fill_rates prev cur dt e =
      let dq = rate fl cur.prefix_q prev.prefix_q dt in
      let dh = rate fl cur.prefix_h prev.prefix_h dt in
      if less fzero dt && prev.seen
      then record e {
        prompt_tok_per_s = rate fl cur.prompt prev.prompt dt;
        gen_tok_per_s = rate fl cur.generation prev.generation dt;
        prefix_hit_ratio = if less fzero dq then fdiv dh dq else fzero;
      }
      else e

  -- The three speculation counters are all there.
  unfoldable pub has_spec : Metrics F → Bool
  unfolding gauge_of
  has_spec m =
      (gauge_of fl m "vllm:spec_decode_num_accepted_tokens_total").1
      && (gauge_of fl m "vllm:spec_decode_num_draft_tokens_total").1
      && (gauge_of fl m "vllm:spec_decode_num_drafts_total").1

  -- The `SpecStats` of `fillEngine`.
  unfoldable pub spec_stats : Bool → EngPrev F → EngPrev F → F → SpecStats F
  unfolding rate
  spec_stats there prev cur dt =
      let ra = rate fl cur.spec_acc prev.spec_acc dt in
      let rdt = rate fl cur.spec_draft_tok prev.spec_draft_tok dt in
      let rd = rate fl cur.spec_drafts prev.spec_drafts dt in
      if there && less fzero dt && prev.seen && prev.spec_seen && (less fzero rdt || less fzero ra)
      then record {
        active = true;
        acceptance_pct = if less fzero rdt then fdiv (fmul (of_nat 100) ra) rdt else fzero;
        accepted_per_s = ra;
        drafted_per_s = rdt;
        mean_tokens = if less fzero rd then fdiv ra rd else fzero;
      }
      else no_spec

  abbrev last_count : HistSnap F → ℕ
  last_count [] = 0
  last_count ((le, c) ∷ []) = c
  last_count ((le, c) ∷ x ∷ hs) = last_count (x ∷ hs)

  abbrev samples_of : Option (HistSnap F) → ℕ
  samples_of none = 0
  samples_of (some cur) = last_count cur

  -- The engine's age from its own start time.
  unfoldable pub uptime : F × Bool → ℕ → F
  uptime (st, ok) scraped_at =
      let now = scraped_at / 1000000000 in
      if ok && less (of_nat 1000000000) st && leb (truncate st) now
      then of_nat (now - truncate st)
      else fzero

  abbrev percent : F × Bool → F
  percent (kv, ok) = if ok then fmul kv (of_nat 100) else fzero

  -- `fillEngine`
  unfoldable pub fill_engine : Metrics F → F → Scraper F → EngineState F × Scraper F
  unfolding gauge_of max_gauge hist_snap prev_of fill_rates has_spec spec_stats uptime quantiles
  fill_engine m dt s =
      let cur = prev_of m in
      let (ttft, h1) =
        quantiles m "vllm:time_to_first_token_seconds" ((1, 2) ∷ (9, 10) ∷ []) s.hist in
      let (itl, h2) = quantiles m "vllm:inter_token_latency_seconds" ((1, 2) ∷ (9, 10) ∷ []) h1 in
      let (e2e, h3) = quantiles m "vllm:e2e_request_latency_seconds" ((1, 2) ∷ []) h2 in
      (
        record (fill_rates s.prev_eng cur dt no_engine) {
          reachable = true;
          running = (gauge_of fl m "vllm:num_requests_running").0;
          waiting = (gauge_of fl m "vllm:num_requests_waiting").0;
          swapped = (gauge_of fl m "vllm:num_requests_swapped").0;
          kv_usage_pct = percent (gauge_of fl m "vllm:kv_cache_usage_perc");
          ttft_p50 = nth_quantile 0 ttft;
          ttft_p90 = nth_quantile 1 ttft;
          itl_p50 = nth_quantile 0 itl;
          itl_p90 = nth_quantile 1 itl;
          e2e_p50 = nth_quantile 0 e2e;
          uptime_s = uptime (max_gauge fl m "process_start_time_seconds") m.scraped_at;
          ttft_samples = samples_of (hist_snap fl m "vllm:time_to_first_token_seconds");
          spec = spec_stats (has_spec m) s.prev_eng cur dt;
        },
        record s { hist = h3; prev_eng = cur },
      )

  -- The seconds since the sample before, 0 for the first.
  abbrev pub elapsed : Option ℕ → ℕ → F
  elapsed none now = fzero
  elapsed (some at) now = seconds (now - at)

  -- The engine is asked at this tick: while it is dead, only at every fifth.
  unfoldable pub is_asked : Scraper F → Bool
  is_asked s = not (leb 3 s.met_fail && not ((s.met_tick + 1) % 5 == 0))

  after_scrape : Scraped F → F → Scraper F → EngineState F × Scraper F
  unfolding fill_engine reset
  after_scrape failed dt s =
      let fails = s.met_fail + 1 in
      (
        no_engine,
        record s {
          met_fail = fails;
          prev_eng = no_prev;
          hist = if leb 3 fails then reset s.hist else s.hist;
        },
      )
  after_scrape unparsed dt s = (no_engine, record s { met_fail = 0 })
  after_scrape (metrics m) dt s = fill_engine m dt (record s { met_fail = 0 })

  -- The engine's part of `SampleOnce`, with what a scrape would answer.
  unfoldable pub engine_tick : Scraped F → F → Scraper F → EngineState F × Scraper F
  unfolding is_asked after_scrape
  engine_tick answer dt s =
      let ticked = record s { met_tick = s.met_tick + 1 } in
      if is_asked s then after_scrape answer dt ticked else (no_engine, ticked)
