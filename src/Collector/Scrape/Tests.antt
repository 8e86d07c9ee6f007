-- ===== src/Collector/Scrape/Tests.antt =====
-- Scrapes of an engine whose floats are whole numbers.
use qfn_pgx.Base.{ℕ, ◌+◌, ◌*◌, ◌/◌, ◌≤◌, ◌≡◌, refl, arith, none, some, String_eq, List, [], ◌∷◌}
use qfn_pgx.Base.Dict.{lookup}
use qfn_pgx.Collector.Metrics.{Metric, Metrics, gauge_of, rate, whole}
use qfn_pgx.Collector.Scrape.{
  Scraper, Scraped, failed, metrics, EngineState, no_engine, new_scraper, is_asked, engine_tick,
  elapsed, no_spec, spec_stats, has_spec,
}
use qfn_pgx.Collector.Scrape.Backoff.{asks, asks-le, run_ticks, IsSeen-after_five, IsSeen}
use qfn_pgx.Collector.Scrape.Consecutive.{run_samples, rates_of, between, rates_consecutive}

abbrev counted : ℕ → Metric ℕ
counted n = record { gauge = none; counter = some n; histogram = none }

-- What an engine reports that has read and written so many tokens.
abbrev report : ℕ → ℕ → ℕ → Metrics ℕ
report prompt generation at = record {
  families =
      ("vllm:prompt_tokens_total", counted prompt ∷ counted 5 ∷ [])
      ∷ ("vllm:generation_tokens_total", counted generation ∷ [])
      ∷ [];
  scraped_at = at;
}

abbrev second : ℕ
second = 1000000000

abbrev dead : List (Scraped ℕ × ℕ)
dead =
    (failed, 1)
    ∷ (failed, 1)
    ∷ (failed, 1)
    ∷ (failed, 1)
    ∷ (failed, 1)
    ∷ (failed, 1)
    ∷ (failed, 1)
    ∷ []

asks-le_example : asks whole dead (new_scraper whole) + 0 ≤ 3 + 7 / 5
asks-le_example =
    asks-le whole dead (new_scraper whole)
      (refl, (refl, (refl, (refl, (refl, (refl, (refl, tt)))))))

abbrev back : List (Scraped ℕ × ℕ)
back =
    (metrics (report 1 1 8), 1)
    ∷ (metrics (report 1 1 9), 1)
    ∷ (metrics (report 1 1 10), 1)
    ∷ (metrics (report 1 1 11), 1)
    ∷ (metrics (report 1 1 12), 1)
    ∷ []

abbrev gone : EngineState ℕ × Scraper ℕ
gone = (no_engine whole, record (new_scraper whole) { met_tick = 7; met_fail = 4 })

IsSeen-after_five_example : IsSeen whole (run_ticks whole back gone)
IsSeen-after_five_example =
    IsSeen-after_five whole back gone
      ((_, refl), ((_, refl), ((_, refl), ((_, refl), ((_, refl), tt))))) (omega arith)

abbrev two : List (Scraped ℕ × ℕ)
two = (failed, second) ∷ (metrics (report 10 20 0), 2 * second) ∷ []

rates_consecutive_example :
    let r = run_samples whole two (new_scraper whole, none, none) in
    rates_of whole
      (engine_tick whole (metrics (report 40 80 1)) (elapsed whole r.1 (4 * second)) r.0).0
    ≡ between whole r.2 (report 40 80 1) (elapsed whole r.1 (4 * second))
unfolding run_samples engine_tick is_asked
rates_consecutive_example =
    rates_consecutive whole two (report 40 80 1) (4 * second) ((λ p. cc), ((λ p. cc), tt)) refl

-- The rates: 30 tokens read and 60 written in two seconds.
two_rates : between whole (some (report 10 20 0)) (report 40 80 1) 2 ≡ (15, 30, no_spec whole)
unfolding between rate gauge_of spec_stats has_spec lookup
two_rates = refl
