-- ===== src/Collector/Sampler/Engine.antt =====
-- The engine's rates in the snapshots of a whole collector.
use qfn_pgx.Base.{
  ℕ, ◌≡◌, refl, ap, subst, ◌∙◌, true, false, Option, none, some, List_eq, ℕ_eq, ◌==◌, List, [], ◌∷◌,
}
use qfn_pgx.Collector.Metrics.{Floats, Metrics}
use qfn_pgx.Collector.Scrape.{
  Scraper, Scraped, metrics, is_asked, engine_tick, elapsed, new_scraper,
}
use qfn_pgx.Collector.Scrape.Consecutive.{
  run_samples, fresh, AllParsed, rates_of, between, rates_consecutive,
}
use qfn_pgx.Collector.Sampler.{
  Collector, Settings, Io, sample_once, scrape_engine, new_collector, tick,
}

module _ {F : Type 0} (fl : Floats F) (cfg : Settings) where
  -- The collector after the ticks.
  unfoldable pub run_collector : List (Io F) → Collector F → Collector F
  unfolding tick
  run_collector [] c = c
  run_collector (io ∷ ios) c = run_collector ios (tick fl cfg io c)

  -- What the engine answers at the ticks, and when.
  unfoldable pub answers : List (Io F) → List (Scraped F × ℕ)
  unfolding scrape_engine
  answers [] = []
  answers (io ∷ ios) = (scrape_engine cfg io, io.now) ∷ answers ios

  sample_engine :
      (io : Io F) (c : Collector F)
      → (cfg.engine_base == []) ≡ false
      → let r = engine_tick fl (scrape_engine cfg io) (elapsed fl c.prev_at io.now) c.scraper in
        ((sample_once fl cfg io c).0.engine ≡ r.0)
        × ((sample_once fl cfg io c).1.scraper ≡ r.1)
        × ((sample_once fl cfg io c).1.prev_at ≡ some io.now)
  unfolding sample_once
  sample_engine io c p = rw p (refl, refl, refl)

  -- The collector's scraper goes through the ticks as if it were alone.
  run_scraper :
      (ios : List (Io F)) (c : Collector F) (m : Option (Metrics F))
      → (cfg.engine_base == []) ≡ false
      → let r = run_samples fl (answers ios) (c.scraper, c.prev_at, m) in
        ((run_collector ios c).scraper ≡ r.0) × ((run_collector ios c).prev_at ≡ r.1)
  unfolding run_collector answers run_samples tick
  run_scraper [] c m p = (refl, refl)
  run_scraper (io ∷ ios) c m p =
      let c' = tick fl cfg io c in
      let m' = fresh fl (scrape_engine cfg io) c.scraper in
      let one = sample_engine io c p in
      subst
        (λ (s : Scraper F × Option ℕ).
          let r = run_samples fl (answers ios) (s.0, s.1, m') in
          ((run_collector ios c').scraper ≡ r.0) × ((run_collector ios c').prev_at ≡ r.1))
        (λ i. (one.1 i, one.2 i)) (run_scraper ios c' m' p)

  -- Every text that was scraped could be parsed.
  abbrev pub Parsed : List (Io F) → Type 0
  Parsed ios = AllParsed fl (answers ios)

  -- After any ticks of a new collector whose scrapes could be parsed, a snapshot of an engine that is asked and
  -- answers shows the rates between its metrics and those of the tick just before, over the time since that
  -- tick: never against older counters, and 0 where the tick before got none, because its scrape failed or the
  -- dead engine was not asked.
  pub snapshot_rates :
      (ios : List (Io F)) (io : Io F) (new : Metrics F)
      → (cfg.engine_base == []) ≡ false
      → Parsed ios
      → scrape_engine cfg io ≡ metrics new
      → let c = run_collector ios (new_collector fl) in
        let (s, at, last) = run_samples fl (answers ios) (new_scraper fl, none, none) in
        is_asked fl s ≡ true
        → rates_of fl (sample_once fl cfg io c).0.engine
          ≡ between fl last new (elapsed fl at io.now)
  snapshot_rates ios io new p parsed got asked =
      let c = run_collector ios (new_collector fl) in
      let r = run_samples fl (answers ios) (new_scraper fl, none, none) in
      let same = run_scraper ios (new_collector fl) none p in
      let one = (sample_engine io c p).0 in
      let meets : engine_tick fl (scrape_engine cfg io) (elapsed fl c.prev_at io.now) c.scraper
          ≡ engine_tick fl (metrics new) (elapsed fl r.1 io.now) r.0 =
        λ i. engine_tick fl (got i) (elapsed fl (same.1 i) io.now) (same.0 i) in
      ap (rates_of fl) (one ∙ ap (λ x. x.0) meets)
      ∙ rates_consecutive fl (answers ios) new io.now parsed asked
