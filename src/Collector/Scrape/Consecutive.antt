-- ===== src/Collector/Scrape/Consecutive.antt =====
-- The engine's rates against the metrics of two consecutive ticks.
use qfn_pgx.Base.{
  ℕ, ◌+◌, ◌<◌, ◌≡◌, ◌≢◌, refl, arith, true, false, Option, none, some, List, [], ◌∷◌, if◌then◌else◌,
  Bool-cases, inl, inr,
}
use qfn_pgx.Collector.Metrics.{Floats, Metrics, rate}
use qfn_pgx.Collector.Scrape.{
  Scraper, Scraped, failed, unparsed, metrics, EngPrev, EngineState, no_prev, new_scraper, is_asked,
  after_scrape, engine_tick, fill_engine, fill_rates, prev_of, elapsed, SpecStats, no_spec,
  spec_stats, has_spec,
}

module _ {F : Type 0} (fl : Floats F) where
  open fl use {fzero, less}

  -- The metrics of a tick that got some.
  unfoldable pub fresh : Scraped F → Scraper F → Option (Metrics F)
  fresh (metrics m) s = if is_asked fl s then some m else none
  fresh _ s = none

  -- The scraper, the time of the last tick and what it got.
  unfoldable pub run_samples :
      List (Scraped F × ℕ)
      → Scraper F × Option ℕ × Option (Metrics F)
      → Scraper F × Option ℕ × Option (Metrics F)
  unfolding engine_tick fresh
  run_samples [] r = r
  run_samples ((a, now) ∷ ticks) (s, at, m) =
      run_samples ticks ((engine_tick fl a (elapsed fl at now) s).1, some now, fresh a s)

  -- Every text that was scraped could be parsed.
  abbrev pub AllParsed : List (Scraped F × ℕ) → Type 0
  AllParsed [] = Unit
  AllParsed ((a, now) ∷ ticks) = (a ≢ unparsed) × AllParsed ticks

  abbrev counters_of : Option (Metrics F) → EngPrev F
  counters_of none = no_prev fl
  counters_of (some m) = prev_of fl m

  -- The counters that are kept are those of the last tick, and none where it got none.
  abbrev Kept : Scraper F → Option (Metrics F) → Type 0
  Kept s m = (s.prev_eng ≡ counters_of m) × (0 < s.met_fail → m ≡ none)

  fill-Kept :
      (m : Metrics F) (dt : F) (s : Scraper F)
      → s.met_fail ≡ 0
      → Kept (fill_engine fl m dt s).1 (some m)
  unfolding fill_engine
  fill-Kept m dt s h = (refl, λ k. absurd (omega (arith, h, k)))

  skipped_fails : (s : Scraper F) → is_asked fl s ≡ false → 0 < s.met_fail
  unfolding is_asked
  skipped_fails s p = ground arith

  tick-Kept :
      (a : Scraped F) (dt : F) (s : Scraper F) (m : Option (Metrics F))
      → a ≢ unparsed
      → Kept s m
      → Kept (engine_tick fl a dt s).1 (fresh a s)
  unfolding engine_tick after_scrape fresh
  tick-Kept failed dt s m ok (k, f) = elim (Bool-cases (is_asked fl s)) [
    | inl p ↦ rw p (refl, λ _. refl)
    | inr p ↦ let gone = f (skipped_fails s p) in rw p (ground (arith, k, gone), λ _. refl)
  ]
  tick-Kept unparsed dt s m ok h = absurd (ok refl)
  tick-Kept (metrics new) dt s m ok (k, f) = elim (Bool-cases (is_asked fl s)) [
    | inl p ↦ rw p (fill-Kept new dt (record s { met_tick = s.met_tick + 1; met_fail = 0 }) refl)
    | inr p ↦ let gone = f (skipped_fails s p) in rw p (ground (arith, k, gone), λ _. refl)
  ]

  run-Kept :
      (ticks : List (Scraped F × ℕ)) (s : Scraper F) (at : Option ℕ) (m : Option (Metrics F))
      → AllParsed ticks
      → Kept s m
      → let r = run_samples ticks (s, at, m) in Kept r.0 r.2
  unfolding run_samples
  run-Kept [] s at m ok h = h
  run-Kept ((a, now) ∷ ticks) s at m ok h =
      run-Kept ticks (engine_tick fl a (elapsed fl at now) s).1 (some now) (fresh a s) ok.1
        (tick-Kept a (elapsed fl at now) s m ok.0 h)

  -- What is shown of two scrapes, the time between them in seconds: the tokens of the prompts and of the
  -- answers, and the speculation.
  unfoldable pub between : Option (Metrics F) → Metrics F → F → F × F × SpecStats F
  unfolding rate prev_of
  between none new dt = (fzero, fzero, no_spec fl)
  between (some old) new dt =
      let p = prev_of fl old in
      let c = prev_of fl new in
      if less fzero dt
      then (
        rate fl c.prompt p.prompt dt,
        rate fl c.generation p.generation dt,
        spec_stats fl (has_spec fl new) p c dt,
      )
      else (fzero, fzero, no_spec fl)

  abbrev pub rates_of : EngineState F → F × F × SpecStats F
  rates_of e = (e.prompt_tok_per_s, e.gen_tok_per_s, e.spec)

  rates_filled :
      (m : Option (Metrics F)) (new : Metrics F) (dt : F) (s : Scraper F)
      → s.prev_eng ≡ counters_of m
      → rates_of (fill_engine fl new dt s).0 ≡ between m new dt
  unfolding fill_engine fill_rates spec_stats between prev_of
  rates_filled none new dt s h = rw h (ground arith)
  rates_filled (some old) new dt s h = rw h (ground arith)

  asked_rates :
      (m : Option (Metrics F)) (new : Metrics F) (dt : F) (s : Scraper F)
      → s.prev_eng ≡ counters_of m
      → is_asked fl s ≡ true
      → rates_of (engine_tick fl (metrics new) dt s).0 ≡ between m new dt
  unfolding engine_tick after_scrape
  asked_rates m new dt s h p =
      rw p (rates_filled m new dt (record s { met_tick = s.met_tick + 1; met_fail = 0 }) h)

  -- After any ticks whose scrapes could be parsed, a scrape that the engine answers shows rates between it
  -- and the metrics of the tick just before, over the time since that tick: never against older counters,
  -- and 0 where the tick before got none, because the scrape failed or the dead engine was not asked.
  pub rates_consecutive :
      (ticks : List (Scraped F × ℕ)) (new : Metrics F) (now : ℕ)
      → AllParsed ticks
      → let (s, at, last) = run_samples ticks (new_scraper fl, none, none) in
        is_asked fl s ≡ true
        → rates_of (engine_tick fl (metrics new) (elapsed fl at now) s).0
          ≡ between last new (elapsed fl at now)
  rates_consecutive ticks new now ok p =
      let r = run_samples ticks (new_scraper fl, none, none) in
      asked_rates r.2 new (elapsed fl r.1 now) r.0
        (run-Kept ticks (new_scraper fl) none none ok (refl, λ _. refl)).0 p
