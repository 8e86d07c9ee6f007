-- ===== src/Collector/Scrape/Backoff.antt =====
-- How often a dead engine is asked, and how soon one that is back is seen.
use qfn_pgx.Base.{
  ℕ, ◌+◌, ◌-◌, ◌/◌, ◌%◌, ◌≤◌, ◌≡◌, ◌≢◌, refl, arith, true, false, List, [], ◌∷◌, length,
  if◌then◌else◌, Bool-cases, ℕ_eq, inl, inr,
}
use qfn_pgx.Collector.Metrics.{Floats, Metrics}
use qfn_pgx.Collector.Scrape.{
  Scraper, Scraped, failed, metrics, EngineState, is_asked, after_scrape, engine_tick, fill_engine,
}

module _ {F : Type 0} (fl : Floats F) where
  -- The state and the engine's row after the ticks, the oldest first; a tick is what a scrape would answer
  -- and the seconds since the one before.
  unfoldable pub run_ticks :
      List (Scraped F × F) → EngineState F × Scraper F → EngineState F × Scraper F
  unfolding engine_tick
  run_ticks [] r = r
  run_ticks ((a, dt) ∷ ticks) r = run_ticks ticks (engine_tick fl a dt r.1)

  -- How many of the ticks ask the engine.
  unfoldable pub asks : List (Scraped F × F) → Scraper F → ℕ
  unfolding engine_tick is_asked
  asks [] s = 0
  asks ((a, dt) ∷ ticks) s = (if is_asked fl s then 1 else 0) + asks ticks (engine_tick fl a dt s).1

  abbrev pub AllFailed : List (Scraped F × F) → Type 0
  AllFailed [] = Unit
  AllFailed ((a, dt) ∷ ticks) = (a ≡ failed) × AllFailed ticks

  abbrev pub AllAnswered : List (Scraped F × F) → Type 0
  AllAnswered [] = Unit
  AllAnswered ((a, dt) ∷ ticks) = ((m : Metrics F) × (a ≡ metrics m)) × AllAnswered ticks

  dead_tick :
      (dt : F) (s : Scraper F)
      → ((engine_tick fl failed dt s).1.met_tick ≡ s.met_tick + 1)
        × ((engine_tick fl failed dt s).1.met_fail
            ≡ (if is_asked fl s then s.met_fail + 1 else s.met_fail))
  unfolding engine_tick after_scrape
  dead_tick dt s = elim (Bool-cases (is_asked fl s)) [
    | inl p ↦ rw p (refl, refl)
    | inr p ↦ rw p (refl, refl)
  ]

  -- An engine that does not answer is asked at the three ticks that find out, and then at no more than one
  -- in five of the ticks that follow.
  pub asks-le :
      (ticks : List (Scraped F × F)) (s : Scraper F)
      → AllFailed ticks
      → asks ticks s + s.met_tick / 5 ≤ (3 - s.met_fail) + (s.met_tick + length ticks) / 5
  unfolding asks is_asked
  asks-le [] s h = omega arith
  asks-le ((a, dt) ∷ ticks) s (p, h) =
      rw p (ground (arith, dead_tick dt s, asks-le ticks (engine_tick fl failed dt s).1 h))

  -- The engine was seen at the last tick.
  abbrev pub IsSeen : EngineState F × Scraper F → Type 0
  IsSeen r = (r.0.reachable ≡ true) × (r.1.met_fail ≡ 0)

  fill-IsSeen :
      (m : Metrics F) (dt : F) (s : Scraper F) → s.met_fail ≡ 0 → IsSeen (fill_engine fl m dt s)
  unfolding fill_engine
  fill-IsSeen m dt s h = (refl, h)

  asked-IsSeen :
      (m : Metrics F) (dt : F) (s : Scraper F)
      → is_asked fl s ≡ true
      → IsSeen (engine_tick fl (metrics m) dt s)
  unfolding engine_tick after_scrape
  asked-IsSeen m dt s p =
      rw p (fill-IsSeen m dt (record s { met_tick = s.met_tick + 1; met_fail = 0 }) refl)

  seen_asked : (s : Scraper F) → s.met_fail ≡ 0 → is_asked fl s ≡ true
  unfolding is_asked
  seen_asked s h = ground arith

  stays-IsSeen :
      (ticks : List (Scraped F × F)) (r : EngineState F × Scraper F)
      → AllAnswered ticks
      → IsSeen r
      → IsSeen (run_ticks ticks r)
  unfolding run_ticks
  stays-IsSeen [] r h seen = seen
  stays-IsSeen ((a, dt) ∷ ticks) r ((m, p), h) seen = rw p (
      stays-IsSeen ticks (engine_tick fl (metrics m) dt r.1) h
        (asked-IsSeen m dt r.1 (seen_asked r.1 seen.1)))

  waiting_tick :
      (a : Scraped F) (dt : F) (s : Scraper F)
      → is_asked fl s ≡ false
      → (engine_tick fl a dt s).1.met_tick ≡ s.met_tick + 1
  unfolding engine_tick
  waiting_tick a dt s p = rw p refl

  not_asked : (s : Scraper F) → is_asked fl s ≡ false → s.met_tick % 5 ≢ 4
  unfolding is_asked
  not_asked s p = ground arith

  IsSeen-by :
      (ticks : List (Scraped F × F)) (r : EngineState F × Scraper F)
      → AllAnswered ticks
      → 5 ≤ r.1.met_tick % 5 + length ticks
      → IsSeen (run_ticks ticks r)
  unfolding run_ticks
  IsSeen-by [] r h k = absurd (omega arith)
  IsSeen-by ((a, dt) ∷ ticks) r ((m, p), h) k = elim (Bool-cases (is_asked fl r.1)) [
    | inl asked ↦
        rw p
          (stays-IsSeen ticks (engine_tick fl (metrics m) dt r.1) h (asked-IsSeen m dt r.1 asked))
    | inr skipped ↦
        let t = waiting_tick a dt r.1 skipped in
        let n = not_asked r.1 skipped in
        IsSeen-by ticks (engine_tick fl a dt r.1) h (ground (arith, t, n, k))
  ]

  -- However long the engine was dead, once it answers every scrape it is shown as reachable after five ticks
  -- at most, with the count of failures at 0, and it stays so.
  pub IsSeen-after_five :
      (ticks : List (Scraped F × F)) (r : EngineState F × Scraper F)
      → AllAnswered ticks
      → 5 ≤ length ticks
      → IsSeen (run_ticks ticks r)
  IsSeen-after_five ticks r h k = IsSeen-by ticks r h (omega (arith, k))
