-- ===== src/Collector/History/Tests.antt =====
-- Scrapes of a family with a stale one and a reset.
use qfn_pgx.Base.{ℕ, ◌≡◌, true, String_eq, List, [], ◌∷◌}
use qfn_pgx.Base.Dict.{lookup}
use qfn_pgx.Collector.History.{HistState, new_hist_state, ring_of}
use qfn_pgx.Collector.History.Rings.{Step, scrape, restart, run, is_ascending, rings_ascending}

abbrev steps : List (Step ℕ)
steps =
    scrape "ttft" 5 0
    ∷ scrape "ttft" 9 1
    ∷ scrape "ttft" 7 1
    ∷ scrape "ttft" 70000000000 2
    ∷ restart
    ∷ scrape "ttft" 80000000000 0
    ∷ []

abbrev scraped : HistState ℕ
scraped = run steps new_hist_state

rings_ascending_example : is_ascending (ring_of (lookup "ttft" scraped.rings)) ≡ true
rings_ascending_example = rings_ascending steps "ttft"
