-- ===== src/Collector/Window/Tests.antt =====
-- A window of two scrapes in which ten requests were counted.
use qfn_pgx.Base.{ℕ, ◌*◌, ◌≡◌, refl, false, leb, ltb, ◌&&◌, ◌⊎◌, none, some, [], ◌∷◌}
use qfn_pgx.Collector.Window.{HistSnap, inside, quantile_window}
use qfn_pgx.Collector.Window.Inside.{counted, windowed, Located, quantile_window-inside}

abbrev before : HistSnap ℕ
before = (1, 5) ∷ (2, 6) ∷ (5, 6) ∷ []

abbrev after : HistSnap ℕ
after = (1, 7) ∷ (2, 12) ∷ (5, 16) ∷ []

median : quantile_window leb before after 1 2 ≡ some (inside (some 1) 2 6 8)
unfolding quantile_window
median = refl

quantile_window-inside_example :
    let out = quantile_window leb before after 1 2 in
    ((out ≡ none) × (((ltb 0 1 && ltb 1 2) ≡ false) ⊎ (counted leb before after ≡ 0)))
    ⊎ Located (1 * counted leb before after) 2 0 none (windowed leb before after) out
quantile_window-inside_example = quantile_window-inside leb before after 1 2
