-- ===== src/Collector/Window.antt =====
-- `QuantileWindow` and `interpolate` of internal/collector/vllm.go: a quantile of what a histogram counted
-- between two scrapes. A bound is a float that is only compared: `F`, with `leq`. A count is a sum of
-- `uint64`, taken as exact, and so is the arithmetic on it. A quantile p / q is kept as a fraction, and an interpolated value as where it lies.
pub mod Inside
mod Tests
use qfn_pgx.Base.{
  ℕ, zero, suc, ◌+◌, ◌-◌, ◌*◌, ltb, leb, Bool, true, false, ◌||◌, not, ◌&&◌, Option, none, some,
  List, [], ◌∷◌, ℕ_eq, ◌==◌, if◌then◌else◌,
}

-- `histSnap`: the bounds, ascending, with their cumulative counts.
abbrev pub HistSnap : Type 0 → Type 0
HistSnap F = List (F × ℕ)

-- Where a quantile lies: at a bound, or in the bucket between two bounds (the lower is none for 0), at
-- a fraction of its width.
pub data Position (F : Type 0) : Type 0 where
  at_bound : F → Position F
  inside : Option F → F → ℕ → ℕ → Position F

-- What a bound counted in the window; a count that fell was reset.
unfoldable pub delta : ℕ → ℕ → ℕ
delta c prev = if ltb c prev then c else c - prev

-- Never less than what went before.
unfoldable pub monotone : ℕ → List ℕ → List ℕ
monotone m [] = []
monotone m (w ∷ ws) = let top = if ltb w m then m else w in top ∷ monotone top ws

-- The count of each bucket, from cumulative counts after a first one.
unfoldable pub differences : ℕ → List ℕ → List ℕ
differences prev [] = []
differences prev (w ∷ ws) = (w - prev) ∷ differences w ws

unfoldable pub total : List ℕ → ℕ
total [] = 0
total (c ∷ cs) = c + total cs

-- The bucket counts of the window.
unfoldable pub bucket_counts : List ℕ → List ℕ
unfolding monotone differences
bucket_counts wcum = differences 0 (monotone 0 wcum)

module _ {F : Type 0} (leq : F → F → Bool) where
  -- The inner loop: past the bounds that are not above, with the last count.
  unfoldable pub advance : F → HistSnap F → ℕ → HistSnap F × ℕ
  advance le [] last = ([], last)
  advance le ((b, c) ∷ rest) last =
      let more = advance le rest c in if leq b le then more else ((b, c) ∷ rest, last)

  unfoldable pub window : HistSnap F → ℕ → HistSnap F → List ℕ
  unfolding advance delta
  window prev last [] = []
  window prev last ((le, c) ∷ cur) =
      let (rest, before) = advance le prev last in delta c before ∷ window rest before cur

-- The walk of `interpolate` for the rank `r / q`, after the bounds and counts that are passed.
unfoldable pub walk : {F : Type 0} → ℕ → ℕ → ℕ → Option F → HistSnap F → Option (Position F)
walk r q acc below [] = none
walk r q acc below ((le, c) ∷ rest) =
    let further = walk r q (acc + c) (some le) rest in
    if leb r ((acc + c) * q)
    then (if c == 0 then some (at_bound le) else some (inside below le (r - acc * q) (c * q)))
    else further

unfoldable pub last_bound : {F : Type 0} → HistSnap F → Option (Position F)
last_bound [] = none
last_bound ((le, c) ∷ []) = some (at_bound le)
last_bound ((le, c) ∷ x ∷ rest) = last_bound (x ∷ rest)

abbrev pub or_last : {F : Type 0} → HistSnap F → Option (Position F) → Option (Position F)
or_last buckets none = last_bound buckets
or_last buckets (some at) = some at

-- `interpolate`, on the buckets with their own counts.
unfoldable pub interpolate : {F : Type 0} → ℕ → ℕ → ℕ → HistSnap F → Option (Position F)
unfolding walk last_bound
interpolate p q sum buckets = or_last buckets (walk (p * sum) q 0 none buckets)

abbrev pub with_counts : {F : Type 0} → HistSnap F → List ℕ → HistSnap F
with_counts [] cs = []
with_counts ((le, w) ∷ cur) [] = []
with_counts ((le, w) ∷ cur) (c ∷ cs) = (le, c) ∷ with_counts cur cs

-- `QuantileWindow`: none for `false`.
unfoldable pub quantile_window :
    {F : Type 0} → (F → F → Bool) → HistSnap F → HistSnap F → ℕ → ℕ → Option (Position F)
unfolding window bucket_counts total interpolate
quantile_window leq prev [] p q = none
quantile_window leq prev ((le, c) ∷ cur) p q =
    let counts = bucket_counts (window leq prev 0 ((le, c) ∷ cur)) in
    if not (ltb 0 p && ltb p q)
    then none
    else if total counts == 0
    then none
    else interpolate p q (total counts) (with_counts ((le, c) ∷ cur) counts)
