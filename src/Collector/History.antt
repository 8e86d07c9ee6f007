-- ===== src/Collector/History.antt =====
-- `HistState` of internal/collector/vllm.go: the snapshots of a histogram that a rolling window needs. The
-- snapshots themselves are `S`.
pub mod Rings
mod Tests
use qfn_pgx.Base.{
  ℕ, zero, suc, ◌+◌, ◌-◌, ltb, Bool, true, false, not, ◌&&◌, ◌||◌, Option, none, some, String,
  String_eq, List, [], ◌∷◌, ◌++◌, length, drop, if◌then◌else◌, ◌==◌, ℕ_eq,
}
use qfn_pgx.Base.Int.{ℤ, pos, negsuc}
use qfn_pgx.Base.Dict.{Dict, lookup, insert}

-- `histAt`
abbrev pub HistAt : Type 0 → Type 0
HistAt S = ℕ × S

pub record HistState (S : Type 0) : Type 0 where
  pub horizon : ℤ
  pub rings : Dict String (List (HistAt S))
  pub last : Dict String Bool

-- `NewHistState`, and `Reset`.
abbrev pub new_hist_state : {S : Type 0} → HistState S
new_hist_state = record { horizon = pos 60000000000; rings = []; last = [] }

unfoldable pub reset : {S : Type 0} → HistState S → HistState S
reset hs = record hs { rings = []; last = [] }

-- The window's length: a minute where it is not above 0.
abbrev pub horizon_of : ℤ → ℕ
horizon_of (pos (suc n)) = suc n
horizon_of _ = 60000000000

abbrev was_scraped : Option Bool → Bool
was_scraped (some true) = true
was_scraped _ = false

module _ {S : Type 0} where
  -- `at.Before(now.Add(-horizon))`
  abbrev pub is_before : ℕ → ℕ → HistAt S → Bool
  is_before now horizon x = ltb (x.0 + horizon) now

  abbrev kept : Option (HistAt S) → List (HistAt S) → List (HistAt S)
  kept none ring = ring
  kept (some x) ring = x ∷ ring

  -- The loop of `pruneRing`, with the entry before: none where every entry is too old.
  unfoldable pub prune_from : ℕ → ℕ → Option (HistAt S) → List (HistAt S) → Option (List (HistAt S))
  prune_from now horizon prev [] = none
  prune_from now horizon prev (x ∷ ring) =
      let rest = prune_from now horizon (some x) ring in
      if is_before now horizon x then rest else some (kept prev (x ∷ ring))

  abbrev or_ring : List (HistAt S) → Option (List (HistAt S)) → List (HistAt S)
  or_ring ring none = ring
  or_ring ring (some r) = r

  unfoldable pub prune_ring : List (HistAt S) → ℕ → ℕ → List (HistAt S)
  unfolding prune_from
  prune_ring ring now horizon = or_ring ring (prune_from now horizon none ring)

  abbrev pub newest : List (HistAt S) → Option (HistAt S)
  newest [] = none
  newest (x ∷ []) = some x
  newest (x ∷ y ∷ ring) = newest (y ∷ ring)

  -- The index of the first entry that is not too old, 0 where there is none.
  unfoldable pub first_in : ℕ → ℕ → ℕ → List (HistAt S) → ℕ
  first_in now horizon i [] = 0
  first_in now horizon i (x ∷ ring) =
      let rest = first_in now horizon (i + 1) ring in if is_before now horizon x then rest else i

  abbrev pub head_of : List (HistAt S) → Option (HistAt S)
  head_of [] = none
  head_of (x ∷ ring) = some x

  -- The window's two ends in `quantilesFromRing`.
  unfoldable pub window_ends : List (HistAt S) → ℕ → ℕ → Option (HistAt S) × Option (HistAt S)
  unfolding first_in
  window_ends ring now horizon =
      let start = first_in now horizon 0 ring in
      let from = if ltb (length ring - 2) start then length ring - 2 else start in
      (head_of (drop from ring), newest ring)

  abbrev is_stale : ℕ → Option (HistAt S) → Bool
  is_stale now none = false
  is_stale now (some x) = not (ltb x.0 now)

  abbrev pub ring_of : Option (List (HistAt S)) → List (HistAt S)
  ring_of none = []
  ring_of (some ring) = ring

  stored : String → ℕ → List (HistAt S) → HistState S → HistState S
  unfolding prune_ring
  stored name now ring hs = record hs {
    rings = insert name (prune_ring ring now (horizon_of hs.horizon)) hs.rings;
    last = insert name true hs.last;
  }

  -- The state that `Quantiles` leaves after a scrape of the family at a time.
  unfoldable pub scraped : String → ℕ → S → HistState S → HistState S
  unfolding stored
  scraped name now cur hs =
      let ring = ring_of (lookup name hs.rings) in
      if not (was_scraped (lookup name hs.last)) || length ring == 0
      then stored name now ((now, cur) ∷ []) hs
      else if is_stale now (newest ring)
      then record hs { rings = insert name ring hs.rings }
      else stored name now (ring ++ (now, cur) ∷ []) hs
