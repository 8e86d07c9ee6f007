-- ===== src/Collector/History/Rings.antt =====
-- The rings of a history: in the order of time, with one entry outside the window.
use qfn_pgx.Base.{
  ℕ, ◌≡◌, refl, arith, ltb, Bool, true, false, not, ◌&&◌, ◌||◌, Option, none, some, String,
  String_eq, List, [], ◌∷◌, ◌++◌, length, if_elim, ◌==◌, ℕ_eq, Bool-cases, inl, inr,
}
use qfn_pgx.Base.Dict.{Dict, lookup, insert, lookup-insert}
use qfn_pgx.Collector.History.{
  HistAt, HistState, new_hist_state, reset, horizon_of, is_before, kept, prune_from, or_ring,
  prune_ring, newest, is_stale, ring_of, was_scraped, stored, scraped,
}

module _ {S : Type 0} where
  abbrev pub is_ascending : List (HistAt S) → Bool
  is_ascending [] = true
  is_ascending (x ∷ []) = true
  is_ascending (x ∷ y ∷ ring) = ltb x.0 y.0 && is_ascending (y ∷ ring)

  abbrev ascending_if : Option (List (HistAt S)) → Bool
  ascending_if none = true
  ascending_if (some ring) = is_ascending ring

  tail_ascending :
      (x : HistAt S) (ring : List (HistAt S))
      → is_ascending (x ∷ ring) ≡ true
      → is_ascending ring ≡ true
  tail_ascending x [] h = refl
  tail_ascending x (y ∷ ring) h = ground (arith, h)

  kept_tail :
      (prev : Option (HistAt S)) (ring : List (HistAt S))
      → is_ascending (kept prev ring) ≡ true
      → is_ascending ring ≡ true
  kept_tail none ring h = h
  kept_tail (some x) ring h = tail_ascending x ring h

  prune_from-ascending :
      (now horizon : ℕ) (prev : Option (HistAt S)) (ring : List (HistAt S))
      → is_ascending (kept prev ring) ≡ true
      → ascending_if (prune_from now horizon prev ring) ≡ true
  unfolding prune_from
  prune_from-ascending now horizon prev [] h = refl
  prune_from-ascending now horizon prev (x ∷ ring) h = elim (Bool-cases (is_before now horizon x)) [
    | inl p ↦ rw p (prune_from-ascending now horizon (some x) ring (kept_tail prev (x ∷ ring) h))
    | inr p ↦ rw p h
  ]

  or_ring-ascending :
      (ring : List (HistAt S)) (o : Option (List (HistAt S)))
      → is_ascending ring ≡ true
      → ascending_if o ≡ true
      → is_ascending (or_ring ring o) ≡ true
  or_ring-ascending ring none h k = h
  or_ring-ascending ring (some r) h k = k

  prune_ring-ascending :
      (ring : List (HistAt S)) (now horizon : ℕ)
      → is_ascending ring ≡ true
      → is_ascending (prune_ring ring now horizon) ≡ true
  unfolding prune_ring
  prune_ring-ascending ring now horizon h =
      or_ring-ascending ring (prune_from now horizon none ring) h
        (prune_from-ascending now horizon none ring h)

  append-ascending :
      (ring : List (HistAt S)) (now : ℕ) (cur : S)
      → is_ascending ring ≡ true
      → is_stale now (newest ring) ≡ false
      → is_ascending (ring ++ (now, cur) ∷ []) ≡ true
  append-ascending [] now cur h k = refl
  append-ascending (x ∷ []) now cur h k = ground (arith, k)
  append-ascending (x ∷ y ∷ ring) now cur h k =
      ground (arith, h, append-ascending (y ∷ ring) now cur, k)

  -- The rings of all families.
  abbrev Ascending : Dict String (List (HistAt S)) → Type 0
  Ascending rings = (name : String) → is_ascending (ring_of (lookup name rings)) ≡ true

  insert-Ascending :
      (name : String) (ring : List (HistAt S)) (rings : Dict String (List (HistAt S)))
      → is_ascending ring ≡ true
      → Ascending rings
      → Ascending (insert name ring rings)
  insert-Ascending name ring rings h a = λ other. rw (lookup-insert name other ring rings) (
      if_elim (λ (o : Option (List (HistAt S))). is_ascending (ring_of o) ≡ true) (name == other) _
        _ (λ p. h) (λ p. a other))

  scraped-Ascending :
      (name : String) (now : ℕ) (cur : S) (hs : HistState S)
      → Ascending hs.rings
      → Ascending (scraped name now cur hs).rings
  unfolding scraped stored
  scraped-Ascending name now cur hs a =
      let ring = ring_of (lookup name hs.rings) in
      let h = horizon_of hs.horizon in
      let P : HistState S → Type 0 = λ x. Ascending x.rings in
      if_elim P (not (was_scraped (lookup name hs.last)) || length ring == 0) _ _
        (λ p.
          insert-Ascending name _ hs.rings (prune_ring-ascending ((now, cur) ∷ []) now h refl) a)
        (λ p.
          if_elim P (is_stale now (newest ring)) _ _
            (λ q. insert-Ascending name ring hs.rings (a name) a)
            (λ q.
              insert-Ascending name _ hs.rings
                (prune_ring-ascending (ring ++ (now, cur) ∷ []) now h
                  (append-ascending ring now cur (a name) q))
                a))

-- A scrape of a family at a time, or a reset.
pub data Step (S : Type 0) : Type 0 where
  scrape : String → ℕ → S → Step S
  restart : Step S

unfoldable pub run : {S : Type 0} → List (Step S) → HistState S → HistState S
run [] hs = hs
run (scrape name now cur ∷ steps) hs = run steps (scraped name now cur hs)
run (restart ∷ steps) hs = run steps (reset hs)

run-Ascending :
    {S : Type 0} (steps : List (Step S)) (hs : HistState S)
    → Ascending hs.rings
    → Ascending (run steps hs).rings
unfolding run reset lookup
run-Ascending [] hs a = a
run-Ascending (scrape name now cur ∷ steps) hs a =
    run-Ascending steps (scraped name now cur hs) (scraped-Ascending name now cur hs a)
run-Ascending (restart ∷ steps) hs a = run-Ascending steps (reset hs) (λ name. refl)

-- However scrapes come, stale, repeated, out of order, of any families and with resets between them, the
-- ring of a family is always in the strict order of time, so that the window never runs backwards.
pub rings_ascending :
    {S : Type 0} (steps : List (Step S)) (name : String)
    → is_ascending (ring_of (lookup name (run steps new_hist_state).rings)) ≡ true
unfolding lookup
rings_ascending steps name = run-Ascending steps new_hist_state (λ other. refl) name
