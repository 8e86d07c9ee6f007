-- ===== src/Collector/Metrics/Merged.antt =====
-- `histSnap` merges the series of a histogram.
use qfn_pgx.Base.{
  ℕ, ◌+◌, ◌≡◌, refl, sym, ap, subst, ◌∙◌, arith, true, false, Option, none, some, List, [], ◌∷◌,
  Bool-cases, Option-cases, inl, inr, if◌then◌else◌, String, String_eq,
}
use qfn_pgx.Base.Dict.{lookup}
use qfn_pgx.Collector.Window.{HistSnap}
use native.Mathlib.Nat.{zero-add}
use qfn_pgx.Collector.Metrics.Bounds.{
  IsOrdered, bucket_counts_at, series_counts_at, IsAscending, has, bounds, read_back,
  has-sort_bounds, count_at-missing, has-add_bucket, Distinct, Below, IsAscending-cons,
  IsAscending-Below,
}
use qfn_pgx.Collector.Metrics.{
  Floats, Metric, Metrics, add_bucket, count_at, precedes, place, sort_bounds, by_bound,
  add_buckets, add_series, hist_snap, non_empty,
}

module _ {F : Type 0} (fl : Floats F) (o : IsOrdered fl) where
  open fl use {same, less}

  same_refl : (a : F) → same a a ≡ true
  same_refl a = (o.same_iff a a).1 refl

  precedes-less : (a b : F) → precedes fl a b ≡ less a b
  unfolding precedes
  precedes-less a b = ground (arith, same_refl a)

  Distinct-add_bucket :
      (le : F) (n : ℕ) (hs : HistSnap F)
      → Distinct fl (bounds fl hs)
      → Distinct fl (bounds fl (add_bucket fl le n hs))
  unfolding Distinct bounds add_bucket has
  Distinct-add_bucket le n [] d = (refl, tt)
  Distinct-add_bucket le n ((b, c) ∷ hs) d = elim (Bool-cases (same b le)) [
    | inl p ↦ rw p d
    | inr p ↦ rw p (
      has-add_bucket fl b le n hs
          (elim (Bool-cases (same le b)) [
            | inl q ↦ absurd (cc (p, (o.same_iff b le).1 (sym ((o.same_iff le b).0 q))))
            | inr q ↦ q
          ])
          d.0,
      Distinct-add_bucket le n hs d.1,
    )
  ]

  other_bound :
      (k b : F) (c n : ℕ) (hs : HistSnap F)
      → (if same b k then c + n else count_at fl k hs)
        ≡ (if same b k then c else count_at fl k hs) + (if same b k then n else 0)
  other_bound k b c n hs = ground arith

  -- What is read at one bound after a count was added at another or the same.
  count_at-add_bucket :
      (k le : F) (n : ℕ) (hs : HistSnap F)
      → count_at fl k (add_bucket fl le n hs) ≡ count_at fl k hs + (if same le k then n else 0)
  unfolding count_at add_bucket
  count_at-add_bucket k le n [] = omega arith
  count_at-add_bucket k le n ((b, c) ∷ hs) = elim (Bool-cases (same b le)) [
    | inl p ↦ rw p (
        subst
          (λ x.
            (if same b k then c + n else count_at fl k hs)
            ≡ (if same b k then c else count_at fl k hs) + (if same x k then n else 0))
          ((o.same_iff b le).0 p) (other_bound k b c n hs))
    | inr p ↦ elim (Bool-cases (same b k)) [
      | inl q ↦
          let apart : same le k ≡ false = elim (Bool-cases (same le k)) [
            | inl r ↦
                absurd
                  (cc (p, (o.same_iff b le).1 ((o.same_iff b k).0 q ∙ sym ((o.same_iff le k).0 r))))
            | inr r ↦ r
          ] in
          rw (p, q, apart) (omega arith)
      | inr q ↦ rw (p, q) (count_at-add_bucket k le n hs)
    ]
  ]

  Below-place :
      (m : HistSnap F) (a le : F) (bs : List F)
      → less a le ≡ true
      → Below fl a (read_back fl m bs)
      → Below fl a (read_back fl m (place fl le bs))
  unfolding Below read_back place
  Below-place m a le [] p b = p
  Below-place m a le (c ∷ bs) p b = elim (Bool-cases (precedes fl c le)) [
    | inl q ↦ rw q b
    | inr q ↦ rw q p
  ]

  place-IsAscending :
      (m : HistSnap F) (le : F) (bs : List F)
      → has fl le bs ≡ false
      → IsAscending fl (read_back fl m bs)
      → IsAscending fl (read_back fl m (place fl le bs))
  unfolding has place read_back
  place-IsAscending m le [] d h = tt
  place-IsAscending m le (b ∷ bs) d h = elim (Bool-cases (less b le)) [
    | inl p ↦
        let (first, rest) = IsAscending-Below fl b (count_at fl b m) (read_back fl m bs) h in
        rw (precedes-less, p)
          (IsAscending-cons fl b (count_at fl b m) (read_back fl m (place fl le bs))
            (Below-place m b le bs p first) (place-IsAscending m le bs (ground (arith, d)) rest))
    | inr p ↦ rw (precedes-less, p) (o.total b le (ground (arith, d)) p, h)
  ]

  sort-IsAscending :
      (m : HistSnap F) (les : List F)
      → Distinct fl les
      → IsAscending fl (read_back fl m (sort_bounds fl les))
  unfolding Distinct sort_bounds read_back
  sort-IsAscending m [] d = tt
  sort-IsAscending m (le ∷ les) d =
      place-IsAscending m le (sort_bounds fl les) (has-sort_bounds fl le les ∙ d.0)
        (sort-IsAscending m les d.1)

  count_at-read_back :
      (k : F) (m : HistSnap F) (bs : List F)
      → count_at fl k (read_back fl m bs) ≡ (if has fl k bs then count_at fl k m else 0)
  unfolding has read_back count_at
  count_at-read_back k m [] = refl
  count_at-read_back k m (b ∷ bs) = elim (Bool-cases (same b k)) [
    | inl p ↦ rw p (ap (λ x. count_at fl x m) ((o.same_iff b k).0 p))
    | inr p ↦ rw p (count_at-read_back k m bs)
  ]

  count_at-by_bound : (k : F) (m : HistSnap F) → count_at fl k (by_bound fl m) ≡ count_at fl k m
  unfolding by_bound read_back bounds
  count_at-by_bound k m =
      count_at-read_back k m (sort_bounds fl (bounds fl m))
      ∙ rw (has-sort_bounds fl k (bounds fl m)) (elim (Bool-cases (has fl k (bounds fl m))) [
        | inl p ↦ rw p refl
        | inr p ↦ rw p (sym (count_at-missing fl k m p))
      ])

  -- A merge keeps the bounds of the map distinct, and adds so much at a bound.
  abbrev Merged : HistSnap F → (F → ℕ) → HistSnap F → Type 0
  Merged hs n hs' =
      (Distinct fl (bounds fl hs) → Distinct fl (bounds fl hs'))
      × ((k : F) → count_at fl k hs' ≡ count_at fl k hs + n k)

  add_buckets-Merged :
      (bs : List (Option F × ℕ)) (hs : HistSnap F)
      → Merged hs (λ k. bucket_counts_at fl k bs) (add_buckets fl bs hs)
  unfolding add_buckets bucket_counts_at
  add_buckets-Merged [] hs = ((λ h. h), λ k. omega arith)
  add_buckets-Merged ((none, n) ∷ bs) hs = add_buckets-Merged bs hs
  add_buckets-Merged ((some le, n) ∷ bs) hs =
      let rest = add_buckets-Merged bs (add_bucket fl le n hs) in
      (
        (λ h. rest.0 (Distinct-add_bucket le n hs h)),
        λ k. omega (arith, rest.1 k, count_at-add_bucket k le n hs),
      )

  add_series-Merged :
      (ms : List (Metric F)) (hs : HistSnap F)
      → Merged hs (λ k. series_counts_at fl k ms) (add_series fl ms hs)
  unfolding add_series series_counts_at
  add_series-Merged [] hs = ((λ h. h), λ k. omega arith)
  add_series-Merged (mm ∷ ms) hs = elim (Option-cases mm.histogram) [
    | inl p ↦ rw p (add_series-Merged ms hs)
    | inr (bs, p) ↦
        let one = add_buckets-Merged bs hs in
        let rest = add_series-Merged ms (add_buckets fl bs hs) in
        rw p ((λ h. rest.0 (one.0 h)), λ k. omega (arith, one.1 k, rest.1 k))
  ]

  non_empty_same : (hs : HistSnap F) {x : HistSnap F} → non_empty fl hs ≡ some x → hs ≡ x
  non_empty_same [] p = cc
  non_empty_same (y ∷ hs) p = cc

  hist_snap_found :
      (m : Metrics F) (name : String) (f : List (Metric F))
      → lookup name m.families ≡ some f
      → hist_snap fl m name ≡ non_empty fl (by_bound fl (add_series fl f []))
  unfolding hist_snap
  hist_snap_found m name f found = rw (found, hist_snap) refl

  -- A histogram that is read has its bounds in order, each below the next, as the quantile's walk wants, and at
  -- every bound the sum of what the buckets with that bound count in all the series, and nothing at any other.
  -- The numbers are ordinary ones: two that compare as equal are one, and of two others just one is less, so that
  -- a NaN is none of them.
  pub hist_snap-IsAscending :
      (m : Metrics F) (name : String) (f : List (Metric F)) (hs : HistSnap F)
      → lookup name m.families ≡ some f
      → hist_snap fl m name ≡ some hs
      → IsAscending fl hs × ((k : F) → count_at fl k hs ≡ series_counts_at fl k f)
  unfolding by_bound count_at Distinct bounds read_back
  hist_snap-IsAscending m name f hs found p =
      let per_le = add_series fl f [] in
      let merged = add_series-Merged f [] in
      let e = non_empty_same (by_bound fl per_le) (sym (hist_snap_found m name f found) ∙ p) in
      subst (λ x. IsAscending fl x × ((k : F) → count_at fl k x ≡ series_counts_at fl k f)) e
        (
          sort-IsAscending per_le (bounds fl per_le) (merged.0 tt),
          λ k. count_at-by_bound k per_le ∙ merged.1 k ∙ zero-add (series_counts_at fl k f),
        )
