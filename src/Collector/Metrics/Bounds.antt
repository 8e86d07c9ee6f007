-- ===== src/Collector/Metrics/Bounds.antt =====
-- The bounds of a histogram: in order, distinct, and with what is counted at each.
use mathlib.Core.List.{map}
use qfn_pgx.Base.{
  ℕ, ◌+◌, ◌≡◌, refl, ap, ◌∙◌, arith, Bool, true, false, ◌||◌, ◌↔◌, Option, none, some, List, [],
  ◌∷◌, Bool-cases, inl, inr, if◌then◌else◌, String_eq,
}
use qfn_pgx.Collector.Window.{HistSnap}
use qfn_pgx.Collector.Metrics.{Floats, Metric, add_bucket, count_at, precedes, place, sort_bounds}

-- Numbers among which no two are equal but different, and of two different ones just one is less.
pub record IsOrdered {F : Type 0} (fl : Floats F) : Type 0 where
  pub same_iff : (a b : F) → (fl.same a b ≡ true) ↔ (a ≡ b)
  pub asym : (a b : F) → fl.less a b ≡ true → fl.less b a ≡ false
  pub total : (a b : F) → fl.same a b ≡ false → fl.less a b ≡ false → fl.less b a ≡ true

module _ {F : Type 0} (fl : Floats F) where
  open fl use {same, less}

  -- What the series count up to one bound.
  unfoldable pub bucket_counts_at : F → List (Option F × ℕ) → ℕ
  bucket_counts_at k [] = 0
  bucket_counts_at k ((none, n) ∷ bs) = bucket_counts_at k bs
  bucket_counts_at k ((some le, n) ∷ bs) = (if same le k then n else 0) + bucket_counts_at k bs

  unfoldable pub series_counts_at : F → List (Metric F) → ℕ
  unfolding bucket_counts_at
  series_counts_at k [] = 0
  series_counts_at k (mm ∷ ms) = elim mm.histogram [
    | none ↦ series_counts_at k ms
    | some bs ↦ bucket_counts_at k bs + series_counts_at k ms
  ]

  -- Each bound is below the next.
  abbrev pub IsAscending : HistSnap F → Type 0
  IsAscending [] = Unit
  IsAscending ((le, c) ∷ []) = Unit
  IsAscending ((le, c) ∷ (b, d) ∷ hs) = (less le b ≡ true) × IsAscending ((b, d) ∷ hs)

  unfoldable pub has : F → List F → Bool
  has k [] = false
  has k (b ∷ bs) = same b k || has k bs

  unfoldable pub bounds : HistSnap F → List F
  bounds hs = map (λ x. x.0) hs

  unfoldable pub read_back : HistSnap F → List F → HistSnap F
  read_back m les = map (λ le. (le, count_at fl le m)) les

  pub has-place : (k le : F) (bs : List F) → has k (place fl le bs) ≡ (same le k || has k bs)
  unfolding has place
  has-place k le [] = refl
  has-place k le (b ∷ bs) = elim (Bool-cases (precedes fl b le)) [
    | inl p ↦ rw p (ground (arith, has-place k le bs))
    | inr p ↦ rw p refl
  ]

  pub has-sort_bounds : (k : F) (les : List F) → has k (sort_bounds fl les) ≡ has k les
  unfolding has sort_bounds
  has-sort_bounds k [] = refl
  has-sort_bounds k (le ∷ les) =
      has-place k le (sort_bounds fl les) ∙ ap (λ b. same le k || b) (has-sort_bounds k les)

  pub count_at-missing : (k : F) (m : HistSnap F) → has k (bounds m) ≡ false → count_at fl k m ≡ 0
  unfolding has bounds count_at
  count_at-missing k [] h = refl
  count_at-missing k ((b, c) ∷ m) h = ground (arith, h, count_at-missing k m)

  pub has-add_bucket :
      (k le : F) (n : ℕ) (hs : HistSnap F)
      → same le k ≡ false
      → has k (bounds hs) ≡ false
      → has k (bounds (add_bucket fl le n hs)) ≡ false
  unfolding has bounds add_bucket
  has-add_bucket k le n [] d h = ground (arith, d)
  has-add_bucket k le n ((b, c) ∷ hs) d h = elim (Bool-cases (same b le)) [
    | inl p ↦ rw p h
    | inr p ↦ rw p (ground (arith, h, has-add_bucket k le n hs d))
  ]

  unfoldable pub Distinct : List F → Type 0
  Distinct [] = Unit
  Distinct (b ∷ bs) = (has b bs ≡ false) × Distinct bs

  unfoldable pub Below : F → HistSnap F → Type 0
  Below a [] = Unit
  Below a ((b, d) ∷ hs) = less a b ≡ true

  pub IsAscending-cons :
      (a : F) (n : ℕ) (hs : HistSnap F) → Below a hs → IsAscending hs → IsAscending ((a, n) ∷ hs)
  unfolding Below
  IsAscending-cons a n [] b h = tt
  IsAscending-cons a n ((c, d) ∷ hs) b h = (b, h)

  pub IsAscending-Below :
      (a : F) (n : ℕ) (hs : HistSnap F) → IsAscending ((a, n) ∷ hs) → Below a hs × IsAscending hs
  unfolding Below
  IsAscending-Below a n [] h = (tt, tt)
  IsAscending-Below a n ((c, d) ∷ hs) h = h
