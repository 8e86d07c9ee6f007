-- ===== src/Collector/Window/Inside.antt =====
-- Where the quantiles of a window lie.
use qfn_pgx.Base.{
  ℕ, ◌+◌, ◌-◌, ◌*◌, ◌≡◌, ◌⊎◌, refl, ap, arith, ltb, leb, Bool, false, ◌&&◌, Option, none, some,
  List, [], ◌∷◌, length, if◌then◌else◌, ◌==◌, ℕ_eq, ◌≤◌, ◌<◌, Bool-cases, inl, inr, subst,
}
use native.Mathlib.Nat.{add-mul, zero-mul, mul-pos, mul-le-mul_right, mul_comm}
use qfn_pgx.Collector.Window.{
  HistSnap, Position, inside, advance, monotone, differences, total, bucket_counts, window, walk,
  or_last, interpolate, with_counts, quantile_window,
}

-- The count of all buckets.
unfoldable pub weight : {F : Type 0} → HistSnap F → ℕ
weight [] = 0
weight ((le, c) ∷ rest) = c + weight rest

-- The position of the r-th of what the buckets count, in q-ths: in the bucket where the counts, `acc` before
-- the first, reach r; between the bound before it and its own, as deep as r is past what was counted before
-- it, of the bucket's count.
abbrev pub Located : {F : Type 0} → ℕ → ℕ → ℕ → Option F → HistSnap F → Option (Position F) → Type 0
Located r q acc below [] o = ⊥
Located r q acc below ((le, c) ∷ rest) o =
    ((acc * q < r) × (r ≤ (acc + c) * q) × (o ≡ some (inside below le (r - acc * q) (c * q))))
    ⊎ (((acc + c) * q < r) × Located r q (acc + c) (some le) rest o)

module _ {F : Type 0} where
  walk-Located :
      (r q acc : ℕ) (below : Option F) (buckets : HistSnap F)
      → acc * q < r
      → r ≤ (acc + weight buckets) * q
      → Located r q acc below buckets (walk r q acc below buckets)
  unfolding walk weight
  walk-Located r q acc below [] h k = absurd (omega (arith, h, k))
  walk-Located r q acc below ((le, c) ∷ rest) h k = elim (Bool-cases (leb r ((acc + c) * q))) [
    | inl p ↦
        let some_counted : (c == 0) ≡ false = ground (arith, p, h, add-mul acc c q, zero-mul q) in
        rw (p, some_counted) (inl (h, ground (arith, p), refl))
    | inr p ↦ rw p (
        inr (
          ground (arith, p),
          walk-Located r q (acc + c) (some le) rest (ground (arith, p))
              (subst (λ n. r ≤ n * q) (omega arith) k),
        ))
  ]

  weight-with_counts :
      (cur : HistSnap F) (cs : List ℕ)
      → length cur ≡ length cs
      → weight (with_counts cur cs) ≡ total cs
  unfolding weight total
  weight-with_counts [] [] h = refl
  weight-with_counts [] (c ∷ cs) h = ground (arith, h)
  weight-with_counts ((le, w) ∷ cur) [] h = ground (arith, h)
  weight-with_counts ((le, w) ∷ cur) (c ∷ cs) h =
      ap (λ n. c + n) (weight-with_counts cur cs (omega (arith, h)))

length-monotone : (m : ℕ) (ws : List ℕ) → length (monotone m ws) ≡ length ws
unfolding monotone
length-monotone m [] = refl
length-monotone m (w ∷ ws) = omega (arith, length-monotone (if ltb w m then m else w) ws)

length-differences : (m : ℕ) (ws : List ℕ) → length (differences m ws) ≡ length ws
unfolding differences
length-differences m [] = refl
length-differences m (w ∷ ws) = omega (arith, length-differences w ws)

length-window :
    {F : Type 0} (leq : F → F → Bool) (prev : HistSnap F) (last : ℕ) (cur : HistSnap F)
    → length (window leq prev last cur) ≡ length cur
unfolding window
length-window leq prev last [] = refl
length-window leq prev last ((le, c) ∷ cur) =
    omega (arith, length-window leq (advance leq le prev last).0 (advance leq le prev last).1 cur)

-- The largest of some counts and of one before them.
unfoldable pub largest : ℕ → List ℕ → ℕ
largest m [] = m
largest m (w ∷ ws) = largest (if ltb w m then m else w) ws

total-differences : (m : ℕ) (ws : List ℕ) → m + total (differences m (monotone m ws)) ≡ largest m ws
unfolding total differences monotone largest
total-differences m [] = omega arith
total-differences m (w ∷ ws) = ground (arith, total-differences m ws, total-differences w ws)

-- Nothing that the window counted is lost or counted twice between the buckets: their counts add up to the
-- largest of the windowed cumulative counts.
pub total-bucket_counts : (wcum : List ℕ) → total (bucket_counts wcum) ≡ largest 0 wcum
unfolding bucket_counts
total-bucket_counts wcum = omega (arith, total-differences 0 wcum)

less_le : (p q : ℕ) → p < q → p ≤ q
less_le p q h = omega (arith, h)

Located-some :
    {F : Type 0} (r q acc : ℕ) (below : Option F) (buckets all_of : HistSnap F)
    (o : Option (Position F))
    → Located r q acc below buckets o
    → Located r q acc below buckets (or_last all_of o)
Located-some r q acc below [] all_of o h = absurd h
Located-some r q acc below ((le, c) ∷ rest) all_of o (inl (h, k, e)) =
    inl (h, k, ap (or_last all_of) e)
Located-some r q acc below ((le, c) ∷ rest) all_of o (inr (h, k)) =
    inr (h, Located-some r q (acc + c) (some le) rest all_of o k)

interpolate-Located :
    {F : Type 0} (p q sum : ℕ) (buckets : HistSnap F)
    → weight buckets ≡ sum
    → 0 < p
    → p < q
    → 0 < sum
    → Located (p * sum) q 0 none buckets (interpolate p q sum buckets)
unfolding interpolate
interpolate-Located p q sum buckets w pos_p less pos_sum =
    Located-some (p * sum) q 0 none buckets buckets (walk (p * sum) q 0 none buckets) (
      walk-Located (p * sum) q 0 none buckets (omega (arith, mul-pos pos_p pos_sum, zero-mul q)) (
        rw w (
          omega (
            arith,
            mul-le-mul_right sum (less_le p q less),
            mul_comm q sum,
            add-mul 0 sum q,
            zero-mul q,
          ))))

same_length :
    {F : Type 0} (w : List ℕ) (cur : HistSnap F)
    → length w ≡ length cur
    → length cur ≡ length (bucket_counts w)
unfolding bucket_counts
same_length w cur h = omega (arith, h, length-monotone 0 w, length-differences 0 (monotone 0 w))

-- The counts of the window, bucket by bucket.
abbrev pub windowed : {F : Type 0} → (F → F → Bool) → HistSnap F → HistSnap F → HistSnap F
windowed leq prev cur = with_counts cur (bucket_counts (window leq prev 0 cur))

abbrev pub counted : {F : Type 0} → (F → F → Bool) → HistSnap F → HistSnap F → ℕ
counted leq prev cur = total (bucket_counts (window leq prev 0 cur))

pub quantile_window-inside :
    {F : Type 0} (leq : F → F → Bool) (prev cur : HistSnap F) (p q : ℕ)
    → let out = quantile_window leq prev cur p q in
      ((out ≡ none) × (((ltb 0 p && ltb p q) ≡ false) ⊎ (counted leq prev cur ≡ 0)))
      ⊎ Located (p * counted leq prev cur) q 0 none (windowed leq prev cur) out
unfolding quantile_window
quantile_window-inside leq prev [] p q = inl (refl, inr refl)
quantile_window-inside {F} leq prev ((le, c) ∷ cur) p q =
    let w = window leq prev 0 ((le, c) ∷ cur) in
    let sum = total (bucket_counts w) in
    elim (Bool-cases (ltb 0 p && ltb p q)) [
      | inr n ↦ rw n (inl (refl, inl refl))
      | inl n ↦ elim (Bool-cases (sum == 0)) [
        | inl z ↦ rw (n, z) (inl (refl, inr (ground (arith, z))))
        | inr z ↦
            rw (n, z)
              (inr (
                interpolate-Located p q sum (with_counts ((le, c) ∷ cur) (bucket_counts w))
                  (weight-with_counts ((le, c) ∷ cur) (bucket_counts w)
                    (same_length w ((le, c) ∷ cur) (length-window leq prev 0 ((le, c) ∷ cur))))
                  (ground (arith, n)) (ground (arith, n)) (ground (arith, z))))
      ]
    ]
