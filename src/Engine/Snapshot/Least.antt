-- ===== src/Engine/Snapshot/Least.antt =====
-- Which of the snapshots is chosen.
use qfn_pgx.Base.{
  ◌≡◌, refl, arith, Bool, true, false, ◌&&◌, Option, none, some, List_eq, ℕ_eq, List, [], ◌∷◌, all,
  if◌then◌else◌, ◌∙◌,
}
use qfn_pgx.Base.Bytes.{Text}
use qfn_pgx.Engine.Snapshot.{leq, put, sort, is_hybrid, first_plain}

leq_total : (s t : Text) → leq s t ≡ false → leq t s ≡ true
unfolding leq
leq_total [] t h = ground (arith, h)
leq_total (c ∷ s) [] h = refl
leq_total (c ∷ s) (d ∷ t) h = ground (arith, h, leq_total s t)

leq_trans : (r s t : Text) → leq r s ≡ true → leq s t ≡ true → leq r t ≡ true
unfolding leq
leq_trans [] s t h k = refl
leq_trans (b ∷ r) [] t h k = ground (arith, h)
leq_trans (b ∷ r) (c ∷ s) [] h k = ground (arith, k)
leq_trans (b ∷ r) (c ∷ s) (d ∷ t) h k = ground (arith, h, k, leq_trans r s t)

-- The lesser of a name and of a name that there may be.
abbrev pub lesser : Text → Option Text → Option Text
lesser n none = some n
lesser n (some m) = if leq n m then some n else some m

-- The least plain name of a list in any order.
unfoldable pub least_plain : List Text → Option Text
least_plain [] = none
least_plain (n ∷ ns) = let rest = least_plain ns in if is_hybrid n then rest else lesser n rest

abbrev is_sorted : List Text → Bool
is_sorted [] = true
is_sorted (m ∷ ms) = all (λ x. leq m x) ms && is_sorted ms

below_trans :
    (n m : Text) (ms : List Text)
    → leq n m ≡ true
    → all (λ x. leq m x) ms ≡ true
    → all (λ x. leq n x) ms ≡ true
below_trans n m [] h k = refl
below_trans n m (x ∷ ms) h k = ground (arith, h, k, leq_trans n m x, below_trans n m ms)

below_put :
    (n m : Text) (ms : List Text)
    → leq m n ≡ true
    → all (λ x. leq m x) ms ≡ true
    → all (λ x. leq m x) (put n ms) ≡ true
unfolding put
below_put n m [] h k = ground (arith, h)
below_put n m (x ∷ ms) h k = ground (arith, h, k, below_put n m ms h)

put_sorted : (n : Text) (ms : List Text) → is_sorted ms ≡ true → is_sorted (put n ms) ≡ true
unfolding put
put_sorted n [] h = refl
put_sorted n (m ∷ ms) h =
    ground (arith, h, below_trans n m ms, leq_total n m, below_put n m ms, put_sorted n ms)

sort_sorted : (ns : List Text) → is_sorted (sort ns) ≡ true
unfolding sort
sort_sorted [] = refl
sort_sorted (n ∷ ns) = put_sorted n (sort ns) (sort_sorted ns)

lesser_first :
    (n : Text) (ms : List Text) → all (λ x. leq n x) ms ≡ true → lesser n (first_plain ms) ≡ some n
unfolding first_plain
lesser_first n [] h = refl
lesser_first n (m ∷ ms) h = ground (arith, h, lesser_first n ms)

first_plain-put :
    (n : Text) (ms : List Text)
    → is_sorted ms ≡ true
    → first_plain (put n ms) ≡ (if is_hybrid n then first_plain ms else lesser n (first_plain ms))
unfolding first_plain put
first_plain-put n [] h = ground arith
first_plain-put n (m ∷ ms) h =
    ground (arith, h, leq_total n m, below_trans n m ms, lesser_first n ms, first_plain-put n ms)

-- The snapshot that is chosen is the least of the plain ones in the order of their names, whatever the
-- order in which the directory is read, and none just where there is no plain one.
pub first_plain-sort : (ns : List Text) → first_plain (sort ns) ≡ least_plain ns
unfolding sort least_plain first_plain
first_plain-sort [] = refl
first_plain-sort (n ∷ ns) =
    first_plain-put n (sort ns) (sort_sorted ns) ∙ rw (first_plain-sort ns) refl
