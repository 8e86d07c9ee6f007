-- ===== src/Doctor/Order.antt =====
-- The order of a report.
use qfn_pgx.Base.{
  ℕ, ◌≡◌, refl, arith, ap, ◌∙◌, ltb, leb, Bool, true, String, String_eq, List_eq, ℕ_eq, ◌==◌, List,
  [], ◌∷◌, ◌++◌, all, if◌then◌else◌,
}
use qfn_pgx.Doctor.{Status, bad, warn, ok, Check, check, rank, put_check, sort_checks}

-- The checks of one urgency, in their order.
unfoldable pub of_rank : ℕ → List Check → List Check
of_rank n [] = []
of_rank n (c ∷ cs) = let rest = of_rank n cs in if rank c.status == n then c ∷ rest else rest

above : ℕ → Check → Bool
above n c = leb n (rank c.status)

below : ℕ → Check → Bool
below n c = ltb (rank c.status) n

put_after :
    (c : Check) (front back : List Check)
    → all (below (rank c.status)) front ≡ true
    → put_check c (front ++ back) ≡ front ++ put_check c back
unfolding put_check below
put_after c [] back h = refl
put_after c (d ∷ front) back h = ground (arith, put_after c front back, h)

put_before :
    (c : Check) (back : List Check)
    → all (above (rank c.status)) back ≡ true
    → put_check c back ≡ c ∷ back
unfolding put_check above
put_before c [] h = refl
put_before c (d ∷ back) h = ground (arith, h)

all-of_rank :
    (f : Check → Bool) (n : ℕ) (cs : List Check)
    → ((c : Check) → (rank c.status == n) ≡ true → f c ≡ true)
    → all f (of_rank n cs) ≡ true
unfolding of_rank
all-of_rank f n [] h = refl
all-of_rank f n (c ∷ cs) h = ground (arith, h c, all-of_rank f n cs h)

all-append :
    (f : Check → Bool) (a b : List Check) → all f a ≡ true → all f b ≡ true → all f (a ++ b) ≡ true
all-append f [] b h k = k
all-append f (c ∷ a) b h k = ground (arith, all-append f a b, h, k)

-- The bad checks, then the warnings, then the rest.
abbrev pub by_urgency : List Check → List Check
by_urgency cs = of_rank 0 cs ++ (of_rank 1 cs ++ of_rank 2 cs)

rank_below : (n k : ℕ) → ltb n k ≡ true → (cs : List Check) → all (below k) (of_rank n cs) ≡ true
unfolding below
rank_below n k h cs = all-of_rank (below k) n cs (λ c e. ground (arith, h, e))

rank_above : (n k : ℕ) → leb k n ≡ true → (cs : List Check) → all (above k) (of_rank n cs) ≡ true
unfolding above
rank_above n k h cs = all-of_rank (above k) n cs (λ c e. ground (arith, h, e))

put_status :
    (s : Status) (id : String) (cs : List Check)
    → put_check (check id s) (by_urgency cs) ≡ by_urgency (check id s ∷ cs)
unfolding of_rank
put_status bad id cs = put_before (check id bad) (by_urgency cs) (
    all-append (above 0) (of_rank 0 cs) (of_rank 1 cs ++ of_rank 2 cs) (rank_above 0 0 refl cs) (
      all-append (above 0) (of_rank 1 cs) (of_rank 2 cs) (rank_above 1 0 refl cs)
        (rank_above 2 0 refl cs)))
put_status warn id cs =
    put_after (check id warn) (of_rank 0 cs) (of_rank 1 cs ++ of_rank 2 cs) (rank_below 0 1 refl cs)
    ∙ ap (λ x. of_rank 0 cs ++ x)
        (put_before (check id warn) (of_rank 1 cs ++ of_rank 2 cs) (
          all-append (above 1) (of_rank 1 cs) (of_rank 2 cs) (rank_above 1 1 refl cs)
            (rank_above 2 1 refl cs)))
put_status ok id cs =
    put_after (check id ok) (of_rank 0 cs) (of_rank 1 cs ++ of_rank 2 cs) (rank_below 0 2 refl cs)
    ∙ ap (λ x. of_rank 0 cs ++ x)
        (put_after (check id ok) (of_rank 1 cs) (of_rank 2 cs) (rank_below 1 2 refl cs)
          ∙ ap (λ x. of_rank 1 cs ++ x)
              (put_before (check id ok) (of_rank 2 cs) (rank_above 2 2 refl cs)))

sort_none : sort_checks [] ≡ by_urgency []
unfolding sort_checks of_rank
sort_none = refl

sort_step : (c : Check) (cs : List Check) → sort_checks (c ∷ cs) ≡ put_check c (sort_checks cs)
unfolding sort_checks
sort_step c cs = refl

-- The order of a report: the bad checks first, then the warnings, then the rest, each group in the order in
-- which its checks were made; none is lost or made twice.
pub sort_checks-by_urgency : (cs : List Check) → sort_checks cs ≡ by_urgency cs
sort_checks-by_urgency [] = sort_none
sort_checks-by_urgency (c ∷ cs) =
    sort_step c cs ∙ ap (put_check c) (sort_checks-by_urgency cs) ∙ put_status c.status c.id cs
