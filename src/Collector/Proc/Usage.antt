-- ===== src/Collector/Proc/Usage.antt =====
-- The busy fractions of cores whose counters do not run backwards.
use qfn_pgx.Base.{
  ℕ, ◌+◌, ◌-◌, ◌^◌, ◌≤◌, ◌<◌, ◌≡◌, refl, arith, ltb, leb, Bool, true, false, ◌&&◌, List, [], ◌∷◌,
  all, ap, if◌then◌else◌,
}
use qfn_pgx.Collector.Proc.{CpuTimes, minus, total_time, busy_time, usage, usage_from}

-- The time in which a core worked, and that in which it waited.
abbrev pub worked : CpuTimes → ℕ
worked c = c.user + c.nice + c.system + c.irq + c.softirq + c.steal

abbrev pub waited : CpuTimes → ℕ
waited c = c.idle + c.iowait

-- A core that worked and waited no less than before, for less than 2 ^ 63 ticks.
abbrev pub Forward : CpuTimes → CpuTimes → Type 0
Forward prev cur =
    (worked prev ≤ worked cur) × (waited prev ≤ waited cur) × (worked cur + waited cur < 2 ^ 63)

abbrev pub AllForward : List CpuTimes → List CpuTimes → Type 0
AllForward prev [] = Unit
AllForward [] (c ∷ cur) = Unit
AllForward (p ∷ prev) (c ∷ cur) = Forward p c × AllForward prev cur

total_time-sum : (c : CpuTimes) → worked c + waited c < 2 ^ 63 → total_time c ≡ worked c + waited c
unfolding total_time
total_time-sum c h = omega (arith, h)

busy_time-worked : (c : CpuTimes) → worked c + waited c < 2 ^ 63 → busy_time c ≡ worked c
unfolding busy_time
busy_time-worked c h = omega (arith, h)

minus_forward : (a b : ℕ) → b ≤ a → a < 2 ^ 63 → minus a b ≡ a - b
minus_forward a b h k = omega (arith, h, k)

-- What a core did between two samples: the time that it worked, of the time that passed.
abbrev pub share : CpuTimes → CpuTimes → ℕ × ℕ
share prev cur =
    let db = worked cur - worked prev in
    let dt = (worked cur + waited cur) - (worked prev + waited prev) in
    if ltb 0 dt then (db, dt) else (0, 1)

and_true : (b : Bool) → (b && true) ≡ b
and_true true = refl
and_true false = refl

usage-share : (prev cur : CpuTimes) → Forward prev cur → usage prev cur ≡ share prev cur
unfolding usage
usage-share prev cur (w, i, b) =
    let before : worked prev + waited prev < 2 ^ 63 = omega (arith, w, i, b) in
    let dt : minus (total_time cur) (total_time prev)
        ≡ (worked cur + waited cur) - (worked prev + waited prev) =
      rw (total_time-sum cur b, total_time-sum prev before)
        (minus_forward (worked cur + waited cur) (worked prev + waited prev) (omega (arith, w, i))
          b) in
    let db : minus (busy_time cur) (busy_time prev) ≡ worked cur - worked prev =
      rw (busy_time-worked cur b, busy_time-worked prev before)
        (minus_forward (worked cur) (worked prev) w (omega (arith, b))) in
    let small_dt : ltb ((worked cur + waited cur) - (worked prev + waited prev)) (2 ^ 63) ≡ true =
      ground (arith, b) in
    let small_db : ltb (worked cur - worked prev) (2 ^ 63) ≡ true = ground (arith, b) in
    rw (dt, db, small_dt, small_db, and_true, and_true) refl

unfoldable pub shares : List CpuTimes → List CpuTimes → List (ℕ × ℕ)
shares prev [] = []
shares [] (c ∷ cur) = (0, 1) ∷ shares [] cur
shares (p ∷ prev) (c ∷ cur) = share p c ∷ shares prev cur

new_forward : (cur : List CpuTimes) → AllForward [] cur
new_forward [] = tt
new_forward (c ∷ cur) = tt

-- At most the whole.
abbrev pub is_fraction : ℕ × ℕ → Bool
is_fraction (n, d) = ltb 0 d && leb n d

is_fraction-share : (p c : CpuTimes) → Forward p c → is_fraction (share p c) ≡ true
is_fraction-share p c (w, i, b) = ground (arith, w, i)

-- For cores whose time worked and time waited did not run backwards, and that ran for less than 2 ^ 63 ticks in
-- all, so that no difference wraps, each fraction is the time that the core worked of the time that passed, the
-- time of a guest not counted twice, and at most one; it is 0 where no time passed and for a core that is
-- new.
pub usage_from-shares :
    (prev cur : List CpuTimes)
    → AllForward prev cur
    → (usage_from prev cur ≡ shares prev cur) × (all is_fraction (usage_from prev cur) ≡ true)
unfolding usage_from shares
usage_from-shares prev [] h = (refl, refl)
usage_from-shares [] (c ∷ cur) h =
    let rest = usage_from-shares [] cur (new_forward cur) in
    (ap (λ xs. (0, 1) ∷ xs) rest.0, ground (arith, rest.1))
usage_from-shares (p ∷ prev) (c ∷ cur) h =
    let rest = usage_from-shares prev cur h.1 in
    let one = usage-share p c h.0 in
    (rw (one, rest.0) refl, rw (one, is_fraction-share p c h.0, rest.1) refl)
