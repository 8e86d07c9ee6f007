-- ===== src/Config/Adaptive/Agreement.antt =====
-- The check and the rendering of a draft policy against one reading of its grammar.
use qfn_pgx.Base.{
  ℕ, ◌<◌, ◌≡◌, refl, Bool, true, false, ◌&&◌, Option, none, some, List, [], ◌∷◌, arith, is_some,
  length, Option-cases, if◌then◌else◌, inl, inr,
}
use qfn_pgx.Base.Int.{ℤ, pos, lt_int, le_int}
use qfn_pgx.Base.Bytes.{Text, trim_space, cut, split, atoi}
use qfn_pgx.Config.Adaptive.{
  Checked, good, bad, accepted, check_part, check_parts, valid_adaptive, render_part, render_parts,
  adaptive_ranges,
}

-- A range of a policy: the draft tokens and the batch sizes.
pub record Range : Type 0 where
  pub tokens : ℤ
  pub low : ℤ
  pub high : ℤ

abbrev ranged : Option ℤ → Option ℤ → Option ℤ → Option Range
ranged (some t) (some l) (some h) = some (record { tokens = t; low = l; high = h })
ranged _ _ _ = none

abbrev bounds : Text → Option (Text × Text) → Option Range
bounds tok none = none
bounds tok (some (lo, hi)) =
    ranged (atoi (trim_space tok)) (atoi (trim_space lo)) (atoi (trim_space hi))

abbrev fields : Option (Text × Text) → Option Range
fields none = none
fields (some (tok, rng)) = bounds tok (cut b'-' (trim_space rng))

-- The grammar of a part, N:LO-HI, with spaces around each piece.
pub read_part : Text → Option Range
read_part part = fields (cut b':' (trim_space part))

abbrev pub in_order : ℤ → Range → Bool
in_order prev r =
    le_int (pos 1) r.tokens
    && le_int r.tokens (pos 4)
    && le_int (pos 1) r.low
    && le_int r.low r.high
    && lt_int prev r.low

-- The next `prevHi`, where a part is accepted.
abbrev next_high : ℤ → Option Range → Option ℤ
next_high prev none = none
next_high prev (some r) = if in_order prev r then some r.high else none

abbrev value_of {ℓ} : {A : Type ℓ} → Checked A → Option A
value_of (good a) = some a
value_of (bad p) = none

check_part_lem :
    (prev : ℤ) (part : Text) → value_of (check_part prev part) ≡ next_high prev (read_part part)
unfolding check_part read_part
check_part_lem prev part = ground arith

abbrev push_range : Option Range → Option (List Range) → Option (List Range)
push_range none rs = none
push_range (some r) none = none
push_range (some r) (some rs) = some (r ∷ rs)

pub read_parts : List Text → Option (List Range)
read_parts [] = some []
read_parts (p ∷ ps) = push_range (read_part p) (read_parts ps)

-- The ranges are well formed, ascending and apart, above a batch size.
abbrev pub ascending : ℤ → List Range → Bool
ascending prev [] = true
ascending prev (r ∷ rs) = in_order prev r && ascending r.high rs

abbrev pub is_policy : ℤ → Option (List Range) → Bool
is_policy prev none = false
is_policy prev (some rs) = ascending prev rs

check_parts_lem :
    (prev : ℤ) (ps : List Text) → accepted (check_parts prev ps) ≡ is_policy prev (read_parts ps)
unfolding check_parts read_parts
check_parts_lem prev [] = refl
check_parts_lem prev (p ∷ ps) = elim (Option-cases (read_part p)) [
  | inl e ↦ ground (arith, check_part_lem prev p)
  | inr (r, e) ↦ ground (arith, check_part_lem prev p, check_parts_lem r.high ps)
]

-- `validAdaptive` accepts exactly the policies of its grammar: every comma-separated part is N:LO-HI
-- with numbers, each N is 1 to 4, each LO at least 1 and at most its HI, and each range lies
-- above the one before it.
pub valid_adaptive_exact :
    (s : Text) → accepted (valid_adaptive s) ≡ is_policy (pos 0) (read_parts (split b',' s))
unfolding valid_adaptive
valid_adaptive_exact s = check_parts_lem (pos 0) (split b',' s)

render_read : (p : Text) → is_some (read_part p) ≡ true → is_some (render_part p) ≡ true
unfolding render_part read_part
render_read p h = ground arith

render_parts_read :
    (ps : List Text) → is_some (read_parts ps) ≡ true → is_some (render_parts ps) ≡ true
unfolding render_parts read_parts
render_parts_read [] h = refl
render_parts_read (p ∷ ps) h = ground (arith, render_read p, render_parts_read ps)

-- The number of rendered parts, or `n` where they are not rendered.
abbrev count_of : ℕ → Option (List Text) → ℕ
count_of n none = n
count_of n (some ts) = length ts

count_of-render_parts : (ps : List Text) → count_of (length ps) (render_parts ps) ≡ length ps
unfolding render_parts
count_of-render_parts [] = refl
count_of-render_parts (p ∷ ps) = ground (arith, count_of-render_parts ps)

length-split : (sep : ℕ) (s : Text) → 0 < length (split sep s)
unfolding split
length-split sep [] = omega arith
length-split sep (c ∷ s) = ground (arith, length-split sep s)

-- A policy that `validAdaptive` accepts is always rendered: the `false` of `adaptiveRanges` is not
-- reached from a valid configuration.
pub adaptive_ranges_total :
    (s : Text) → valid_adaptive s ≡ good tt → is_some (adaptive_ranges s) ≡ true
unfolding adaptive_ranges
adaptive_ranges_total s h = ground (
  arith,
  valid_adaptive_exact s,
  render_parts_read (split b',' s),
  count_of-render_parts (split b',' s),
  length-split b',' s,
)
