-- ===== src/Config/Adaptive.antt =====
-- The draft policy "3:1-4,1:5-16": `validAdaptive` of internal/config/validate.go checks it, and
-- `adaptiveRanges` of internal/engine/spec.go renders it for the engine.
pub mod Agreement
use qfn_pgx.Base.{
  ℕ, ◌+◌, Bool, true, false, ◌||◌, Option, none, some, List, [], ◌∷◌, ◌++◌, map, length, ltb, ℕ_eq,
  ◌==◌, if◌then◌else◌,
}
use qfn_pgx.Base.Int.{ℤ, pos, negsuc, lt_int, le_int}
use qfn_pgx.Base.Bytes.{Text, codes, trim_space, cut, split, join, atoi}
use qfn_pgx.Proxy.Registry.{itoa}

-- The errors of `validAdaptive`.
pub data Problem : Type 0 where
  missing_colon bad_tokens bad_range bad_low bad_high overlap : Problem

pub data Checked {ℓ} (A : Type ℓ) : Type ℓ where
  good : A → Checked A
  bad : Problem → Checked A

-- `err == nil`
abbrev pub accepted {ℓ} : {A : Type ℓ} → Checked A → Bool
accepted (good a) = true
accepted (bad p) = false

infixl 5 ◌>>=◌
abbrev pub ◌>>=◌ {ℓ κ} : {A : Type ℓ} {B : Type κ} → Checked A → (A → Checked B) → Checked B
good a >>= f = f a
bad p >>= f = bad p

abbrev pub or_bad {ℓ} : {A : Type ℓ} → Problem → Option A → Checked A
or_bad p none = bad p
or_bad p (some a) = good a

abbrev pub unless : Bool → Problem → Checked (Unit {0})
unless true p = bad p
unless false p = good tt

infixl 5 ◌>>◌
abbrev pub ◌>>◌ : {B : Type 0} → Checked (Unit {0}) → Checked B → Checked B
m >> k = m >>= λ _. k

-- One round of the loop: the part and `prevHi`, to the next `prevHi`.
unfoldable pub check_part : ℤ → Text → Checked ℤ
check_part prev_hi part = do
  (tok, rng) ← or_bad missing_colon (cut b':' (trim_space part))
  t ← or_bad bad_tokens (atoi (trim_space tok))
  unless (lt_int t (pos 1) || lt_int (pos 4) t) bad_tokens
  (lo_s, hi_s) ← or_bad bad_range (cut b'-' (trim_space rng))
  lo ← or_bad bad_low (atoi (trim_space lo_s))
  unless (lt_int lo (pos 1)) bad_low
  hi ← or_bad bad_high (atoi (trim_space hi_s))
  unless (lt_int hi lo) bad_high
  unless (le_int lo prev_hi) overlap
  good hi

unfoldable pub check_parts : ℤ → List Text → Checked (Unit {0})
unfolding check_part
check_parts prev_hi [] = good tt
check_parts prev_hi (part ∷ parts) = do hi ← check_part prev_hi part; check_parts hi parts

unfoldable pub valid_adaptive : Text → Checked (Unit {0})
unfolding check_parts
valid_adaptive s = check_parts (pos 0) (split b',' s)

-- `%d`
unfoldable pub format_int : ℤ → Text
format_int (pos n) = itoa n
format_int (negsuc n) = b'-' ∷ itoa (n + 1)

infixl 5 ◌>>=?◌
abbrev ◌>>=?◌ {ℓ κ} : {A : Type ℓ} {B : Type κ} → Option A → (A → Option B) → Option B
none >>=? f = none
some a >>=? f = f a

abbrev pub triple : Text → Text → Text → Text
triple lo hi tok = b'[' ∷ (lo ++ (b',' ∷ (hi ++ (b',' ∷ (tok ++ b']' ∷ [])))))

-- One round of the loop of `adaptiveRanges`: "3:1-4" to "[1,4,3]".
unfoldable pub render_part : Text → Option Text
unfolding format_int
render_part p = cut b':' (trim_space p) >>=? λ x. cut b'-' (trim_space x.1) >>=? λ y.
    atoi (trim_space y.0) >>=? λ l.
    atoi (trim_space y.1) >>=? λ h. some (triple (format_int l) (format_int h) (trim_space x.0))

unfoldable pub render_parts : List Text → Option (List Text)
unfolding render_part
render_parts [] = some []
render_parts (p ∷ ps) = render_part p >>=? λ t. render_parts ps >>=? λ ts. some (t ∷ ts)

-- `none` is the result `"", false`.
unfoldable pub adaptive_ranges : Text → Option Text
unfolding render_parts
adaptive_ranges s = render_parts (split b',' s) >>=? λ ts.
    if ltb 0 (length ts) then some (b'[' ∷ (join (codes ",") ts ++ b']' ∷ [])) else none
