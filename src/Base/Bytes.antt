-- ===== src/Base/Bytes.antt =====
-- Go's `strings` functions over lists of characters.
use Prim.Native.Char.{code}
use qfn_pgx.Base.Tests.{◌==◌, ℕ_eq, leb, if◌then◌else◌, ltb}
use qfn_pgx.Base.Lists.{length, drop, all}
use mathlib.Core.Path.{◌≡◌}
use native.Mathlib.Omega.{arith}
use qfn_pgx.Base.Int.{ℤ, pos, negsuc}
use Prim.Native.Nat.{ℕ, zero, suc, ◌+◌, ◌-◌, ◌*◌, ◌^◌}
use Prim.Native.String.{String}
use mathlib.Core.Bool.{Bool, true, false, not, ◌&&◌, ◌||◌}
use mathlib.Core.List.{List, [], ◌∷◌, ◌++◌, map}
use mathlib.Core.Option.{Option, none, some}

-- A Go string that the code walks: its characters.
abbrev pub Text : Type 0
Text = List ℕ

abbrev pub codes : String → Text
codes String.[] = []
codes (String.◌∷◌ c s) = code c ∷ codes s

unfoldable pub has_prefix : Text → Text → Bool
has_prefix s [] = true
has_prefix [] (p ∷ ps) = false
has_prefix (c ∷ s) (p ∷ ps) = c == p && has_prefix s ps

unfoldable pub contains : Text → Text → Bool
unfolding has_prefix
contains [] sub = has_prefix [] sub
contains (c ∷ s) sub = has_prefix (c ∷ s) sub || contains s sub

-- `unicode.ToLower`, for the characters whose lower case is ASCII: the capitals, the dotted capital I
-- and the Kelvin sign. Another character stays; its lower case is not ASCII.
abbrev pub lower : ℕ → ℕ
lower c =
    if leb b'A' c && leb c b'Z'
    then c + 32
    else if c == 0x130
    then b'i'
    else if c == 0x212a
    then b'k'
    else c

unfoldable pub to_lower : Text → Text
to_lower s = map lower s

-- `unicode.IsSpace`
abbrev pub is_space : ℕ → Bool
is_space c =
    c == 32
    || (leb 9 c && leb c 13)
    || c == 0x85
    || c == 0xa0
    || c == 0x1680
    || (leb 0x2000 c && leb c 0x200a)
    || c == 0x2028
    || c == 0x2029
    || c == 0x202f
    || c == 0x205f
    || c == 0x3000

unfoldable pub trim_left : Text → Text
trim_left [] = []
trim_left (c ∷ s) = let rest = trim_left s in if is_space c then rest else c ∷ s

-- A text whose end is trimmed.
unfoldable pub trim_right : Text → Text
trim_right [] = []
trim_right (c ∷ s) = elim (trim_right s) [
  | [] ↦ if is_space c then [] else c ∷ []
  | d ∷ r ↦ c ∷ d ∷ r
]

unfoldable pub trim_space : Text → Text
unfolding trim_left trim_right
trim_space s = trim_left (trim_right s)

-- `strings.TrimPrefix`
unfoldable pub trim_prefix : Text → Text → Text
unfolding has_prefix
trim_prefix s p = if has_prefix s p then drop (length p) s else s

-- `strings.Cut` at a separator of one character: `none` where it does not occur.
unfoldable pub cut : ℕ → Text → Option (Text × Text)
cut sep [] = none
cut sep (c ∷ s) =
    let rest = cut sep s in
    if c == sep then some ([], s) else elim rest [ none ↦ none | some (a, b) ↦ some (c ∷ a, b) ]

pub cut_first :
    (sep : ℕ) (k v : Text)
    → all (λ c. not (c == sep)) k ≡ true
    → cut sep (k ++ sep ∷ v) ≡ some (k, v)
unfolding cut
cut_first sep [] v h = ground arith
cut_first sep (c ∷ k) v h = ground (arith, cut_first sep k v)

abbrev pub on_head : ℕ → List Text → List Text
on_head c [] = (c ∷ []) ∷ []
on_head c (p ∷ ps) = (c ∷ p) ∷ ps

-- `strings.Split` at a separator of one character.
unfoldable pub split : ℕ → Text → List Text
split sep [] = [] ∷ []
split sep (c ∷ s) = let rest = split sep s in if c == sep then [] ∷ rest else on_head c rest

-- `strings.Join`
unfoldable pub join : Text → List Text → Text
join sep [] = []
join sep (p ∷ []) = p
join sep (p ∷ q ∷ ps) = p ++ (sep ++ join sep (q ∷ ps))

abbrev pub word : Text → List Text
word [] = []
word (c ∷ w) = (c ∷ w) ∷ []

-- The words of a text, after the characters of one.
unfoldable pub fields_from : Text → Text → List Text
fields_from w [] = word w
fields_from w (c ∷ s) =
    let rest = fields_from [] s in
    let more = fields_from (w ++ c ∷ []) s in if is_space c then word w ++ rest else more

-- `strings.Fields`
unfoldable pub fields : Text → List Text
unfolding fields_from
fields s = fields_from [] s

abbrev pub is_digit : ℕ → Bool
is_digit c = leb b'0' c && leb c b'9'

-- The digits of a number, after a number.
unfoldable pub digits_value : ℕ → Text → Option ℕ
digits_value n [] = some n
digits_value n (c ∷ s) =
    let rest = digits_value (n * 10 + (c - b'0')) s in if is_digit c then rest else none

-- An unsigned number with at least one digit.
unfoldable pub parse_digits : Text → Option ℕ
parse_digits [] = none
parse_digits (c ∷ s) = digits_value 0 (c ∷ s)

abbrev positive : Option ℕ → Option ℤ
positive none = none
positive (some n) = if ltb n (2 ^ 63) then some (pos n) else none

abbrev negative : Option ℕ → Option ℤ
negative none = none
negative (some zero) = some (pos 0)
negative (some (suc n)) = if ltb n (2 ^ 63) then some (negsuc n) else none

-- `strconv.Atoi`, with its sign and its range of 64 bits.
unfoldable pub atoi : Text → Option ℤ
unfolding parse_digits digits_value
atoi [] = none
atoi (c ∷ s) =
    if c == b'+'
    then positive (parse_digits s)
    else if c == b'-'
    then negative (parse_digits s)
    else positive (parse_digits (c ∷ s))

abbrev in_64_bits : Option ℕ → Option ℕ
in_64_bits none = none
in_64_bits (some n) = if ltb n (2 ^ 64) then some n else none

-- `strconv.ParseUint(s, 10, 64)`
unfoldable pub parse_uint : Text → Option ℕ
unfolding parse_digits
parse_uint s = in_64_bits (parse_digits s)

abbrev at_most_64_bits : Option ℕ → ℕ
at_most_64_bits none = 0
at_most_64_bits (some n) = if ltb n (2 ^ 64) then n else 2 ^ 64 - 1

-- Its number where the error is not looked at: 0 for a syntax error, the greatest number out of range.
unfoldable pub parse_uint_anyway : Text → ℕ
unfolding parse_digits
parse_uint_anyway s = at_most_64_bits (parse_digits s)
