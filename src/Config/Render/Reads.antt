-- ===== src/Config/Render/Reads.antt =====
-- A reader of the part of TOML that a configuration file uses: tables, bare keys, basic strings with the escapes
-- of the quote and of the backslash, numbers and truth values as they stand, and comments. It is a description of
-- that part of TOML, and not the decoder of the program, which is a library.
pub mod Words
pub mod Back
use mathlib.Core.List.{append_assoc, append-nil}
use qfn_pgx.Base.{
  ℕ, zero, suc, ◌+◌, ◌/◌, ◌%◌, ◌≡◌, ◌≢◌, refl, sym, arith, ap, ◌∙◌, ltb, leb, Bool, true, false,
  not, ◌&&◌, ◌||◌, Option, none, some, ℕ_eq, List_eq, ◌==◌, List, [], ◌∷◌, ◌++◌, all, if◌then◌else◌,
  Bool-cases, inl, inr, ◌⊎◌,
}
use qfn_pgx.Base.Int.{ℤ, pos, negsuc}
use qfn_pgx.Base.Bytes.{Text, codes, split, cut, on_head}
use qfn_pgx.Config.Adaptive.{format_int}
use qfn_pgx.Proxy.Registry.{itoa, itoa_loop}
use qfn_pgx.Config.Render.{
  Val, quoted, truth, int, float, Chunk, written, entry, field, escape, q, tf, val_text, line,
  chunk_text, write_all,
}

-- A value that is read: a string, or the characters of another.
pub data Value : Type 0 where
  str bare : Text → Value

-- A line that says something: the head of a table, a key with its value, or one that cannot be read.
pub data Item : Type 0 where
  opened : Text → Item
  valued : Text → Value → Item
  unreadable : Text → Item

spaces_off : Text → Text
spaces_off [] = []
spaces_off (c ∷ s) = let rest = spaces_off s in if c == 32 then rest else c ∷ s

-- The characters before the first space.
unfoldable pub word_before : Text → Text
word_before [] = []
word_before (c ∷ s) = let rest = word_before s in if c == 32 then [] else c ∷ rest

-- Nothing but spaces and a comment.
unfoldable pub nothing_left : Text → Bool
nothing_left [] = true
nothing_left (c ∷ s) = if c == 32 then nothing_left s else c == 35

abbrev cons_some : ℕ → Option Text → Option Text
cons_some c none = none
cons_some c (some s) = some (c ∷ s)

-- A basic string after its opening quote; the flag is set after a backslash.
unfoldable pub read_string : Bool → Text → Option Text
unfolding nothing_left
read_string escaped [] = none
read_string true (c ∷ s) =
    let rest = cons_some c (read_string false s) in if c == 34 || c == 92 then rest else none
read_string false (c ∷ s) =
    let more = read_string true s in
    let rest = cons_some c (read_string false s) in
    if c == 34
    then (if nothing_left s then some [] else none)
    else if c == 92
    then more
    else if ltb c 32
    then none
    else rest

abbrev pub is_some_text : Text → Bool
is_some_text [] = false
is_some_text (c ∷ s) = true

-- A value that is no string: digits, signs, points and an exponent's e, or a truth value. No word such as NaN.
abbrev pub is_number_char : ℕ → Bool
is_number_char c =
    (leb b'0' c && leb c b'9') || (c == b'+' || (c == b'-' || (c == b'.' || c == b'e')))

abbrev pub is_number : Text → Bool
is_number w = is_some_text w && all is_number_char w

abbrev pub is_bare : Text → Bool
is_bare w = is_number w || (w == codes "true" || w == codes "false")

item_of : Text → Text → Option Text → Item
item_of l key none = unreadable l
item_of l key (some s) = valued key (str s)

read_value : Text → Text → Text → Item
unfolding item_of read_string word_before
read_value l key [] = unreadable l
read_value l key (c ∷ s) =
    let word = word_before (c ∷ s) in
    if c == 34
    then item_of l key (read_string false s)
    else if is_bare word
    then valued key (bare word)
    else unreadable l

read_pair : Text → Option (Text × Text) → Item
unfolding read_value word_before spaces_off
read_pair l none = unreadable l
read_pair l (some (key, value)) = read_value l (word_before key) (spaces_off value)

read_line : Text → List Item
unfolding read_pair
read_line [] = []
read_line (c ∷ s) =
    if c == 35
    then []
    else if c == 91
    then opened (c ∷ s) ∷ []
    else read_pair (c ∷ s) (cut b'=' (c ∷ s)) ∷ []

read_lines : List Text → List Item
unfolding read_line
read_lines [] = []
read_lines (l ∷ ls) = read_line l ++ read_lines ls

-- What a file says, in order.
unfoldable pub read_text : Text → List Item
unfolding read_lines split
read_text text = read_lines (split 10 text)

-- No newline.
abbrev pub is_line : Text → Bool
is_line s = all (λ c. not (c == 10)) s

-- A character of a key.
abbrev pub is_key_char : ℕ → Bool
is_key_char c = leb b'_' c && leb c b'z'

-- A text that `q` is right about: no control character and no backslash.
abbrev pub is_plain : Text → Bool
is_plain s = all (λ c. leb 32 c && not (c == 92)) s

-- The last character is a newline.
unfoldable pub ends_line : Text → Bool
ends_line [] = false
ends_line (c ∷ []) = c == 10
ends_line (c ∷ d ∷ s) = ends_line (d ∷ s)

read_lines-append : (a b : List Text) → read_lines (a ++ b) ≡ read_lines a ++ read_lines b
unfolding read_lines
read_lines-append [] b = refl
read_lines-append (l ∷ a) b =
    rw (read_lines-append a b) (sym (append_assoc (read_line l) (read_lines a) (read_lines b)))

on_head-append : (c : ℕ) (ps qs : List Text) → ps ≢ [] → on_head c (ps ++ qs) ≡ on_head c ps ++ qs
on_head-append c [] qs h = absurd (h refl)
on_head-append c (p ∷ ps) qs h = refl

on_head_some : (c : ℕ) (ps : List Text) → on_head c ps ≢ []
on_head_some c [] h = cc
on_head_some c (p ∷ ps) h = cc

split_at : (c : ℕ) (s : Text) → (c == 10) ≡ true → split 10 (c ∷ s) ≡ [] ∷ split 10 s
unfolding split
split_at c s p = rw p refl

split_on : (c : ℕ) (s : Text) → (c == 10) ≡ false → split 10 (c ∷ s) ≡ on_head c (split 10 s)
unfolding split
split_on c s p = rw p refl

split_some : (s : Text) → split 10 s ≢ []
unfolding split
split_some [] h = cc
split_some (c ∷ s) h = elim (Bool-cases (c == 10)) [
  | inl p ↦ cc (split_at c s p)
  | inr p ↦ on_head_some c (split 10 s) (sym (split_on c s p) ∙ h)
]

split_none : (rest : Text) → [] ∷ split 10 rest ≡ split 10 [] ++ split 10 rest
unfolding split
split_none rest = refl

split-newline : (s rest : Text) → split 10 (s ++ 10 ∷ rest) ≡ split 10 s ++ split 10 rest
split-newline [] rest = split_at 10 rest refl ∙ split_none rest
split-newline (c ∷ s) rest = elim (Bool-cases (c == 10)) [
  | inl p ↦
      split_at c (s ++ 10 ∷ rest) p
      ∙ ap (λ ls. [] ∷ ls) (split-newline s rest)
      ∙ ap (λ ls. ls ++ split 10 rest) (sym (split_at c s p))
  | inr p ↦
      split_on c (s ++ 10 ∷ rest) p
      ∙ ap (on_head c) (split-newline s rest)
      ∙ on_head-append c (split 10 s) (split 10 rest) (split_some s)
      ∙ ap (λ ls. ls ++ split 10 rest) (sym (split_on c s p))
]

read_text-newline : (s rest : Text) → read_text (s ++ 10 ∷ rest) ≡ read_text s ++ read_text rest
unfolding read_text
read_text-newline s rest =
    rw (split-newline s rest) (read_lines-append (split 10 s) (split 10 rest))

-- All but the last character.
init : Text → Text
init [] = []
init (c ∷ []) = []
init (c ∷ d ∷ s) = c ∷ init (d ∷ s)

init-newline : (s : Text) → ends_line s ≡ true → s ≡ init s ++ 10 ∷ []
unfolding ends_line init
init-newline [] h = cc
init-newline (c ∷ []) h = ground (arith, h)
init-newline (c ∷ d ∷ s) h = ap (λ x. c ∷ x) (init-newline (d ∷ s) h)

read_text_empty : read_text [] ≡ []
unfolding read_text
read_text_empty = refl

-- A text that ends a line is read by itself.
read_text-append :
    (s rest : Text) → ends_line s ≡ true → read_text (s ++ rest) ≡ read_text s ++ read_text rest
read_text-append s rest h =
    let its = init-newline s h in
    let alone : read_text s ≡ read_text (init s) =
      ap read_text its
      ∙ read_text-newline (init s) []
      ∙ ap (λ x. read_text (init s) ++ x) read_text_empty
      ∙ append-nil (read_text (init s)) in
    ap read_text (ap (λ x. x ++ rest) its ∙ append_assoc (init s) (10 ∷ []) rest)
    ∙ read_text-newline (init s) rest
    ∙ ap (λ x. x ++ read_text rest) (sym alone)

split_line : (s : Text) → is_line s ≡ true → split 10 s ≡ s ∷ []
unfolding split
split_line [] h = refl
split_line (c ∷ s) h =
    split_on c s (ground (arith, h)) ∙ ap (on_head c) (split_line s (ground (arith, h)))

-- One line.
read_text_line : (s : Text) → is_line s ≡ true → read_text (s ++ 10 ∷ []) ≡ read_line s
unfolding read_text read_lines
read_text_line s h =
    read_text-newline s []
    ∙ ap (λ ls. read_lines ls ++ read_text []) (split_line s h)
    ∙ ap (λ x. (read_line s ++ []) ++ x) read_text_empty
    ∙ append-nil (read_line s ++ [])
    ∙ append-nil (read_line s)
