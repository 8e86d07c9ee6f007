-- ===== src/Config/Render/Reads/Words.antt =====
-- The words and the strings of a value are read back.
use qfn_pgx.Base.{
  ℕ, zero, suc, ◌+◌, ◌/◌, ◌%◌, ◌≡◌, refl, arith, ap, ◌∙◌, leb, Bool, true, false, not, ◌&&◌, some,
  ℕ_eq, List_eq, sym, subst, ◌==◌, [], ◌∷◌, ◌++◌, all, Bool-cases, inl, inr,
}
use qfn_pgx.Base.Int.{ℤ, pos, negsuc}
use qfn_pgx.Base.Bytes.{Text, codes}
use qfn_pgx.Config.Adaptive.{format_int}
use qfn_pgx.Proxy.Registry.{itoa, itoa_loop}
use qfn_pgx.Config.Render.{escape}
use qfn_pgx.Config.Render.Reads.{
  word_before, nothing_left, cons_some, read_string, is_line, is_number_char, is_plain,
  is_some_text, is_number, is_bare,
}

pub all-append :
    (f : ℕ → Bool) (a b : Text) → all f a ≡ true → all f b ≡ true → all f (a ++ b) ≡ true
all-append f [] b h k = k
all-append f (c ∷ a) b h k = ground (arith, all-append f a b, h, k)

pub all_of :
    (f g : ℕ → Bool)
    → ((c : ℕ) → f c ≡ true → g c ≡ true)
    → (s : Text) → all f s ≡ true
    → all g s ≡ true
all_of f g e [] h = refl
all_of f g e (c ∷ s) h = ground (arith, e c, all_of f g e s, h)

-- What may follow a value on its line: nothing, or a space with a comment.
abbrev pub starts_blank : Text → Bool
starts_blank [] = true
starts_blank (c ∷ t) = c == 32

pub word_before-append :
    (w t : Text)
    → all (λ c. not (c == 32)) w ≡ true
    → starts_blank t ≡ true
    → word_before (w ++ t) ≡ w
unfolding word_before
word_before-append [] [] h k = refl
word_before-append [] (c ∷ t) h k = rw k refl
word_before-append (c ∷ w) t h k = ground (arith, word_before-append w t, h, k)

quote_ends : (t : Text) → nothing_left t ≡ true → read_string false (34 ∷ t) ≡ some []
unfolding read_string
quote_ends t h = rw h refl

read_plain :
    (c : ℕ) (s : Text)
    → leb 32 c ≡ true
    → (c == 92) ≡ false
    → (c == 34) ≡ false
    → read_string false (c ∷ s) ≡ cons_some c (read_string false s)
unfolding read_string
read_plain c s h k n = ground (arith, h, k, n)

read_escaped : (s : Text) → read_string false (92 ∷ 34 ∷ s) ≡ cons_some 34 (read_string false s)
unfolding read_string
read_escaped s = refl

escape_quote : (c : ℕ) (s : Text) → (c == 34) ≡ true → escape (c ∷ s) ≡ 92 ∷ 34 ∷ escape s
unfolding escape
escape_quote c s p = rw p refl

escape_other : (c : ℕ) (s : Text) → (c == 34) ≡ false → escape (c ∷ s) ≡ c ∷ escape s
unfolding escape
escape_other c s p = rw p refl

-- What `q` writes of a plain text is read back as the text.
pub read_string-escape :
    (s t : Text)
    → is_plain s ≡ true
    → nothing_left t ≡ true
    → read_string false (escape s ++ 34 ∷ t) ≡ some s
unfolding escape
read_string-escape [] t h k = quote_ends t k
read_string-escape (c ∷ s) t h k =
    let ih = read_string-escape s t (ground (arith, h)) k in
    elim (Bool-cases (c == 34)) [
      | inl p ↦
          let same : 34 ≡ c = ground (arith, p) in
          ap (λ x. read_string false (x ++ 34 ∷ t)) (escape_quote c s p)
          ∙ read_escaped (escape s ++ 34 ∷ t)
          ∙ ap (cons_some 34) ih
          ∙ ap (λ x. some (x ∷ s)) same
      | inr p ↦
          ap (λ x. read_string false (x ++ 34 ∷ t)) (escape_other c s p)
          ∙ read_plain c (escape s ++ 34 ∷ t) (ground (arith, h)) (ground (arith, h)) p
          ∙ ap (cons_some c) ih
    ]

escape_none : is_line (escape []) ≡ true
unfolding escape
escape_none = refl

pub escape_line : (s : Text) → is_plain s ≡ true → is_line (escape s) ≡ true
escape_line [] h = escape_none
escape_line (c ∷ s) h =
    let rest = escape_line s (ground (arith, h)) in
    elim (Bool-cases (c == 34)) [
      | inl p ↦ ap is_line (escape_quote c s p) ∙ rest
      | inr p ↦ ap is_line (escape_other c s p) ∙ ground (arith, rest, h)
    ]

is_number-itoa_loop :
    (room v : ℕ) (digits : Text)
    → all is_number_char digits ≡ true
    → all is_number_char (itoa_loop room v digits) ≡ true
unfolding itoa_loop
is_number-itoa_loop zero v digits h = h
is_number-itoa_loop (suc room) v digits h = elim (Bool-cases (v == 0)) [
  | inl e ↦ rw e h
  | inr e ↦ rw e (is_number-itoa_loop room (v / 10) ((b'0' + v % 10) ∷ digits) (ground (arith, h)))
]

is_some-itoa_loop :
    (room v : ℕ) (digits : Text)
    → is_some_text digits ≡ true
    → is_some_text (itoa_loop room v digits) ≡ true
unfolding itoa_loop
is_some-itoa_loop zero v digits h = h
is_some-itoa_loop (suc room) v digits h = elim (Bool-cases (v == 0)) [
  | inl e ↦ rw e h
  | inr e ↦ rw e (is_some-itoa_loop room (v / 10) ((b'0' + v % 10) ∷ digits) refl)
]

itoa_zero : (v : ℕ) → (v == 0) ≡ true → itoa v ≡ b'0' ∷ []
unfolding itoa
itoa_zero v e = rw e refl

itoa_other : (v : ℕ) → (v == 0) ≡ false → itoa v ≡ itoa_loop 19 (v / 10) ((b'0' + v % 10) ∷ [])
unfolding itoa itoa_loop
itoa_other v e = rw e refl

is_number-itoa : (v : ℕ) → is_number (itoa v) ≡ true
is_number-itoa v = elim (Bool-cases (v == 0)) [
  | inl e ↦ ap is_number (itoa_zero v e)
  | inr e ↦
      let digits : Text = (b'0' + v % 10) ∷ [] in
      ap is_number (itoa_other v e)
      ∙ ap (λ b. b && all is_number_char (itoa_loop 19 (v / 10) digits))
          (is_some-itoa_loop 19 (v / 10) digits refl)
      ∙ is_number-itoa_loop 19 (v / 10) digits (ground arith)
]

pub is_number-format_int : (n : ℤ) → is_number (format_int n) ≡ true
unfolding format_int
is_number-format_int (pos n) = is_number-itoa n
is_number-format_int (negsuc n) = ground (arith, is_number-itoa (n + 1))

-- A character of a bare value: no space, quote or newline.
abbrev pub is_word_char : ℕ → Bool
is_word_char c = leb 43 c && leb c b'z'

abbrev pub is_word : Text → Bool
is_word w = is_some_text w && all is_word_char w

pub is_number-is_word : (w : Text) → is_number w ≡ true → is_word w ≡ true
is_number-is_word [] h = h
is_number-is_word (c ∷ w) h =
    all_of is_number_char is_word_char (λ d k. ground (arith, k)) (c ∷ w) h

pub is_bare-is_word : (w : Text) → is_bare w ≡ true → is_word w ≡ true
is_bare-is_word w h = elim (Bool-cases (is_number w)) [
  | inl p ↦ is_number-is_word w p
  | inr p ↦ elim (Bool-cases (w == codes "true")) [
    | inl t ↦ subst (λ v. is_word v ≡ true) (sym ((List_eq.same_iff w (codes "true")).0 t)) refl
    | inr t ↦
        subst (λ v. is_word v ≡ true)
          (sym ((List_eq.same_iff w (codes "false")).0 (ground (arith, h, p, t)))) refl
  ]
]
