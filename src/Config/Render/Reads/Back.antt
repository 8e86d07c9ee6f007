-- ===== src/Config/Render/Reads/Back.antt =====
-- A line that is written is read back.
use mathlib.Core.List.{append_assoc, append-nil}
use qfn_pgx.Base.{
  if◌then◌else◌, List_eq, ℕ, ◌≡◌, refl, arith, ap, ◌∙◌, Bool, true, false, not, ◌&&◌, ℕ_eq, ◌==◌,
  List, [], ◌∷◌, ◌++◌, all,
}
use qfn_pgx.Base.Bytes.{Text, codes, cut_first}
use qfn_pgx.Config.Adaptive.{format_int}
use qfn_pgx.Config.Render.{
  Val, quoted, truth, int, float, Chunk, written, entry, field, escape, q, tf, val_text, line,
  chunk_text, write_all,
}
use qfn_pgx.Config.Render.Reads.{
  Value, str, bare, Item, valued, spaces_off, nothing_left, read_string, item_of, read_value,
  read_pair, read_line, read_text, is_line, is_key_char, is_number_char, is_number, is_bare,
  unreadable, is_plain, is_some_text, ends_line, read_text_line, read_text-append, read_text_empty,
}
use qfn_pgx.Config.Render.Reads.Words.{
  is_word_char, is_bare-is_word, all-append, all_of, starts_blank, word_before-append,
  read_string-escape, escape_line, is_number-format_int,
}

module _ {F : Type 0} (format_float : F → Text)
    (float_word : (f : F) → is_number (format_float f) ≡ true) where
  -- The value that a file should hold.
  abbrev pub value_of : Val F → Value
  value_of (quoted s) = str s
  value_of (truth b) = bare (tf b)
  value_of (int n) = bare (format_int n)
  value_of (float f) = bare (format_float f)

  abbrev pub is_good : Val F → Bool
  is_good (quoted s) = is_plain s
  is_good _ = true

  word_value :
      (l key w t : Text)
      → is_bare w ≡ true
      → starts_blank t ≡ true
      → (read_value l key (spaces_off (32 ∷ (w ++ t))) ≡ valued key (bare w))
  unfolding read_value spaces_off
  word_value l key [] t h k = cc
  word_value l key (c ∷ w) t h k =
      let is = is_bare-is_word (c ∷ w) h in
      let read =
        word_before-append (c ∷ w) t
          (all_of is_word_char (λ c. not (c == 32)) (λ c h. ground (arith, h)) (c ∷ w) is) k in
      let no32 : (c == 32) ≡ false = ground (arith, is) in
      let no34 : (c == 34) ≡ false = ground (arith, is) in
      rw (no32, no34)
        (ap (λ x. if is_bare x then valued key (bare x) else unreadable l) read
          ∙ ap (λ b. if b then valued key (bare (c ∷ w)) else unreadable l) h)

  quoted_value :
      (l key s t : Text)
      → is_plain s ≡ true
      → nothing_left t ≡ true
      → read_value l key (spaces_off (32 ∷ (q s ++ t))) ≡ valued key (str s)
  unfolding read_value spaces_off item_of q
  quoted_value l key s t h k =
      ap (λ x. item_of l key (read_string false x)) (append_assoc (escape s) (34 ∷ []) t)
      ∙ ap (item_of l key) (read_string-escape s t h k)

  abbrev is_tail : Text → Bool
  is_tail t = nothing_left t && starts_blank t

  val_back :
      (l key : Text) (v : Val F) (t : Text)
      → is_good v ≡ true
      → is_tail t ≡ true
      → read_value l key (spaces_off (32 ∷ (val_text format_float v ++ t)))
        ≡ valued key (value_of v)
  unfolding val_text
  val_back l key (quoted s) t h k = quoted_value l key s t h (ground (arith, k))
  val_back l key (truth true) t h k = word_value l key (codes "true") t refl (ground (arith, k))
  val_back l key (truth false) t h k = word_value l key (codes "false") t refl (ground (arith, k))
  val_back l key (int n) t h k =
      word_value l key (format_int n) t (ground (arith, is_number-format_int n)) (ground (arith, k))
  val_back l key (float f) t h k =
      word_value l key (format_float f) t (ground (arith, float_word f)) (ground (arith, k))

  -- A key of a file.
  abbrev is_key : Text → Bool
  is_key key = is_some_text key && all is_key_char key

  -- A line without its newline.
  abbrev written_line : Text → Val F → Text → Text
  written_line key v t = (key ++ 32 ∷ []) ++ (61 ∷ (32 ∷ (val_text format_float v ++ t)))

  pair_back :
      (key : Text) (v : Val F) (t : Text)
      → is_key key ≡ true
      → is_good v ≡ true
      → is_tail t ≡ true
      → read_line (written_line key v t) ≡ valued key (value_of v) ∷ []
  unfolding read_line read_pair
  pair_back [] v t h g k = cc
  pair_back (c ∷ key) v t h g k =
      let at = cut_first 61 ((c ∷ key) ++ 32 ∷ []) (32 ∷ (val_text format_float v ++ t)) (
        all-append (λ c. not (c == 61)) (c ∷ key) (32 ∷ [])
          (all_of is_key_char (λ c. not (c == 61)) (λ c h. ground (arith, h)) (c ∷ key) h) refl) in
      let name =
        word_before-append (c ∷ key) (32 ∷ [])
          (all_of is_key_char (λ c. not (c == 32)) (λ c h. ground (arith, h)) (c ∷ key) h) refl in
      let no35 : (c == 35) ≡ false = ground (arith, h) in
      let no91 : (c == 91) ≡ false = ground (arith, h) in
      let l = written_line (c ∷ key) v t in
      let value = 32 ∷ (val_text format_float v ++ t) in
      rw (no35, no91)
        (ap (λ o. read_pair l o ∷ []) at
          ∙ ap (λ x. read_value l x (spaces_off value) ∷ []) name
          ∙ ap (λ x. x ∷ []) (val_back l (c ∷ key) v t g k))

  -- What a chunk says.
  unfoldable pub chunk_items : Chunk F → List Item
  chunk_items (written s) = read_text s
  chunk_items (entry key v comment) = valued key (value_of v) ∷ []
  chunk_items (field key v) = valued key (value_of v) ∷ []

  -- What is asked of a chunk: its texts are plain, and what the code itself writes is in order.
  unfoldable pub good_chunk : Chunk F → Bool
  unfolding ends_line
  good_chunk (written s) = ends_line s
  good_chunk (entry key v comment) = (is_key key && is_line comment) && is_good v
  good_chunk (field key v) = is_key key && is_good v

  val_line : (v : Val F) → is_good v ≡ true → is_line (val_text format_float v) ≡ true
  unfolding val_text q
  val_line (quoted s) h =
      all-append (λ c. not (c == 10)) (escape s) (34 ∷ []) (escape_line s h) refl
  val_line (truth true) h = refl
  val_line (truth false) h = refl
  val_line (int n) h =
      all_of is_number_char (λ c. not (c == 10)) (λ c h. ground (arith, h)) (format_int n)
        (ground (arith, is_number-format_int n))
  val_line (float f) h =
      all_of is_number_char (λ c. not (c == 10)) (λ c h. ground (arith, h)) (format_float f)
        (ground (arith, float_word f))

  ends_line-newline : (a : Text) → ends_line (a ++ 10 ∷ []) ≡ true
  unfolding ends_line
  ends_line-newline [] = refl
  ends_line-newline (c ∷ []) = refl
  ends_line-newline (c ∷ d ∷ a) = ends_line-newline (d ∷ a)

  entry_shape :
      (key : Text) (v : Val F) (comment : Text)
      → line format_float key v comment
        ≡ written_line key v (32 ∷ 32 ∷ 35 ∷ 32 ∷ comment) ++ 10 ∷ []
  unfolding line
  entry_shape key v comment = simp append_assoc

  field_shape :
      (key : Text) (v : Val F)
      → chunk_text format_float (field key v) ≡ written_line key v [] ++ 10 ∷ []
  unfolding chunk_text
  field_shape key v = simp (append_assoc, append-nil)

  written_is_line :
      (key : Text) (v : Val F) (t : Text)
      → is_key key ≡ true
      → is_good v ≡ true
      → is_line t ≡ true
      → is_line (written_line key v t) ≡ true
  written_is_line key v t k g h =
      let no10 = λ (c : ℕ). not (c == 10) in
      all-append no10 (key ++ 32 ∷ []) (61 ∷ (32 ∷ (val_text format_float v ++ t)))
        (all-append no10 key (32 ∷ [])
          (all_of is_key_char no10 (λ c h. ground (arith, h)) key (ground (arith, k))) refl)
        (all-append no10 (val_text format_float v) t (val_line v g) h)

  -- A line is read back, whatever comes after it.
  written_back :
      (key : Text) (v : Val F) (t rest : Text)
      → is_key key ≡ true
      → is_good v ≡ true
      → is_tail t ≡ true
      → is_line t ≡ true
      → read_text ((written_line key v t ++ 10 ∷ []) ++ rest)
        ≡ (valued key (value_of v) ∷ []) ++ read_text rest
  written_back key v t rest k g e h =
      read_text-append (written_line key v t ++ 10 ∷ []) rest
        (ends_line-newline (written_line key v t))
      ∙ ap (λ x. x ++ read_text rest)
          (read_text_line (written_line key v t) (written_is_line key v t k g h)
            ∙ pair_back key v t k g e)

  chunk_back :
      (c : Chunk F) (rest : Text)
      → good_chunk c ≡ true
      → read_text (chunk_text format_float c ++ rest) ≡ chunk_items c ++ read_text rest
  unfolding chunk_text chunk_items good_chunk nothing_left
  chunk_back (written s) rest h = read_text-append s rest h
  chunk_back (entry key v comment) rest h =
      ap (λ x. read_text (x ++ rest)) (entry_shape key v comment)
      ∙ written_back key v (32 ∷ 32 ∷ 35 ∷ 32 ∷ comment) rest (ground (arith, h))
          (ground (arith, h)) refl (ground (arith, h))
  chunk_back (field key v) rest h =
      ap (λ x. read_text (x ++ rest)) (field_shape key v)
      ∙ written_back key v [] rest (ground (arith, h)) (ground (arith, h)) refl refl

  unfoldable pub all_items : List (Chunk F) → List Item
  unfolding chunk_items
  all_items [] = []
  all_items (c ∷ cs) = chunk_items c ++ all_items cs

  unfoldable pub all_good : List (Chunk F) → Bool
  unfolding good_chunk
  all_good [] = true
  all_good (c ∷ cs) = good_chunk c && all_good cs

  -- A file of good chunks is read back.
  pub write_all_back :
      (cs : List (Chunk F))
      → all_good cs ≡ true
      → read_text (write_all format_float cs) ≡ all_items cs
  unfolding write_all all_items all_good
  write_all_back [] h = read_text_empty
  write_all_back (c ∷ cs) h =
      chunk_back c (write_all format_float cs) (ground (arith, h))
      ∙ ap (λ x. chunk_items c ++ x) (write_all_back cs (ground (arith, h)))
