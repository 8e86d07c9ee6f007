-- ===== src/Config/Render/Exact.antt =====
-- `Render` against what a configuration file should say.
use mathlib.Core.List.{append_assoc}
use qfn_pgx.Base.{◌≡◌, refl, sym, arith, ap, ◌∙◌, Bool, true, List, [], ◌∷◌, ◌++◌, all}
use qfn_pgx.Base.Bytes.{Text, codes}
use qfn_pgx.Config.Render.Says.{
  key_texts, paths_texts, engine_texts, serve_texts, meta_texts, texts, key_items, paths_items,
  engine_items, serve_items, tail_items, items,
}
use qfn_pgx.Config.Types.{Config, ApiKey}
use qfn_pgx.Config.Render.{
  Chunk, write_all, head_chunks, engine_chunks, serve_chunks, key_chunks, tail_chunks, chunks,
  render,
}
use qfn_pgx.Config.Render.Reads.{
  Item, is_number, opened, valued, str, read_text, is_plain, ends_line,
}
use qfn_pgx.Config.Render.Reads.Back.{all_items, chunk_items, all_good, good_chunk, write_all_back}

module _ {F : Type 0} (format_float : F → Text)
    (float_word : (f : F) → is_number (format_float f) ≡ true) (cfg : Config F) where
  abbrev good : List (Chunk F) → Bool
  good = all_good format_float float_word

  abbrev says : List (Chunk F) → List Item
  says = all_items format_float float_word

  says-append : (a b : List (Chunk F)) → says (a ++ b) ≡ says a ++ says b
  unfolding all_items
  says-append [] b = refl
  says-append (c ∷ a) b =
      ap (λ x. chunk_items format_float float_word c ++ x) (says-append a b)
      ∙ sym (append_assoc (chunk_items format_float float_word c) (says a) (says b))

  good-append : (a b : List (Chunk F)) → good a ≡ true → good b ≡ true → good (a ++ b) ≡ true
  unfolding all_good
  good-append [] b h k = k
  good-append (c ∷ a) b h k = ground (arith, good-append a b, h, k)

  good_head : all is_plain (paths_texts cfg) ≡ true → good (head_chunks cfg) ≡ true
  unfolding all_good good_chunk head_chunks ends_line
  good_head h = h

  good_engine : all is_plain (engine_texts cfg) ≡ true → good (engine_chunks cfg) ≡ true
  unfolding all_good good_chunk engine_chunks ends_line
  good_engine h = h

  good_serve : all is_plain (serve_texts cfg) ≡ true → good (serve_chunks cfg) ≡ true
  unfolding all_good good_chunk serve_chunks ends_line
  good_serve h = h

  good_tail : all is_plain (meta_texts cfg) ≡ true → good (tail_chunks cfg) ≡ true
  unfolding all_good good_chunk tail_chunks ends_line
  good_tail h = h

  good_keys : (ks : List ApiKey) → all is_plain (key_texts ks) ≡ true → good (key_chunks ks) ≡ true
  unfolding all_good good_chunk key_chunks ends_line
  good_keys [] h = refl
  good_keys (k ∷ ks) h = ground (arith, h, good_keys ks)

  says_head : says (head_chunks cfg) ≡ paths_items format_float cfg
  unfolding all_items chunk_items head_chunks read_text
  says_head = refl

  says_engine : says (engine_chunks cfg) ≡ engine_items format_float cfg
  unfolding all_items chunk_items engine_chunks read_text
  says_engine = refl

  says_serve : says (serve_chunks cfg) ≡ serve_items format_float cfg
  unfolding all_items chunk_items serve_chunks read_text
  says_serve = refl

  says_tail : says (tail_chunks cfg) ≡ tail_items format_float cfg
  unfolding all_items chunk_items tail_chunks read_text
  says_tail = refl

  says_keys : (ks : List ApiKey) → says (key_chunks ks) ≡ key_items ks
  unfolding all_items chunk_items key_chunks read_text
  says_keys [] = refl
  says_keys (k ∷ ks) =
      ap
        (λ rest.
          opened (codes "[[serve.api_keys]]")
          ∷ valued (codes "name") (str (codes k.key_name))
          ∷ valued (codes "key_hash") (str (codes k.key_hash))
          ∷ valued (codes "created") (str (codes k.created))
          ∷ rest)
        (says_keys ks)

  all_split :
      (a b : List Text)
      → all is_plain (a ++ b) ≡ true
      → (all is_plain a ≡ true) × (all is_plain b ≡ true)
  all_split [] b h = (refl, h)
  all_split (t ∷ a) b h = ground (arith, h, all_split a b)

  render-chunks : render format_float cfg ≡ write_all format_float (chunks cfg)
  unfolding render
  render-chunks = refl

  chunks_parts :
      chunks cfg
      ≡ head_chunks cfg
        ++ (engine_chunks cfg
            ++ (serve_chunks cfg ++ (key_chunks cfg.serve.api_keys ++ tail_chunks cfg)))
  unfolding chunks
  chunks_parts = refl

  says-chunks : says (chunks cfg) ≡ items format_float cfg
  says-chunks =
      let ks = key_chunks cfg.serve.api_keys in
      let end = ks ++ tail_chunks cfg in
      let rest = serve_chunks cfg ++ end in
      ap says chunks_parts
      ∙ says-append (head_chunks cfg) (engine_chunks cfg ++ rest)
      ∙ (λ i. says_head i ++ says-append (engine_chunks cfg) rest i)
      ∙ (λ i.
          paths_items format_float cfg ++ (says_engine i ++ says-append (serve_chunks cfg) end i))
      ∙ (λ i.
          paths_items format_float cfg
          ++ (engine_items format_float cfg
              ++ (says_serve i ++ says-append ks (tail_chunks cfg) i)))
      ∙ (λ i.
          paths_items format_float cfg
          ++ (engine_items format_float cfg
              ++ (serve_items format_float cfg ++ (says_keys cfg.serve.api_keys i ++ says_tail i))))

  good-chunks : all is_plain (texts cfg) ≡ true → good (chunks cfg) ≡ true
  good-chunks h =
      let ks = key_chunks cfg.serve.api_keys in
      let t3 = key_texts cfg.serve.api_keys ++ meta_texts cfg in
      let t2 = serve_texts cfg ++ t3 in
      let (paths, h1) = all_split (paths_texts cfg) (engine_texts cfg ++ t2) h in
      let (engine, h2) = all_split (engine_texts cfg) t2 h1 in
      let (serve, h3) = all_split (serve_texts cfg) t3 h2 in
      let (key, meta) = all_split (key_texts cfg.serve.api_keys) (meta_texts cfg) h3 in
      ap good chunks_parts
      ∙ good-append (head_chunks cfg) _ (good_head paths) (
          good-append (engine_chunks cfg) _ (good_engine engine) (
            good-append (serve_chunks cfg) _ (good_serve serve) (
              good-append ks (tail_chunks cfg) (good_keys cfg.serve.api_keys key)
                (good_tail meta))))

  -- The file of a configuration whose texts have no control character and no backslash, quotes allowed, and whose
  -- floats are printed in digits, signs, points and an exponent, so that none is NaN or infinite, says exactly
  -- the configuration's tree to a reader of the part of TOML that such a file uses, which is a description of it
  -- written for this theorem and not the program's decoder: each table in its place, each field once under
  -- the name of its tag, a string as it was, another value as it is printed, and the keys one table each; no
  -- comment changes what is read.
  pub read_text-render :
      all is_plain (texts cfg) ≡ true → read_text (render format_float cfg) ≡ items format_float cfg
  read_text-render h =
      ap read_text render-chunks
      ∙ write_all_back format_float float_word (chunks cfg) (good-chunks h)
      ∙ says-chunks
