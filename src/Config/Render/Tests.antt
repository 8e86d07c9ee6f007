-- ===== src/Config/Render/Tests.antt =====
-- The file of a configuration with a key, and a text that it does not hold.
use qfn_pgx.Base.{ℕ, ◌≡◌, refl, [], ◌∷◌, ◌++◌}
use qfn_pgx.Base.Bytes.{Text, codes, cut}
use qfn_pgx.Config.Types.{Config, defaults}
use qfn_pgx.Config.Render.{render, q}
use qfn_pgx.Config.Render.Reads.{read_text, unreadable}
use qfn_pgx.Config.Render.Says.{items}
use qfn_pgx.Config.Render.Exact.{read_text-render}

-- A float that is printed as "0.85".
abbrev print : ℕ → Text
print f = codes "0.85"

abbrev basic : Config ℕ
basic = defaults 0

abbrev cfg : Config ℕ
cfg = record basic {
  serve = record basic.serve {
    api_keys = record { key_name = "ci"; key_hash = "a\"b"; created = "2026" } ∷ [];
  };
}

read_text-render_example : read_text (render print cfg) ≡ items print cfg
read_text-render_example = read_text-render print (λ f. refl) cfg refl

-- A text that ends in a backslash is written so that it has no closing quote.
backslash :
    read_text (codes "name = " ++ q (codes "C:\\")) ≡ unreadable (codes "name = \"C:\\\"") ∷ []
unfolding read_text q cut
backslash = refl
