-- ===== src/Config/Profiles/Names.antt =====
-- A profile's name as the name of its file.
use qfn_pgx.Base.{
  ℕ, ◌≤◌, ◌≡◌, refl, Bool, true, not, ◌&&◌, String, [], ◌∷◌, ℕ_eq, ◌==◌, arith, all, length,
}
use qfn_pgx.Base.Bytes.{Text, codes}
use qfn_pgx.Config.Profiles.{is_name_char, valid_chars, validate_name}

-- The name stays in the directory: it holds no slash or backslash and no NUL, and does not begin with
-- a dot.
abbrev is_plain : ℕ → Bool
is_plain c = not (c == b'/') && not (c == 92) && not (c == 0)

abbrev pub IsFileName : Text → Type 0
IsFileName [] = ⊥
IsFileName (c ∷ s) = (¬ (c ≡ b'.')) × (all is_plain (c ∷ s) ≡ true) × (length (c ∷ s) ≤ 64)

plain : (s : Text) → all is_name_char s ≡ true → all is_plain s ≡ true
plain [] h = refl
plain (c ∷ s) h = ground (arith, plain s)

chars : (s : Text) → valid_chars s ≡ true → IsFileName s
chars [] h = ground arith
chars (c ∷ s) h = ground (arith, plain s)

-- A name that `ValidateName` accepts is the name of one file of the profiles' directory: it is not
-- empty, does not begin with a dot, has no slash, backslash or NUL, and has at most 64 characters.
pub validate_name-IsFileName : (name : String) → validate_name name ≡ true → IsFileName (codes name)
unfolding validate_name
validate_name-IsFileName name h = chars (codes name) h
