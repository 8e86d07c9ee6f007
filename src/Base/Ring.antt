-- ===== src/Base/Ring.antt =====
-- `xs = append(xs, x); if len(xs) > cap { xs = xs[len(xs)-cap:] }`: a list that keeps its last entries.
use Prim.Native.Nat.{ℕ, zero, suc, ◌+◌, ◌-◌, ◌≤◌}
use mathlib.Core.Path.{◌≡◌, refl, ap, ◌∙◌, sym}
use mathlib.Core.Logic.{inl, inr}
use mathlib.Core.List.{List, [], ◌∷◌, ◌++◌, append-nil, append_assoc}
use native.Mathlib.Omega.{arith}
use qfn_pgx.Base.Tests.{ltb, if◌then◌else◌, Bool-cases, ltb→lt, ltb→ge}
use qfn_pgx.Base.Lists.{length, drop, length-append, length-drop}

module _ {ℓ} {A : Type ℓ} where
  unfoldable pub push : ℕ → A → List A → List A
  push cap x xs =
      let ys = xs ++ x ∷ [] in if ltb cap (length ys) then drop (length ys - cap) ys else ys

  -- The last entries of a list, `cap` of them at most.
  abbrev pub last_n : ℕ → List A → List A
  last_n cap xs = drop (length xs - cap) xs

  pub drop-append : (k : ℕ) (xs ys : List A) → k ≤ length xs → drop k (xs ++ ys) ≡ drop k xs ++ ys
  drop-append zero xs ys h = refl
  drop-append (suc k) [] ys h = absurd (omega arith)
  drop-append (suc k) (x ∷ xs) ys h = drop-append k xs ys (omega arith)

  pub drop-nil : (n : ℕ) → drop {A = A} n [] ≡ []
  drop-nil zero = refl
  drop-nil (suc n) = refl

  pub drop-drop : (a b : ℕ) (xs : List A) → drop a (drop b xs) ≡ drop (b + a) xs
  drop-drop a zero xs = let e : 0 + a ≡ a = omega arith in rw e
  drop-drop a (suc b) [] = rw (drop-nil a, drop-nil (suc b + a))
  drop-drop a (suc b) (x ∷ xs) =
      let e : suc b + a ≡ suc (b + a) = omega arith in rw e (drop-drop a b xs)

  pub push-last_n :
      (cap : ℕ) (x : A) (xs : List A) → push cap x (last_n cap xs) ≡ last_n cap (xs ++ x ∷ [])
  unfolding push
  push-last_n cap x xs =
      let a = length xs - cap in
      let zs = xs ++ x ∷ [] in
      let e : drop a xs ++ x ∷ [] ≡ drop a zs = sym (drop-append a xs (x ∷ []) (omega arith)) in
      let lz : length zs ≡ length xs + 1 = length-append xs (x ∷ []) in
      let ld : length (drop a zs) ≡ length zs - a = length-drop a zs in
      rw e (elim (Bool-cases (ltb cap (length (drop a zs)))) [
        | inl over ↦ rw over (
            drop-drop (length (drop a zs) - cap) a zs
            ∙ ap (λ n. drop n zs) (omega (arith, lz, ld, ltb→lt cap (length (drop a zs)) over)))
        | inr fits ↦
            rw fits
              (ap (λ n. drop n zs) (omega (arith, lz, ld, ltb→ge cap (length (drop a zs)) fits)))
      ])

  unfoldable pub pushes : ℕ → List A → List A → List A
  pushes cap [] ring = ring
  pushes cap (x ∷ xs) ring = pushes cap xs (push cap x ring)

  pub pushes_from :
      (cap : ℕ) (xs old : List A) → pushes cap xs (last_n cap old) ≡ last_n cap (old ++ xs)
  unfolding pushes
  pushes_from cap [] old = rw append-nil
  pushes_from cap (x ∷ xs) old =
      ap (pushes cap xs) (push-last_n cap x old)
      ∙ pushes_from cap xs (old ++ x ∷ [])
      ∙ ap (last_n cap) (append_assoc old (x ∷ []) xs)
