-- ===== src/Base/Dict.antt =====
-- Go maps as association lists with one entry for a key: `m[k]`, `m[k] = v`, `delete(m, k)`, and
-- the sweep that deletes while it ranges. The order of the entries stands for Go's unspecified one.
use mathlib.Core.Path.{◌≡◌, refl, subst, ap}
use mathlib.Core.Bool.{Bool, true, false}
use mathlib.Core.Logic.{inl, inr}
use mathlib.Core.List.{List, [], ◌∷◌}
use mathlib.Core.Option.{Option, none, some}
use native.Mathlib.Omega.{arith}
use qfn_pgx.Base.Tests.{Eq, ◌==◌, beq_refl, Bool-cases, is_some, if◌then◌else◌}
use qfn_pgx.Base.Lists.{length}
use Prim.Native.Nat.{◌+◌}

abbrev pub Dict {ℓ κ} : Type ℓ → Type κ → Type (ℓ ⊔ κ)
Dict K V = List (K × V)

abbrev pub keep_if {ℓ} : {V : Type ℓ} → (V → Bool) → Option V → Option V
keep_if keep none = none
keep_if keep (some v) = if keep v then some v else none

pub beq_sym {ℓ} : {K : Type ℓ} ⦃e : Eq K⦄ (j k : K) → (j == k) ≡ false → (k == j) ≡ false
beq_sym ⦃e⦄ j k h = ground (arith, e.same_iff j k, e.same_iff k j)

module _ {ℓ κ} {K : Type ℓ} {V : Type κ} ⦃e : Eq K⦄ where
  unfoldable pub lookup : K → Dict K V → Option V
  lookup k [] = none
  lookup k ((j, v) ∷ d) = if j == k then some v else lookup k d

  unfoldable pub insert : K → V → Dict K V → Dict K V
  insert k v [] = (k, v) ∷ []
  insert k v ((j, w) ∷ d) = if j == k then (k, v) ∷ d else (j, w) ∷ insert k v d

  unfoldable pub erase : K → Dict K V → Dict K V
  erase k [] = []
  erase k ((j, w) ∷ d) = let rest = erase k d in if j == k then rest else (j, w) ∷ rest

  pub lookup-insert :
      (k j : K) (v : V) (d : Dict K V)
      → lookup j (insert k v d) ≡ (if k == j then some v else lookup j d)
  unfolding lookup insert
  lookup-insert k j v [] = refl
  lookup-insert k j v ((i, w) ∷ d) =
      ground (arith, e.same_iff k j, e.same_iff i k, e.same_iff i j, lookup-insert k j v d)

  pub lookup-erase :
      (k j : K) (d : Dict K V) → lookup j (erase k d) ≡ (if k == j then none else lookup j d)
  unfolding lookup erase
  lookup-erase k j [] = ground arith
  lookup-erase k j ((i, w) ∷ d) =
      ground (arith, e.same_iff k j, e.same_iff i k, e.same_iff i j, lookup-erase k j d)

  pub lookup-insert_self : (k : K) (v : V) (d : Dict K V) → lookup k (insert k v d) ≡ some v
  lookup-insert_self k v d = simp (lookup-insert, beq_refl)

  pub lookup-erase_self : (k : K) (d : Dict K V) → lookup k (erase k d) ≡ none
  lookup-erase_self k d = simp (lookup-erase, beq_refl)

  -- `for k, v := range d { if !keep(v) { delete(d, k) } }`
  unfoldable pub sweep : (V → Bool) → Dict K V → Dict K V
  sweep keep [] = []
  sweep keep ((j, w) ∷ d) = let rest = sweep keep d in if keep w then (j, w) ∷ rest else rest

  -- No entry has the key.
  abbrev pub Lacks : K → Dict K V → Type 0
  Lacks k [] = Unit
  Lacks k ((j, w) ∷ d) = ((j == k) ≡ false) × Lacks k d

  -- What every Go map satisfies: one entry for a key.
  abbrev pub IsMap : Dict K V → Type 0
  IsMap [] = Unit
  IsMap ((j, w) ∷ d) = Lacks j d × IsMap d

  pub lookup_of_Lacks : (k : K) (d : Dict K V) → Lacks k d → lookup k d ≡ none
  unfolding lookup
  lookup_of_Lacks k [] h = refl
  lookup_of_Lacks k ((j, w) ∷ d) h = rw h.0 (lookup_of_Lacks k d h.1)

  pub Lacks-insert :
      (k j : K) (v : V) (d : Dict K V) → (k == j) ≡ false → Lacks j d → Lacks j (insert k v d)
  unfolding insert
  Lacks-insert k j v [] h l = (h, tt)
  Lacks-insert k j v ((i, w) ∷ d) h l = elim (Bool-cases (i == k)) [
    | inl p ↦ rw p (h, l.1)
    | inr p ↦ rw p (l.0, Lacks-insert k j v d h l.1)
  ]

  pub insert-IsMap : (k : K) (v : V) (d : Dict K V) → IsMap d → IsMap (insert k v d)
  unfolding insert
  insert-IsMap k v [] h = (tt, tt)
  insert-IsMap k v ((i, w) ∷ d) h = elim (Bool-cases (i == k)) [
    | inl p ↦ rw p (subst (λ j. Lacks j d) ((e.same_iff i k).0 p) h.0, h.1)
    | inr p ↦ rw p (Lacks-insert k i v d (beq_sym i k p) h.0, insert-IsMap k v d h.1)
  ]

  pub Lacks-erase : (k j : K) (d : Dict K V) → Lacks j d → Lacks j (erase k d)
  unfolding erase
  Lacks-erase k j [] l = tt
  Lacks-erase k j ((i, w) ∷ d) l = elim (Bool-cases (i == k)) [
    | inl p ↦ rw p (Lacks-erase k j d l.1)
    | inr p ↦ rw p (l.0, Lacks-erase k j d l.1)
  ]

  pub erase-IsMap : (k : K) (d : Dict K V) → IsMap d → IsMap (erase k d)
  unfolding erase
  erase-IsMap k [] h = tt
  erase-IsMap k ((i, w) ∷ d) h = elim (Bool-cases (i == k)) [
    | inl p ↦ rw p (erase-IsMap k d h.1)
    | inr p ↦ rw p (Lacks-erase k i d h.0, erase-IsMap k d h.1)
  ]

  pub Lacks-sweep : (keep : V → Bool) (j : K) (d : Dict K V) → Lacks j d → Lacks j (sweep keep d)
  unfolding sweep
  Lacks-sweep keep j [] l = tt
  Lacks-sweep keep j ((i, w) ∷ d) l = elim (Bool-cases (keep w)) [
    | inl p ↦ rw p (l.0, Lacks-sweep keep j d l.1)
    | inr p ↦ rw p (Lacks-sweep keep j d l.1)
  ]

  pub sweep-IsMap : (keep : V → Bool) (d : Dict K V) → IsMap d → IsMap (sweep keep d)
  unfolding sweep
  sweep-IsMap keep [] h = tt
  sweep-IsMap keep ((i, w) ∷ d) h = elim (Bool-cases (keep w)) [
    | inl p ↦ rw p (Lacks-sweep keep i d h.0, sweep-IsMap keep d h.1)
    | inr p ↦ rw p (sweep-IsMap keep d h.1)
  ]

  pub lookup-sweep :
      (keep : V → Bool) (k : K) (d : Dict K V)
      → IsMap d
      → lookup k (sweep keep d) ≡ keep_if keep (lookup k d)
  unfolding lookup sweep
  lookup-sweep keep k [] h = refl
  lookup-sweep keep k ((i, w) ∷ d) h =
      let gone : (i == k) ≡ true → lookup k (sweep keep d) ≡ none = λ p.
        lookup_of_Lacks k (sweep keep d)
          (Lacks-sweep keep k d (subst (λ j. Lacks j d) ((e.same_iff i k).0 p) h.0)) in
      ground (arith, gone, lookup-sweep keep k d h.1)

  pub length-insert :
      (k : K) (v : V) (d : Dict K V)
      → length (insert k v d) ≡ (if is_some (lookup k d) then length d else length d + 1)
  unfolding insert lookup
  length-insert k v [] = ground arith
  length-insert k v ((j, w) ∷ d) = ground (arith, length-insert k v d)

  erase_of_Lacks : (k : K) (d : Dict K V) → Lacks k d → erase k d ≡ d
  unfolding erase
  erase_of_Lacks k [] h = refl
  erase_of_Lacks k ((j, w) ∷ d) h = rw (h.0, erase_of_Lacks k d h.1)

  pub length-erase :
      (k : K) (d : Dict K V)
      → IsMap d
      → length d ≡ (if is_some (lookup k d) then length (erase k d) + 1 else length (erase k d))
  unfolding erase lookup
  length-erase k [] h = refl
  length-erase k ((j, w) ∷ d) h = elim (Bool-cases (j == k)) [
    | inl p ↦
        let gone = erase_of_Lacks k d (subst (λ i. Lacks i d) ((e.same_iff j k).0 p) h.0) in
        ground (arith, ap length gone)
    | inr p ↦ ground (arith, length-erase k d h.1)
  ]
