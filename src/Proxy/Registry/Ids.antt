-- ===== src/Proxy/Registry/Ids.antt =====
-- The ids that the registry mints.
use qfn_pgx.Base.{
  ℕ, zero, suc, ◌+◌, ◌-◌, ◌*◌, ◌/◌, ◌%◌, ◌^◌, ◌<◌, ◌≡◌, [], ◌∷◌, arith, ◌==◌, ℕ_eq, nat_eq_iff,
  Bool-cases, inl, inr, ap, ◌∙◌,
}
use native.Mathlib.Nat.{pow-suc}
use mathlib.Core.List.{tail}
use qfn_pgx.Base.Bytes.{Text}
use qfn_pgx.Proxy.Registry.{Registry, itoa_loop, itoa, next_id}

-- What a decimal text reads as, after a number.
abbrev pub decimal : ℕ → Text → ℕ
decimal n [] = n
decimal n (c ∷ s) = decimal (n * 10 + (c - b'0')) s

decimal-itoa_loop :
    (room v : ℕ) (digits : Text)
    → v < 10 ^ room
    → decimal 0 (itoa_loop room v digits) ≡ decimal v digits
unfolding itoa_loop
decimal-itoa_loop zero v digits h = ap (λ n. decimal n digits) (omega arith)
decimal-itoa_loop (suc room) v digits h = elim (Bool-cases (v == 0)) [
  | inl e ↦ rw (e, (nat_eq_iff v 0).0 e)
  | inr e ↦ rw e (
      decimal-itoa_loop room (v / 10) ((b'0' + v % 10) ∷ digits) (omega (arith, pow-suc 10 room))
      ∙ ap (λ n. decimal n digits) (omega arith))
]

-- `itoa` prints every number that fits its buffer of 20 digits as a text that reads back as the number.
pub decimal-itoa : (v : ℕ) → v < 10 ^ 20 → decimal 0 (itoa v) ≡ v
unfolding itoa
decimal-itoa v h = elim (Bool-cases (v == 0)) [
  | inl e ↦ rw (e, (nat_eq_iff v 0).0 e)
  | inr e ↦ rw e (decimal-itoa_loop 20 v [] h)
]

-- Two requests never have one id: ids that are minted at different counts differ, up to 10 ^ 20.
pub next_id_injective :
    (a b : Registry)
    → a.seq + 1 < 10 ^ 20
    → b.seq + 1 < 10 ^ 20
    → (next_id a).1 ≡ (next_id b).1
    → a.seq ≡ b.seq
unfolding next_id
next_id_injective a b ha hb h = omega (
  arith,
  decimal-itoa (a.seq + 1) ha,
  decimal-itoa (b.seq + 1) hb,
  ap (λ (t : Text). decimal 0 (tail t)) h,
)
