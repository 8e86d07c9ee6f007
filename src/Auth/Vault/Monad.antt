-- ===== src/Auth/Vault/Monad.antt =====
-- Errors of the store, and actions that change a state and may fail: what was changed before the
-- failure stays changed.
use qfn_pgx.Base.{Bool, true, false, Option, none, some, ◌≡◌, refl}

pub data Err : Type 0 where
  no_credentials not_private unreadable bad_identity cannot_decrypt corrupt : Err
  cannot_encrypt cannot_write no_random bad_name key_exists no_such_key : Err

pub data Result {ℓ} (A : Type ℓ) : Type ℓ where
  ok : A → Result A
  err : Err → Result A

abbrev pub or_raise {ℓ} : {A : Type ℓ} → Err → Option A → Result A
or_raise e none = err e
or_raise e (some a) = ok a

abbrev pub Act {ℓ} : Type ℓ → Type ℓ → Type ℓ
Act S A = S → Result A × S

module _ {ℓ} {S A : Type ℓ} where
  abbrev pub pure : A → Act S A
  pure a s = (ok a, s)

  abbrev pub raise : Err → Act S A
  raise e s = (err e, s)

  abbrev pub lift : Result A → Act S A
  lift r s = (r, s)

  abbrev pub gets : (S → A) → Act S A
  gets f s = (ok (f s), s)

module _ {S : Type 0} where
  abbrev pub modify : (S → S) → Act S (Unit {0})
  modify f s = (ok tt, f s)

  abbrev pub guard : Bool → Err → Act S (Unit {0})
  guard true e s = (ok tt, s)
  guard false e s = (err e, s)

  abbrev pub when : Bool → (S → S) → Act S (Unit {0})
  when true f s = (ok tt, f s)
  when false f s = (ok tt, s)

module _ {ℓ} {S A B : Type ℓ} where
  abbrev continue : Result A × S → (A → Act S B) → Result B × S
  continue (ok a, s) f = f a s
  continue (err e, s) f = (err e, s)

  infixl 5 ◌>>=◌
  abbrev pub ◌>>=◌ : Act S A → (A → Act S B) → Act S B
  ◌>>=◌ m f s = continue (m s) f

infixl 5 ◌>>◌
abbrev pub ◌>>◌ : {S B : Type 0} → Act S (Unit {0}) → Act S B → Act S B
m >> k = m >>= λ _. k

module _ {ℓ} {S A B : Type ℓ} where
  continue_ok :
      (r : Result A × S) (f : A → Act S B) {b : B} {t : S}
      → continue r f ≡ (ok b, t)
      → (a : A) × (s : S) × (r ≡ (ok a, s)) × (f a s ≡ (ok b, t))
  continue_ok (ok a, s) f h = (a, s, refl, h)
  continue_ok (err e, s) f h = cc

  -- Inversion of a block that succeeded: its first action did, and so did the rest from there.
  pub bind_ok :
      (m : Act S A) (f : A → Act S B) (s : S) {b : B} {t : S}
      → (m >>= f) s ≡ (ok b, t)
      → (a : A) × (s' : S) × (m s ≡ (ok a, s')) × (f a s' ≡ (ok b, t))
  bind_ok m f s h = continue_ok (m s) f h
