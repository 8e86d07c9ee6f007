-- ===== src/Proxy/FrontDoor/Sampling.antt =====
-- What `applySampling` makes of a request's fields.
use qfn_pgx.Base.{◌≡◌, refl, arith, true, false, Option, none, some, String, String_eq, [], ◌∷◌}
use qfn_pgx.Base.Dict.{Dict, lookup, insert, lookup-insert}
use qfn_pgx.Proxy.FrontDoor.{
  Settings, Codec, fill, lacks_any, fill_object, fill_defaults, starts_object, apply_sampling,
}
use qfn_pgx.Base.Bytes.{Text}
use qfn_pgx.Base.{Bool-cases, inl, inr, ◌∙◌, ap, sym}

abbrev pub or_else : {V : Type 0} → Option V → Option V → Option V
or_else none d = d
or_else (some v) d = some v

module _ {V : Type 0} (C : Codec V) where
  lookup-fill :
      (defs generic : Dict String V) (k : String)
      → lookup k (fill C defs generic) ≡ or_else (lookup k generic) (lookup k defs)
  unfolding fill lookup
  lookup-fill [] generic k = ground arith
  lookup-fill ((j, v) ∷ defs) generic k = ground (
    arith,
    lookup-fill defs generic k,
    lookup-fill defs (insert j v generic) k,
    lookup-insert j k v generic,
    String_eq.same_iff j k,
  )

  fill-unchanged :
      (defs generic : Dict String V)
      → lacks_any C defs generic ≡ false
      → fill C defs generic ≡ generic
  unfolding fill lacks_any
  fill-unchanged [] generic h = refl
  fill-unchanged ((k, v) ∷ defs) generic h = ground (arith, fill-unchanged defs generic, h)

abbrev pub found : {V : Type 0} → String → Option (Dict String V) → Option V
found k none = none
found k (some generic) = lookup k generic

or_else-none : {V : Type 0} (v : Option V) → or_else v none ≡ v
or_else-none none = refl
or_else-none (some v) = refl

found-fill_object :
    {V : Type 0} (C : Codec V) (body : Text) (defs generic : Dict String V) (k : String)
    (out : Text)
    → C.encode_object (fill C defs generic) ≡ some out
    → C.decode_object out ≡ some (fill C defs generic)
    → C.decode_object body ≡ some generic
    → found k (C.decode_object (fill_object C defs body (some generic)))
      ≡ lookup k (fill C defs generic)
unfolding fill_object
found-fill_object C body defs generic k out enc dec d =
    elim (Bool-cases (lacks_any C defs generic)) [
      | inl p ↦ rw (p, enc, dec) refl
      | inr p ↦ rw (p, d) (ap (lookup k) (sym (fill-unchanged C defs generic p)))
    ]

pub lookup-apply_sampling :
    {V : Type 0} (C : Codec V) (st : Settings V) (body : Text) (defs generic : Dict String V)
    (k : String) (out : Text)
    → C.encode_object (fill C defs generic) ≡ some out
    → C.decode_object out ≡ some (fill C defs generic)
    → starts_object body ≡ true
    → st.sampling ≡ some defs
    → C.decode_object body ≡ some generic
    → found k (C.decode_object (apply_sampling C st body))
      ≡ or_else (lookup k generic) (lookup k defs)
unfolding apply_sampling lookup
lookup-apply_sampling C st body [] generic k out enc dec o s d =
    rw (o, s, fill_defaults, d) (sym (or_else-none (lookup k generic)))
lookup-apply_sampling C st body (x ∷ defs) generic k out enc dec o s d =
    rw (o, s, fill_defaults, d)
      (found-fill_object C body (x ∷ defs) generic k out enc dec d
        ∙ lookup-fill C (x ∷ defs) generic k)
