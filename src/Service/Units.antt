-- ===== src/Service/Units.antt =====
-- The units that `Owned` finds and the loop of `Uninstall`.
use mathlib.Core.List.{append-nil, append_assoc}
use qfn_pgx.Base.{
  ◌≡◌, refl, sym, arith, ap, ◌∙◌, Bool, true, false, ◌&&◌, ◌||◌, Option, none, some, is_some,
  List_eq, ℕ_eq, ◌==◌, List, [], ◌∷◌, ◌++◌, any, if◌then◌else◌, Bool-cases, inl, inr,
}
use qfn_pgx.Base.Dict.{Dict, lookup, erase, lookup-erase}
use qfn_pgx.Base.Bytes.{Text}
use qfn_pgx.Service.{
  System, World, OwnedReport, serve_unit, engine_unit, unit_path, reload, disable, run, own, owned,
  or_none, record_units, remove_units, finish_removal,
}

none_of : {A : Type 0} (o : Option A) → is_some o ≡ false → o ≡ none
none_of none h = refl
none_of (some a) h = cc

if_same : {A : Type 0} (b : Bool) {x : Option A} → x ≡ none → (if b then none else x) ≡ none
if_same true h = refl
if_same false h = h

two_present :
    (f : Text → Bool) (a b : Text) (x y : Bool)
    → any f ((if x then a ∷ [] else []) ++ (if y then b ∷ [] else [])) ≡ ((x && f a) || (y && f b))
two_present f a b true true = ground arith
two_present f a b true false = ground arith
two_present f a b false true = ground arith
two_present f a b false false = refl

-- A file of a unit that is not there is none already.
absent :
    {A : Type 0} (x y p q : Bool) (v : Option A)
    → (x ≡ false → p ≡ true → v ≡ none)
    → (y ≡ false → q ≡ true → v ≡ none)
    → (if (x && p) || (y && q) then none else v) ≡ (if p || q then none else v)
absent true true p q v h k = refl
absent true false true q v h k = refl
absent true false false true v h k = k refl refl
absent true false false false v h k = refl
absent false true true true v h k = refl
absent false true true false v h k = h refl refl
absent false true false q v h k = refl
absent false false true q v h k = h refl refl
absent false false false true v h k = k refl refl
absent false false false false v h k = refl

module _ (sys : System) where
  -- The two units can be disabled and their files removed, and the daemon reloads.
  abbrev pub CanRemove : Type 0
  CanRemove =
      (is_some (sys.runner (disable serve_unit)) ≡ true)
      × (is_some (sys.runner (disable engine_unit)) ≡ true)
      × (is_some (sys.runner reload) ≡ true)
      × (sys.can_remove (unit_path sys serve_unit) ≡ true)
      × (sys.can_remove (unit_path sys engine_unit) ≡ true)

  abbrev pub is_unit : Text → Bool
  is_unit path = (unit_path sys serve_unit == path) || (unit_path sys engine_unit == path)

  has_unit : Text → World → Bool
  unfolding lookup
  has_unit unit w = is_some (lookup (unit_path sys unit) w.files)

  own_there :
      (unit : Text) (r : OwnedReport × World)
      → has_unit unit r.1 ≡ true
      → ((own sys unit r).0.names ≡ r.0.names ++ unit ∷ []) × ((own sys unit r).1.files ≡ r.1.files)
  unfolding own has_unit
  own_there unit (rep, w) p = rw p (refl, refl)

  own_missing :
      (unit : Text) (r : OwnedReport × World) → has_unit unit r.1 ≡ false → own sys unit r ≡ r
  unfolding own has_unit
  own_missing unit (rep, w) p = rw p refl

  -- The units that can be removed.
  unfoldable pub IsRemovable : Text → Type 0
  IsRemovable unit =
      (is_some (sys.runner (disable unit)) ≡ true) × (sys.can_remove (unit_path sys unit) ≡ true)

  unfoldable pub AllRemovable : List Text → Type 0
  unfolding IsRemovable
  AllRemovable [] = Unit
  AllRemovable (unit ∷ units) = IsRemovable unit × AllRemovable units

  unfoldable pub erase_all : List Text → Dict Text Text → Dict Text Text
  erase_all [] files = files
  erase_all (unit ∷ units) files = erase_all units (erase (unit_path sys unit) files)

  remove_one :
      (unit : Text) (units removed : List Text) (w : World)
      → IsRemovable unit
      → remove_units sys (unit ∷ units) removed w
        ≡ remove_units sys units
            (removed ++ unit ∷ [])
            (record (run (disable unit) w) { files = erase (unit_path sys unit) w.files })
  unfolding remove_units IsRemovable
  remove_one unit units removed w (d, r) = rw (d, r) refl

  remove_none :
      (removed : List Text) (w : World)
      → ((remove_units sys [] removed w).0 ≡ removed ++ [])
        × ((remove_units sys [] removed w).1 ≡ true)
        × ((remove_units sys [] removed w).2.files ≡ w.files)
  unfolding remove_units
  remove_none removed w = (sym (append-nil removed), refl, refl)

  pub remove_all :
      (units removed : List Text) (w : World)
      → AllRemovable units
      → ((remove_units sys units removed w).0 ≡ removed ++ units)
        × ((remove_units sys units removed w).1 ≡ true)
        × ((remove_units sys units removed w).2.files ≡ erase_all units w.files)
  unfolding AllRemovable erase_all
  remove_all [] removed w h = (remove_none removed w)
  remove_all (unit ∷ units) removed w (h, hs) =
      let w' = record (run (disable unit) w) { files = erase (unit_path sys unit) w.files } in
      let step = remove_one unit units removed w h in
      let rest = remove_all units (removed ++ unit ∷ []) w' hs in
      (
        ap (λ x. x.0) step ∙ rest.0 ∙ append_assoc removed (unit ∷ []) units,
        ap (λ x. x.1) step ∙ rest.1,
        ap (λ x. x.2.files) step ∙ rest.2,
      )

  present : Text → World → List Text
  unfolding has_unit
  present unit w = if has_unit unit w then unit ∷ [] else []

  own_lem :
      (unit : Text) (r : OwnedReport × World)
      → ((own sys unit r).0.names ≡ r.0.names ++ present unit r.1)
        × ((own sys unit r).1.files ≡ r.1.files)
  unfolding present
  own_lem unit r = elim (Bool-cases (has_unit unit r.1)) [
    | inl p ↦ rw p (own_there unit r p)
    | inr p ↦
        let same = own_missing unit r p in
        rw p (ap (λ x. x.0.names) same ∙ sym (append-nil r.0.names), ap (λ x. x.1.files) same)
  ]

  present_same : (unit : Text) (a b : World) → a.files ≡ b.files → present unit a ≡ present unit b
  unfolding present has_unit
  present_same unit a b e =
      ap (λ files. if is_some (lookup (unit_path sys unit) files) then unit ∷ [] else []) e

  -- The units whose files are there.
  unfoldable pub both_present : World → List Text
  unfolding present
  both_present w = present serve_unit w ++ present engine_unit w

  pub owned_lem :
      (w : World) → ((owned sys w).0.names ≡ both_present w) × ((owned sys w).1.files ≡ w.files)
  unfolding owned both_present
  owned_lem w =
      let start : OwnedReport × World =
        (record { names = []; enabled_state = []; recorded = or_none w.inventory }, w) in
      let first = own_lem serve_unit start in
      let second = own_lem engine_unit (own sys serve_unit start) in
      (
        second.0
            ∙ (λ i. first.0 i ++ present_same engine_unit (own sys serve_unit start).1 w first.1 i),
        second.1 ∙ first.1,
      )

  kept_files : (units : List Text) (w : World) → (record_units sys units w).1.files ≡ w.files
  unfolding record_units
  kept_files units w = elim (Bool-cases sys.can_record) [ inl p ↦ rw p refl | inr p ↦ rw p refl ]

  pub finish_ok :
      (r : List Text × Bool × World)
      → r.1 ≡ true
      → is_some (sys.runner reload) ≡ true
      → ((finish_removal sys r).0 ≡ r.0)
        × ((finish_removal sys r).1 ≡ true)
        × ((finish_removal sys r).2.files ≡ r.2.files)
  unfolding finish_removal
  finish_ok (removed, false, w) h p = cc
  finish_ok (removed, true, w) h p = rw p (refl, refl, kept_files [] (run reload w))

  present_removable : (unit : Text) (w : World) → IsRemovable unit → AllRemovable (present unit w)
  unfolding present AllRemovable
  present_removable unit w h = elim (Bool-cases (has_unit unit w)) [
    | inl p ↦ rw p (h, tt)
    | inr p ↦ rw p tt
  ]

  AllRemovable-append : (a b : List Text) → AllRemovable a → AllRemovable b → AllRemovable (a ++ b)
  unfolding AllRemovable
  AllRemovable-append [] b h k = k
  AllRemovable-append (x ∷ a) b (h, hs) k = (h, AllRemovable-append a b hs k)

  pub both_removable : (w : World) → CanRemove → AllRemovable (both_present w)
  unfolding both_present IsRemovable
  both_removable w (ds, de, r, rs, re) =
      AllRemovable-append (present serve_unit w) (present engine_unit w)
        (present_removable serve_unit w (ds, rs)) (present_removable engine_unit w (de, re))

  abbrev is_path : Text → Text → Bool
  is_path path unit = unit_path sys unit == path

  lookup-erase_all :
      (units : List Text) (files : Dict Text Text) (path : Text)
      → lookup path (erase_all units files)
        ≡ (if any (is_path path) units then none else lookup path files)
  unfolding erase_all
  lookup-erase_all [] files path = refl
  lookup-erase_all (unit ∷ units) files path =
      let rest = lookup-erase_all units (erase (unit_path sys unit) files) path in
      let one = lookup-erase (unit_path sys unit) path files in
      elim (Bool-cases (unit_path sys unit == path)) [
        | inl p ↦ rest ∙ rw p (if_same (any (is_path path) units) (one ∙ rw p refl))
        | inr p ↦
            rest ∙ rw p (ap (λ x. if any (is_path path) units then none else x) (one ∙ rw p refl))
      ]

  missing :
      (unit : Text) (w : World) (path : Text)
      → has_unit unit w ≡ false
      → is_path path unit ≡ true
      → lookup path w.files ≡ none
  unfolding has_unit
  missing unit w path h p =
      let same = (List_eq.same_iff (unit_path sys unit) path).0 p in
      ap (λ x. lookup x w.files) (sym same) ∙ none_of (lookup (unit_path sys unit) w.files) h

  any-present :
      (f : Text → Bool) (w : World)
      → any f (both_present w)
        ≡ ((has_unit serve_unit w && f serve_unit) || (has_unit engine_unit w && f engine_unit))
  unfolding both_present present
  any-present f w =
      two_present f serve_unit engine_unit (has_unit serve_unit w) (has_unit engine_unit w)

  pub lookup-erased :
      (w : World) (path : Text)
      → lookup path (erase_all (both_present w) w.files)
        ≡ (if is_unit path then none else lookup path w.files)
  lookup-erased w path =
      lookup-erase_all (both_present w) w.files path
      ∙ ap (λ b. if b then none else lookup path w.files) (any-present (is_path path) w)
      ∙ absent (has_unit serve_unit w) (has_unit engine_unit w) (is_path path serve_unit)
          (is_path path engine_unit) (lookup path w.files) (missing serve_unit w path)
          (missing engine_unit w path)
