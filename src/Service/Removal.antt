-- ===== src/Service/Removal.antt =====
-- What `Uninstall` leaves, and what `Install` may have done before it.
use qfn_pgx.Base.{◌≡◌, sym, ap, subst, ◌∙◌, true, false, none, List_eq, ℕ_eq, [], if◌then◌else◌}
use qfn_pgx.Base.Dict.{lookup}
use qfn_pgx.Base.Bytes.{Text}
use qfn_pgx.Service.{System, World, owned, remove_units, uninstall}
use qfn_pgx.Service.Units.{
  CanRemove, is_unit, AllRemovable, erase_all, remove_all, owned_lem, finish_ok, both_removable,
  lookup-erased,
}

module _ (sys : System) where
  -- With a system that lets it, an uninstall removes exactly the units that the dry run names, whatever an earlier
  -- install left, even one that failed half way: their files are gone, every other file is as it was, and there is
  -- no error. The dry run itself leaves every file.
  pub uninstall_removes :
      (w : World) (path : Text)
      → CanRemove sys
      → let dry = uninstall sys true w in
        let real = uninstall sys false w in
        (real.0 ≡ dry.0)
        × (real.1 ≡ true)
        × (lookup path real.2.files ≡ (if is_unit sys path then none else lookup path w.files))
        × (dry.2.files ≡ w.files)
  unfolding uninstall
  uninstall_removes w path can =
      let o = owned_lem sys w in
      let names = (owned sys w).0.names in
      let units : AllRemovable sys names =
        subst (AllRemovable sys) (sym o.0) (both_removable sys w can) in
      let all = remove_all sys names [] (owned sys w).1 units in
      let end = finish_ok sys (remove_units sys names [] (owned sys w).1) all.1 can.2 in
      (
        end.0 ∙ all.0,
        end.1,
        ap (lookup path) (end.2 ∙ all.2 ∙ (λ i. erase_all sys (o.0 i) (o.1 i)))
            ∙ lookup-erased sys w path,
        o.1,
      )
