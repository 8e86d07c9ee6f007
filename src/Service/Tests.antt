-- ===== src/Service/Tests.antt =====
-- An install whose second unit cannot be enabled, and the uninstall after it.
use qfn_pgx.Base.{◌≡◌, refl, true, false, none, some, List_eq, ℕ_eq, ◌==◌, [], ◌∷◌, if◌then◌else◌}
use qfn_pgx.Base.Bytes.{codes}
use qfn_pgx.Base.Dict.{lookup, insert}
use qfn_pgx.Service.{System, World, install, uninstall, serve_unit, engine_unit, enable, unit_user}
use qfn_pgx.Service.Units.{is_unit}
use qfn_pgx.Service.Removal.{uninstall_removes}

abbrev box : System
box = record {
  runner = λ cmd. if cmd == enable engine_unit then none else some (codes "ok");
  can_write = λ p. true;
  can_remove = λ p. true;
  can_record = true;
  unit_dir = codes "/u";
  is_root = true;
  sudo_user = codes "ada";
  current_user = none;
}

abbrev clean : World
clean = record { files = (codes "/u/other", codes "x") ∷ []; inventory = none; ran = [] }

abbrev half : World
half = (install box (codes "/bin/qfn") true clean).2

-- The unit that failed has a file, though the install does not name it.
half_installed :
    ((install box (codes "/bin/qfn") true clean).0 ≡ serve_unit ∷ [])
    × ((install box (codes "/bin/qfn") true clean).1 ≡ false)
    × ((uninstall box true half).0 ≡ serve_unit ∷ engine_unit ∷ [])
unfolding install uninstall insert lookup
half_installed = (refl, refl, refl)

uninstall_removes_example :
    let dry = uninstall box true half in
    let real = uninstall box false half in
    (real.0 ≡ dry.0)
    × (real.1 ≡ true)
    × (lookup (codes "/u/other") real.2.files
        ≡ (if is_unit box (codes "/u/other") then none else lookup (codes "/u/other") half.files))
    × (dry.2.files ≡ half.files)
uninstall_removes_example =
    uninstall_removes box half (codes "/u/other") (refl, refl, refl, refl, refl)

sudo_runs_as_human : unit_user box ≡ codes "ada"
unfolding unit_user
sudo_runs_as_human = refl
