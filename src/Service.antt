-- ===== src/Service.antt =====
-- internal/service/service.go: the systemd units of the console and of the engine. The files, the inventory and the
-- commands that ran are a `World`; what the system answers to them is a `System`.
pub mod Units
pub mod Removal
mod Tests
use qfn_pgx.Base.{
  ℕ, Bool, true, false, not, ◌&&◌, Option, none, some, is_some, List_eq, ℕ_eq, ◌==◌, List, [], ◌∷◌,
  ◌++◌, if◌then◌else◌,
}
use qfn_pgx.Base.Dict.{Dict, lookup, insert, erase}
use qfn_pgx.Base.Bytes.{Text, codes, trim_space}

-- The names of the units.
abbrev pub serve_unit : Text
serve_unit = codes "qfn-serve"

abbrev pub engine_unit : Text
engine_unit = codes "qfn-engine"

-- `serveTemplate`, for a user and a binary.
unfoldable pub serve_template : Text → Text → Text
serve_template user bin =
    codes
      "# qfn-owned unit (qfn service install; qfn service uninstall to remove)\n[Unit]\nDescription=QFN-PGX console (Qwen3.8-Flash-Next ops console + proxy)\nAfter=docker.service\nWants=docker.service\n\n[Service]\nType=simple\nUser="
    ++ (user
        ++ (codes "\nExecStart="
            ++ (bin
                ++ codes
                    " serve\nRestart=always\nRestartSec=3\n\n[Install]\nWantedBy=multi-user.target\n")))

-- `engineTemplate`
unfoldable pub engine_template : Text → Text → Text
engine_template user bin =
    codes
      "# qfn-owned unit (qfn service install --engine-autostart; qfn service uninstall to remove)\n[Unit]\nDescription=QFN-PGX engine (qwen3.8-flash-next vLLM lane)\nAfter=docker.service\nWants=docker.service\n\n[Service]\nType=simple\nUser="
    ++ (user
        ++ (codes "\nExecStart="
            ++ (bin
                ++ (codes " up --yes\nExecStop="
                    ++ (bin
                        ++ codes
                            " down\nRestart=always\nRestartSec=15\nTimeoutStopSec=60\n\n[Install]\nWantedBy=multi-user.target\n")))))

-- What the system answers: a command's output, none for an error; whether a path can be written or removed, and the
-- inventory be recorded; and who runs the program.
pub record System : Type 0 where
  pub runner : List Text → Option Text
  pub can_write : Text → Bool
  pub can_remove : Text → Bool
  pub can_record : Bool
  pub unit_dir : Text
  pub is_root : Bool
  pub sudo_user : Text
  pub current_user : Option Text

-- The files below the unit directory, the units of the inventory, none where it cannot be read, and the commands
-- that ran.
pub record World : Type 0 where
  pub files : Dict Text Text
  pub inventory : Option (List Text)
  pub ran : List (List Text)

-- `UnitUser`
unfoldable pub unit_user : System → Text
unit_user sys =
    if sys.is_root && not (sys.sudo_user == [])
    then sys.sudo_user
    else elim sys.current_user [ some name ↦ name | none ↦ codes "root" ]

-- `unitPath`
unfoldable pub unit_path : System → Text → Text
unit_path sys unit = sys.unit_dir ++ (b'/' ∷ (unit ++ codes ".service"))

abbrev run : List Text → World → World
run cmd w = record w { ran = w.ran ++ cmd ∷ [] }

abbrev pub reload : List Text
reload = codes "sudo" ∷ codes "systemctl" ∷ codes "daemon-reload" ∷ []

abbrev pub enable : Text → List Text
enable unit =
    codes "sudo"
    ∷ codes "systemctl"
    ∷ codes "enable"
    ∷ codes "--now"
    ∷ (unit ++ codes ".service")
    ∷ []

abbrev pub disable : Text → List Text
disable unit =
    codes "sudo"
    ∷ codes "systemctl"
    ∷ codes "disable"
    ∷ codes "--now"
    ∷ (unit ++ codes ".service")
    ∷ []

abbrev is_enabled : Text → List Text
is_enabled unit = codes "systemctl" ∷ codes "is-enabled" ∷ (unit ++ codes ".service") ∷ []

-- The closure `render` of `Install`; whether there was no error.
unfoldable pub render : System → Text → Text → World → Bool × World
unfolding unit_path
render sys unit content w =
    let written = record w { files = insert (unit_path sys unit) content w.files } in
    if not (sys.can_write (unit_path sys unit))
    then (false, w)
    else if not (is_some (sys.runner reload))
    then (false, run reload written)
    else (is_some (sys.runner (enable unit)), run (enable unit) (run reload written))

-- `record`
unfoldable pub record_units : System → List Text → World → Bool × World
record_units sys units w =
    if sys.can_record then (true, record w { inventory = some units }) else (false, w)

abbrev named : List Text → Bool × World → List Text × Bool × World
named done (ok, w) = (done, ok, w)

install_engine : System → Text → World → List Text × Bool × World
unfolding render record_units engine_template unit_user
install_engine sys bin w =
    let (ok, w') = render sys engine_unit (engine_template (unit_user sys) bin) w in
    if not ok
    then (serve_unit ∷ [], false, w')
    else named (serve_unit ∷ engine_unit ∷ []) (record_units sys (serve_unit ∷ engine_unit ∷ []) w')

-- `Install`: the units that it did, whether there was no error, and the world.
unfoldable pub install : System → Text → Bool → World → List Text × Bool × World
unfolding render record_units install_engine serve_template unit_user
install sys bin with_engine w =
    let (ok, w') = render sys serve_unit (serve_template (unit_user sys) bin) w in
    if not ok
    then ([], false, w')
    else if with_engine
    then install_engine sys bin w'
    else named (serve_unit ∷ []) (record_units sys (serve_unit ∷ []) w')

-- `OwnedReport`
pub record OwnedReport : Type 0 where
  pub names : List Text
  pub enabled_state : Dict Text Text
  pub recorded : List Text

abbrev state_of : Option Text → Text
state_of none = codes "disabled"
state_of (some out) = trim_space out

own : System → Text → OwnedReport × World → OwnedReport × World
unfolding unit_path lookup insert trim_space
own sys unit (rep, w) =
    if is_some (lookup (unit_path sys unit) w.files)
    then (
      record rep {
        names = rep.names ++ unit ∷ [];
        enabled_state = insert unit (state_of (sys.runner (is_enabled unit))) rep.enabled_state;
      },
      run (is_enabled unit) w,
    )
    else (rep, w)

abbrev or_none : Option (List Text) → List Text
or_none none = []
or_none (some units) = units

-- `Owned`
unfoldable pub owned : System → World → OwnedReport × World
unfolding own
owned sys w = own sys engine_unit (
    own sys serve_unit
      (record { names = []; enabled_state = []; recorded = or_none w.inventory }, w))

-- The loop of `Uninstall`, after the units that it removed.
unfoldable pub remove_units : System → List Text → List Text → World → List Text × Bool × World
unfolding unit_path erase lookup
remove_units sys [] removed w = (removed, true, w)
remove_units sys (unit ∷ units) removed w =
    let w1 = run (disable unit) w in
    let w2 = record w1 { files = erase (unit_path sys unit) w1.files } in
    let rest = remove_units sys units (removed ++ unit ∷ []) w2 in
    if not (is_some (sys.runner (disable unit)))
    then (removed, false, w1)
    else if not (sys.can_remove (unit_path sys unit))
        && is_some (lookup (unit_path sys unit) w1.files)
    then (removed, false, w1)
    else rest

unfoldable pub finish_removal : System → List Text × Bool × World → List Text × Bool × World
unfolding record_units
finish_removal sys (removed, false, w) = (removed, false, w)
finish_removal sys (removed, true, w) =
    if not (is_some (sys.runner reload))
    then (removed, false, run reload w)
    else (removed, true, (record_units sys [] (run reload w)).1)

-- `Uninstall`
unfoldable pub uninstall : System → Bool → World → List Text × Bool × World
unfolding owned remove_units finish_removal
uninstall sys dry_run w =
    let (rep, w') = owned sys w in
    if dry_run then (rep.names, true, w') else finish_removal sys (remove_units sys rep.names [] w')
