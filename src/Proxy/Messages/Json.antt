-- ===== src/Proxy/Messages/Json.antt =====
-- The JSON values that the translation of a request looks into: Go's `any`, with the numbers as they are
-- written. The names of an object's fields are distinct.
use qfn_pgx.Base.{Bool, String, String_eq, ◌==◌, List, [], ◌∷◌, Option, none, some, if◌then◌else◌}
use qfn_pgx.Base.Bytes.{Text}

mutual
  pub data Json : Type 0 where
    null : Json
    boolean : Bool → Json
    number string : Text → Json
    array : Items → Json
    object : Fields → Json

  pub data Items : Type 0 where
    no_items : Items
    item : Json → Items → Items

  pub data Fields : Type 0 where
    no_fields : Fields
    field : String → Json → Fields → Fields

-- `b[k]` on a `map[string]any`: nil where the key is missing.
unfoldable pub get : String → Fields → Json
get k no_fields = null
get k (field j v fs) = if j == k then v else get k fs

-- `s, _ := v.(string)`
abbrev pub as_string : Json → Text
as_string (string s) = s
as_string _ = []

-- `m, _ := v.(map[string]any)`: without fields where it is not one, since both are read alike.
abbrev pub as_object : Json → Fields
as_object (object fs) = fs
as_object _ = no_fields

-- An element of a `[]map[string]any`: an object, or a null, which gives a nil map.
abbrev pub as_map : Json → Option Fields
as_map (object fs) = some fs
as_map null = some no_fields
as_map _ = none

-- A step that may fail, and what follows it.
infixl 5 ◌>>=◌
abbrev pub ◌>>=◌ {ℓ κ} : {A : Type ℓ} {B : Type κ} → Option A → (A → Option B) → Option B
none >>= f = none
some a >>= f = f a

unfoldable pub maps_of : Items → Option (List Fields)
maps_of no_items = some []
maps_of (item v vs) = do fs ← as_map v; rest ← maps_of vs; some (fs ∷ rest)

-- Decoding into a `[]map[string]any`: none where it fails.
unfoldable pub as_blocks : Json → Option (List Fields)
unfolding maps_of
as_blocks null = some []
as_blocks (array vs) = maps_of vs
as_blocks _ = none

-- Decoding into a string: none where it fails, "" from a null.
abbrev pub decode_string : Json → Option Text
decode_string (string s) = some s
decode_string null = some []
decode_string _ = none
