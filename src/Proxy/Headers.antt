-- ===== src/Proxy/Headers.antt =====
-- The headers that the front door forwards and copies (internal/proxy/proxy.go). A `http.Header` is a map
-- from a name to its values; its names are in canonical form, so that `Add` and `Set` use them as they are.
use qfn_pgx.Base.{
  Bool, true, ◌||◌, Option, none, some, String, String_eq, ℕ_eq, List_eq, ◌==◌, List, [], ◌∷◌, ◌++◌,
  if◌then◌else◌, ◌≡◌, arith, subst,
}
use mathlib.Core.List.{append-nil, append_assoc}
use qfn_pgx.Base.Bytes.{codes, to_lower}
use qfn_pgx.Base.Dict.{Dict, lookup, insert, lookup-insert, IsMap, Lacks, lookup_of_Lacks}

abbrev pub Headers : Type 0
Headers = Dict String (List String)

-- `strings.EqualFold` on names of headers, which are ASCII.
unfoldable pub equal_fold : String → String → Bool
unfolding to_lower
equal_fold a b = to_lower (codes a) == to_lower (codes b)

abbrev pub or_nothing : Option (List String) → List String
or_nothing none = []
or_nothing (some vs) = vs

abbrev pub first_value : Option (List String) → String
first_value (some (v ∷ vs)) = v
first_value _ = ""

-- `Get`
abbrev pub header : String → Headers → String
header k h = first_value (lookup k h)

-- `Add`
unfoldable pub add_value : String → String → Headers → Headers
add_value k v h = insert k (or_nothing (lookup k h) ++ v ∷ []) h

unfoldable pub add_values : String → List String → Headers → Headers
unfolding add_value
add_values k [] h = h
add_values k (v ∷ vs) h = add_values k vs (add_value k v h)

-- The loop of both: every name that is not dropped, value by value.
unfoldable pub copy_unless : (String → Bool) → Headers → Headers → Headers
unfolding add_values
copy_unless drops [] dst = dst
copy_unless drops ((k, vs) ∷ src) dst =
    copy_unless drops src (if drops k then dst else add_values k vs dst)

-- What is not forwarded to the engine.
unfoldable pub not_forwarded : String → Bool
unfolding equal_fold
not_forwarded k = equal_fold k "Connection" || equal_fold k "Content-Length"

-- What is not copied to the client.
unfoldable pub not_copied : String → Bool
unfolding equal_fold
not_copied k = equal_fold k "Transfer-Encoding" || equal_fold k "Content-Length"

-- `copyHeaders`, with its two maps in the order of the code.
unfoldable pub copy_headers : Headers → Headers → Headers
unfolding copy_unless not_copied
copy_headers dst src = copy_unless not_copied src dst

lookup-add_values :
    (j k : String) (vs : List String) (h : Headers)
    → or_nothing (lookup k (add_values j vs h))
      ≡ (if j == k then or_nothing (lookup k h) ++ vs else or_nothing (lookup k h))
unfolding add_values add_value
lookup-add_values j k [] h = ground (arith, append-nil (or_nothing (lookup k h)))
lookup-add_values j k (v ∷ vs) h = ground (
  arith,
  lookup-add_values j k vs (add_value j v h),
  lookup-insert j k (or_nothing (lookup j h) ++ v ∷ []) h,
  append_assoc (or_nothing (lookup k h)) (v ∷ []) vs,
  String_eq.same_iff j k,
)

-- Headers are passed on exactly: a name that is not dropped has after the loop the values that it had in
-- the destination and then those of the source, in order, and one that is dropped keeps those that
-- it had.
pub lookup-copy_unless :
    (drops : String → Bool) (src dst : Headers) (k : String)
    → IsMap src
    → or_nothing (lookup k (copy_unless drops src dst))
      ≡ or_nothing (lookup k dst) ++ (if drops k then [] else or_nothing (lookup k src))
unfolding copy_unless lookup
lookup-copy_unless drops [] dst k h = ground (arith, append-nil (or_nothing (lookup k dst)))
lookup-copy_unless drops ((j, vs) ∷ src) dst k h =
    let next = lookup-copy_unless drops src (if drops j then dst else add_values j vs dst) k h.1 in
    let gone : (j == k) ≡ true → lookup k src ≡ none =
      λ p. lookup_of_Lacks k src (subst (λ i. Lacks i src) ((String_eq.same_iff j k).0 p) h.0) in
    ground (
      arith,
      next,
      gone,
      lookup-add_values j k vs dst,
      String_eq.same_iff j k,
      append-nil (or_nothing (lookup k dst)),
      append-nil (or_nothing (lookup k dst) ++ vs),
    )
