-- ===== src/Cli/Launch/Environment.antt =====
-- What a started agent finds in its environment.
use mathlib.Core.List.{map, append-nil}
use qfn_pgx.Base.{
  ◌≡◌, refl, arith, ap, subst, ◌∙◌, Bool, true, false, not, ◌&&◌, ◌||◌, is_some, List_eq, ℕ_eq,
  ◌==◌, List, [], ◌∷◌, ◌++◌, any, all, if◌then◌else◌, Bool-cases, inl, inr,
}
use qfn_pgx.Base.Dict.{Dict, lookup, Lacks, IsMap, lookup_of_Lacks}
use qfn_pgx.Base.Bytes.{Text, cut_first}
use qfn_pgx.Engine.Snapshot.{sort, put, leq}
use qfn_pgx.Cli.Launch.{
  LaunchPlan, name_of, is_dropped, undropped, keys, sorted_keys, text_or, entry, child_env,
}

-- The entries of an environment under a name.
unfoldable pub entries : Text → List Text → List Text
unfolding name_of
entries name [] = []
entries name (kv ∷ env) =
    let rest = entries name env in if name_of kv == name then kv ∷ rest else rest

entries-append :
    (name : Text) (a b : List Text) → entries name (a ++ b) ≡ entries name a ++ entries name b
unfolding entries
entries-append name [] b = refl
entries-append name (kv ∷ a) b = elim (Bool-cases (name_of kv == name)) [
  | inl p ↦ rw (p, entries-append name a b) refl
  | inr p ↦ rw (p, entries-append name a b) refl
]

entries-undropped :
    (pl : LaunchPlan) (name : Text) (base : List Text)
    → entries name (undropped pl base) ≡ (if is_dropped pl name then [] else entries name base)
unfolding entries undropped
entries-undropped pl name [] = elim (Bool-cases (is_dropped pl name)) [
  | inl p ↦ rw p refl
  | inr p ↦ rw p refl
]
entries-undropped pl name (kv ∷ base) = elim (Bool-cases (name_of kv == name)) [
  | inl p ↦ ground (
    arith,
    entries-undropped pl name base,
    ap (is_dropped pl) ((List_eq.same_iff (name_of kv) name).0 p),
  )
  | inr p ↦ ground (arith, entries-undropped pl name base)
]

-- A name of the environment has no '='.
abbrev pub is_name : Text → Bool
is_name name = all (λ c. not (c == b'=')) name

name_of-entry : (m : Dict Text Text) (k : Text) → is_name k ≡ true → name_of (entry m k) ≡ k
unfolding name_of entry
name_of-entry m k h = rw (cut_first b'=' k (text_or (lookup k m)) h) refl

and_both : (a b : Bool) → (a && b) ≡ true → (a ≡ true) × (b ≡ true)
and_both true b h = (refl, h)
and_both false b h = cc

-- As many copies as the list has the name.
copies : {A : Type 0} → Text → A → List Text → List A
copies name e [] = []
copies name e (k ∷ ks) = let rest = copies name e ks in if k == name then e ∷ rest else rest

entries-map :
    (m : Dict Text Text) (name : Text) (ks : List Text)
    → all is_name ks ≡ true
    → entries name (map (entry m) ks) ≡ copies name (entry m name) ks
unfolding entries copies
entries-map m name [] h = refl
entries-map m name (k ∷ ks) h =
    let its : name_of (entry m k) ≡ k = name_of-entry m k (ground (arith, h)) in
    let rest = entries-map m name ks (ground (arith, h)) in
    elim (Bool-cases (k == name)) [
      | inl p ↦ rw (its, p, rest, (List_eq.same_iff k name).0 p) refl
      | inr p ↦ rw (its, p, rest) refl
    ]

copies-put :
    {A : Type 0} (name : Text) (e : A) (k : Text) (ks : List Text)
    → copies name e (put k ks) ≡ copies name e (k ∷ ks)
unfolding copies put
copies-put name e k [] = refl
copies-put name e k (j ∷ ks) = ground (arith, copies-put name e k ks)

copies-sort :
    {A : Type 0} (name : Text) (e : A) (ks : List Text) → copies name e (sort ks) ≡ copies name e ks
unfolding sort copies
copies-sort name e [] = refl
copies-sort name e (k ∷ ks) = ground (arith, copies-put name e k (sort ks), copies-sort name e ks)

-- The names that are set are names.
unfoldable pub all_names : Dict Text Text → Bool
unfolding keys
all_names m = all is_name (keys m)

copies-keys :
    {A : Type 0} (name : Text) (e : A) (m : Dict Text Text)
    → IsMap m
    → copies name e (keys m) ≡ (if is_some (lookup name m) then e ∷ [] else [])
unfolding copies keys lookup
copies-keys name e [] h = refl
copies-keys name e ((k, v) ∷ m) h =
    let same : (k == name) ≡ true → k ≡ name = (List_eq.same_iff k name).0 in
    let rest = copies-keys name e m h.1 in
    elim (Bool-cases (k == name)) [
      | inl p ↦
          let gone = lookup_of_Lacks name m (subst (λ j. Lacks j m) (same p) h.0) in
          rw (p, rest, gone) refl
      | inr p ↦ rw (p, rest) refl
    ]

all_names-put :
    (k : Text) (ks : List Text)
    → is_name k ≡ true
    → all is_name ks ≡ true
    → all is_name (put k ks) ≡ true
unfolding put
all_names-put k [] h hs = ground (arith, h)
all_names-put k (j ∷ ks) h hs = elim (Bool-cases (leq k j)) [
  | inl p ↦ rw (p, h) hs
  | inr p ↦
      let (hj, rest) = and_both (is_name j) (all is_name ks) hs in
      rw (p, hj) (all_names-put k ks h rest)
]

all_names-sort : (ks : List Text) → all is_name ks ≡ true → all is_name (sort ks) ≡ true
unfolding sort
all_names-sort [] h = h
all_names-sort (k ∷ ks) h =
    let (hk, rest) = and_both (is_name k) (all is_name ks) h in
    all_names-put k (sort ks) hk (all_names-sort ks rest)

either_part :
    {A : Type 0} (cleared set : Bool) (old new : List A)
    → (if cleared || set then [] else old) ++ (if set then new else [])
      ≡ (if set then new else if cleared then [] else old)
either_part true true old new = refl
either_part true false old new = refl
either_part false true old new = refl
either_part false false old new = append-nil old

-- What a plan makes of the entries under a name.
unfoldable pub planned_entries : LaunchPlan → Text → List Text → List Text
unfolding entries entry lookup
planned_entries pl name base =
    if is_some (lookup name pl.env_set)
    then entry pl.env_set name ∷ []
    else if any (λ k. k == name) pl.env_clear
    then []
    else entries name base

-- The environment of the agent has one entry for a name that the plan sets, with the plan's value, none for a
-- name that it only clears, and the same entries as before for any other name; whatever the environment was.
pub entries-child_env :
    (pl : LaunchPlan) (name : Text) (base : List Text)
    → IsMap pl.env_set
    → all_names pl.env_set ≡ true
    → entries name (child_env pl base) ≡ planned_entries pl name base
unfolding child_env sorted_keys is_dropped all_names planned_entries
entries-child_env pl name base m n =
    let sorted = sort (keys pl.env_set) in
    let e = entry pl.env_set name in
    let set =
      entries-map pl.env_set name sorted (all_names-sort (keys pl.env_set) n)
      ∙ copies-sort name e (keys pl.env_set)
      ∙ copies-keys name e pl.env_set m in
    entries-append name (undropped pl base) (map (entry pl.env_set) sorted)
    ∙ (λ i. entries-undropped pl name base i ++ set i)
    ∙ either_part (any (λ k. k == name) pl.env_clear) (is_some (lookup name pl.env_set))
        (entries name base) (e ∷ [])
