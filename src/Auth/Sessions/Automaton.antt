-- ===== src/Auth/Sessions/Automaton.antt =====
-- The table against one small automaton for each session: whatever the operations on all the
-- tokens, the entry of one token goes as if it were alone.
use qfn_pgx.Base.{
  ℕ, ◌+◌, ◌≡◌, refl, Bool, false, Option, none, some, String, String_eq, ◌==◌, List, [], ◌∷◌, arith,
  leb, if◌then◌else◌, eq_iff, Bool-cases, inl, inr, if_elim,
}
use qfn_pgx.Base.Dict.{
  lookup, keep_if, IsMap, lookup-insert, lookup-erase, lookup-sweep, insert-IsMap, erase-IsMap,
  sweep-IsMap,
}
use qfn_pgx.Auth.Sessions.{
  Sessions, is_live, prune_locked, len, create, validate_entry, validate, revoke,
}

abbrev TableIsMap : Sessions × Bool → Type 0
TableIsMap r = IsMap r.0.table

-- One call of the table, with the clock that it reads.
pub data Op : Type 0 where
  create_op : ℕ → Option String → Op
  validate_op : ℕ → String → Op
  revoke_op : String → Op
  len_op : ℕ → Op

module _ (hash_token : String → String) where
  unfoldable pub apply : Op → Sessions → Sessions
  unfolding create validate revoke len
  apply (create_op now tok) s = (create hash_token now tok s).0
  apply (validate_op now tok) s = (validate hash_token now tok s).0
  apply (revoke_op tok) s = revoke hash_token tok s
  apply (len_op now) s = (len now s).0

  unfoldable pub run : List Op → Sessions → Sessions
  run [] s = s
  run (op ∷ ops) s = run ops (apply op s)

  -- The session of one key by itself: its idle expiry, if it is there.
  abbrev pub slide : ℕ → ℕ → Option ℕ → Option ℕ
  slide idle now none = none
  slide idle now (some exp) = if leb exp now then none else some (now + idle)

  unfoldable pub session_step : ℕ → String → Op → Option ℕ → Option ℕ
  session_step idle key (create_op now none) o = o
  session_step idle key (create_op now (some tok)) o =
      if hash_token tok == key then some (now + idle) else keep_if (is_live now) o
  session_step idle key (validate_op now tok) o =
      if tok == "" then o else if hash_token tok == key then slide idle now o else o
  session_step idle key (revoke_op tok) o = if hash_token tok == key then none else o
  session_step idle key (len_op now) o = keep_if (is_live now) o

  unfoldable pub session_run : ℕ → String → List Op → Option ℕ → Option ℕ
  session_run idle key [] o = o
  session_run idle key (op ∷ ops) o = session_run idle key ops (session_step idle key op o)

  validate_entry-IsMap :
      (now : ℕ) (key : String) (o : Option ℕ) (s : Sessions)
      → IsMap s.table
      → IsMap (validate_entry hash_token now key o s).0.table
  validate_entry-IsMap now key none s h = h
  validate_entry-IsMap now key (some exp) s h = elim (Bool-cases (leb exp now)) [
    | inl p ↦ rw p (erase-IsMap key s.table h)
    | inr p ↦ rw p (insert-IsMap key _ s.table h)
  ]

  lookup-validate_entry :
      (now : ℕ) (k key : String) (o : Option ℕ) (s : Sessions)
      → lookup k s.table ≡ o
      → lookup key (validate_entry hash_token now k o s).0.table
        ≡ (if k == key then slide s.idle now o else lookup key s.table)
  lookup-validate_entry now k key none s e = ground (arith, eq_iff k key)
  lookup-validate_entry now k key (some exp) s e =
      ground (
        arith,
        eq_iff k key,
        lookup-erase k key s.table,
        lookup-insert k key (now + s.idle) s.table,
      )

  pub apply-IsMap : (op : Op) (s : Sessions) → IsMap s.table → IsMap (apply op s).table
  unfolding apply create validate revoke len prune_locked
  apply-IsMap (create_op now none) s h = h
  apply-IsMap (create_op now (some tok)) s h = insert-IsMap _ _ _ (sweep-IsMap _ s.table h)
  apply-IsMap (validate_op now tok) s h =
      if_elim TableIsMap (tok == "") (s, false) _ (λ p. h)
        (λ p. validate_entry-IsMap now (hash_token tok) _ s h)
  apply-IsMap (revoke_op tok) s h = erase-IsMap _ s.table h
  apply-IsMap (len_op now) s h = sweep-IsMap _ s.table h

  pub idle-apply : (op : Op) (s : Sessions) → (apply op s).idle ≡ s.idle
  unfolding apply create validate revoke len prune_locked
  idle-apply (create_op now none) s = refl
  idle-apply (create_op now (some tok)) s = refl
  idle-apply (validate_op now tok) s = ground arith
  idle-apply (revoke_op tok) s = refl
  idle-apply (len_op now) s = refl

  lookup-apply :
      (op : Op) (s : Sessions) (key : String)
      → IsMap s.table
      → lookup key (apply op s).table ≡ session_step s.idle key op (lookup key s.table)
  unfolding apply create validate revoke len prune_locked session_step
  lookup-apply (create_op now none) s key h = refl
  lookup-apply (create_op now (some tok)) s key h = rw (lookup-insert, lookup-sweep _ key s.table h)
  lookup-apply (validate_op now tok) s key h =
      let entry = lookup (hash_token tok) s.table in
      ground (
        arith,
        lookup-validate_entry now (hash_token tok) key entry s refl,
        eq_iff (hash_token tok) key,
      )
  lookup-apply (revoke_op tok) s key h = lookup-erase _ key s.table
  lookup-apply (len_op now) s key h = lookup-sweep _ key s.table h

  -- The table refines the sessions taken one by one: after any calls, in any order and at any
  -- times, the entry of a key is what its own automaton reaches from the entry that it had. The
  -- table has one entry for a key at the start.
  pub run-session_run :
      (ops : List Op) (s : Sessions) (key : String)
      → IsMap s.table
      → lookup key (run ops s).table ≡ session_run s.idle key ops (lookup key s.table)
  unfolding run session_run
  run-session_run [] s key h = refl
  run-session_run (op ∷ ops) s key h = rw (
    run-session_run ops (apply op s) key (apply-IsMap op s h),
    idle-apply,
    lookup-apply op s key h,
  )

  pub run-IsMap : (ops : List Op) (s : Sessions) → IsMap s.table → IsMap (run ops s).table
  unfolding run
  run-IsMap [] s h = h
  run-IsMap (op ∷ ops) s h = run-IsMap ops (apply op s) (apply-IsMap op s h)

  pub idle-run : (ops : List Op) (s : Sessions) → (run ops s).idle ≡ s.idle
  unfolding run
  idle-run [] s = refl
  idle-run (op ∷ ops) s = rw (idle-run ops (apply op s)) (idle-apply op s)
