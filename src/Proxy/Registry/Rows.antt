-- ===== src/Proxy/Registry/Rows.antt =====
-- Where the rows go: none is lost or doubled, and the ring holds the last finished ones.
use qfn_pgx.Base.{
  ℕ, ◌+◌, ◌-◌, ◌≡◌, refl, Option, none, some, List, [], ◌∷◌, ◌++◌, arith, length, length-append,
  ℕ_eq, List_eq, ap, sym, subst, ◌∙◌, Option-cases, inl, inr,
}
use qfn_pgx.Base.Bytes.{Text}
use qfn_pgx.Base.Dict.{lookup, IsMap, insert-IsMap, erase-IsMap, length-insert, length-erase}
use qfn_pgx.Base.Ring.{push, last_n, push-last_n, drop-nil}
use mathlib.Core.List.{append-nil, append_assoc}
use qfn_pgx.Proxy.Registry.{
  Request, Registry, new_registry, add, update, update_row, finish, finish_row, count_live,
}

-- A call of the registry that moves rows.
pub data Op : Type 0 where
  add_op : Request → Op
  update_op finish_op : Text → (Request → Request) → Op

unfoldable pub apply : Op → Registry → Registry
apply (add_op req) rg = add req rg
apply (update_op id fn) rg = update id fn rg
apply (finish_op id fn) rg = finish id fn rg

unfoldable pub run : List Op → Registry → Registry
run [] rg = rg
run (op ∷ ops) rg = run ops (apply op rg)

abbrev finished_row : (Request → Request) → Option Request → List Request
finished_row fn none = []
finished_row fn (some r) = fn r ∷ []

-- The rows that a call finishes.
abbrev pub finishes : Op → Registry → List Request
finishes (add_op req) rg = []
finishes (update_op id fn) rg = []
finishes (finish_op id fn) rg = finished_row fn (lookup id rg.live)

-- All that have been finished, in order.
abbrev pub history : List Op → Registry → List Request
history [] rg = []
history (op ∷ ops) rg = finishes op rg ++ history ops (apply op rg)

abbrev pub adds : List Op → ℕ
adds [] = 0
adds (add_op req ∷ ops) = adds ops + 1
adds (update_op id fn ∷ ops) = adds ops
adds (finish_op id fn ∷ ops) = adds ops

-- Every row is added under an id that no live row has.
abbrev pub AddsFresh : List Op → Registry → Type 0
AddsFresh [] rg = Unit
AddsFresh (add_op req ∷ ops) rg =
    (lookup req.id rg.live ≡ none) × AddsFresh ops (apply (add_op req) rg)
AddsFresh (update_op id fn ∷ ops) rg = AddsFresh ops (apply (update_op id fn) rg)
AddsFresh (finish_op id fn ∷ ops) rg = AddsFresh ops (apply (finish_op id fn) rg)

apply-IsMap : (op : Op) (rg : Registry) → IsMap rg.live → IsMap (apply op rg).live
unfolding apply add update finish
apply-IsMap (add_op req) rg h = insert-IsMap _ _ rg.live h
apply-IsMap (update_op id fn) rg h = go (lookup id rg.live)
  where
    go : (o : Option Request) → IsMap (update_row id o fn rg).live
    go none = h
    go (some r) = insert-IsMap _ _ rg.live h
apply-IsMap (finish_op id fn) rg h = go (lookup id rg.live)
  where
    go : (o : Option Request) → IsMap (finish_row id o fn rg).live
    go none = h
    go (some r) = erase-IsMap _ rg.live h

ring_cap-apply : (op : Op) (rg : Registry) → (apply op rg).ring_cap ≡ rg.ring_cap
unfolding apply add update finish
ring_cap-apply (add_op req) rg = refl
ring_cap-apply (update_op id fn) rg = ground arith
ring_cap-apply (finish_op id fn) rg = ground arith

finished-finish :
    (id : Text) (fn : Request → Request) (rg : Registry) (old : List Request) (o : Option Request)
    → rg.finished ≡ last_n rg.ring_cap old
    → (finish_row id o fn rg).finished ≡ last_n rg.ring_cap (old ++ finished_row fn o)
unfolding finish
finished-finish id fn rg old none h = rw append-nil h
finished-finish id fn rg old (some r) h =
    ap (push rg.ring_cap (fn r)) h ∙ push-last_n rg.ring_cap (fn r) old

finished-apply :
    (op : Op) (rg : Registry) (old : List Request)
    → rg.finished ≡ last_n rg.ring_cap old
    → (apply op rg).finished ≡ last_n rg.ring_cap (old ++ finishes op rg)
unfolding apply add update finish
finished-apply (add_op req) rg old h = rw append-nil h
finished-apply (update_op id fn) rg old h = rw append-nil (ground (arith, h))
finished-apply (finish_op id fn) rg old h = finished-finish id fn rg old (lookup id rg.live) h

balance :
    (op : Op) (rg : Registry)
    → IsMap rg.live
    → AddsFresh (op ∷ []) rg
    → count_live (apply op rg) + length (finishes op rg) ≡ count_live rg + adds (op ∷ [])
unfolding apply add update finish count_live
balance (add_op req) rg h f = ground (arith, length-insert req.id req rg.live)
balance (update_op id fn) rg h f = elim (Option-cases (lookup id rg.live)) [
  | inl gone ↦ rw (gone, update_row) (omega arith)
  | inr (r, found) ↦ ground (arith, length-insert id (fn r) rg.live)
]
balance (finish_op id fn) rg h f = ground (arith, length-erase id rg.live h)

run-history :
    (ops : List Op) (rg : Registry) (old : List Request)
    → rg.finished ≡ last_n rg.ring_cap old
    → (run ops rg).finished ≡ last_n rg.ring_cap (old ++ history ops rg)
unfolding run
run-history [] rg old h = rw append-nil h
run-history (op ∷ ops) rg old h =
    let next : (apply op rg).finished ≡ last_n (apply op rg).ring_cap (old ++ finishes op rg) =
      rw ring_cap-apply (finished-apply op rg old h) in
    subst
      (λ cap.
        (run ops (apply op rg)).finished
        ≡ last_n cap (old ++ (finishes op rg ++ history ops (apply op rg))))
      (ring_cap-apply op rg)
      (rw (← append_assoc old (finishes op rg) (history ops (apply op rg)))
        (run-history ops (apply op rg) (old ++ finishes op rg) next))

-- The ring refines the whole history: after any calls on a new registry, the finished rows that are
-- kept are the last `ring_cap` of all that were finished, in the order in which they finished.
pub finished_history :
    (ring_cap : ℕ) (ops : List Op)
    → (run ops (new_registry ring_cap)).finished
      ≡ last_n ring_cap (history ops (new_registry ring_cap))
finished_history ring_cap ops =
    run-history ops (new_registry ring_cap) [] (sym (drop-nil (0 - ring_cap)))

run-balance :
    (ops : List Op) (rg : Registry)
    → IsMap rg.live
    → AddsFresh ops rg
    → count_live (run ops rg) + length (history ops rg) ≡ count_live rg + adds ops
unfolding run
run-balance [] rg h f = refl
run-balance (add_op req ∷ ops) rg h f = omega (
  arith,
  run-balance ops (apply (add_op req) rg) (apply-IsMap (add_op req) rg h) f.1,
  balance (add_op req) rg h (f.0, tt),
)
run-balance (update_op id fn ∷ ops) rg h f = omega (
  arith,
  run-balance ops (apply (update_op id fn) rg) (apply-IsMap (update_op id fn) rg h) f,
  balance (update_op id fn) rg h tt,
)
run-balance (finish_op id fn ∷ ops) rg h f = omega (
  arith,
  run-balance ops (apply (finish_op id fn) rg) (apply-IsMap (finish_op id fn) rg h) f,
  length-append {0} (finishes (finish_op id fn) rg) (history ops (apply (finish_op id fn) rg)),
  balance (finish_op id fn) rg h tt,
)

-- No row is lost or doubled: after any calls on a new registry, in which rows are added under ids that
-- no live row has, the rows that were added are as many as the live ones and all that were finished.
pub rows_conserved :
    (ring_cap : ℕ) (ops : List Op)
    → AddsFresh ops (new_registry ring_cap)
    → count_live (run ops (new_registry ring_cap)) + length (history ops (new_registry ring_cap))
      ≡ adds ops
unfolding count_live
rows_conserved ring_cap ops f = omega (arith, run-balance ops (new_registry ring_cap) tt f)
