-- ===== src/Engine/Manager/Lock.antt =====
-- The lock by itself: who holds it, and until when.
use qfn_pgx.Base.{
  ℕ, ◌≡◌, ◌≢◌, true, false, Option, none, some, String, ℕ_eq, List, [], ◌∷◌, arith, is_some,
}
use qfn_pgx.Engine.Manager.{OpInfo, Manager, try_begin, finish}

-- Calls of other goroutines, which hold another operation or none.
pub data Call : Type 0 where
  begin_call : ℕ → String → String → Call
  finish_call : ℕ → OpInfo → Option String → Call

unfoldable pub call : Call → Manager → Manager
call (begin_call now kind actor) m = (try_begin now kind actor m).0
call (finish_call now op error) m = finish now op error m

unfoldable pub calls : List Call → Manager → Manager
calls [] m = m
calls (c ∷ cs) m = calls cs (call c m)

-- None of the calls finishes the operation with this number.
abbrev pub LeavesOpen : ℕ → List Call → Type 0
LeavesOpen n [] = Unit
LeavesOpen n (begin_call now kind actor ∷ cs) = LeavesOpen n cs
LeavesOpen n (finish_call now op error ∷ cs) = (op.seq ≢ n) × LeavesOpen n cs

held :
    (op : OpInfo) (cs : List Call) (m : Manager)
    → m.busy ≡ some op
    → op.done ≡ false
    → LeavesOpen op.seq cs
    → (calls cs m).busy ≡ some op
unfolding calls call try_begin finish
held op [] m b d l = b
held op (begin_call now kind actor ∷ cs) m b d l =
    held op cs (call (begin_call now kind actor) m) (ground arith) d l
held op (finish_call now o error ∷ cs) m b d l =
    held op cs (call (finish_call now o error) m) (ground (arith, l.0)) d l.1

-- The lock is exclusive: once `TryBegin` has given an operation, then whatever other goroutines begin
-- or finish, as long as nobody finishes that operation, it stays the current one and every
-- `TryBegin` is refused; and after its `Finish`, at any time and with any result, `TryBegin`
-- succeeds with the next number.
pub exclusive :
    (m m' : Manager) (op : OpInfo) (cs : List Call) (now ended later : ℕ)
    (kind actor kind' actor' : String) (error : Option String)
    → try_begin now kind actor m ≡ (m', some op)
    → LeavesOpen op.seq cs
    → ((calls cs m').busy ≡ some op)
      × ((try_begin later kind' actor' (calls cs m')).1 ≡ none)
      × (is_some (try_begin later kind' actor' (finish ended op error (calls cs m'))).1 ≡ true)
unfolding try_begin finish
exclusive m m' op cs now ended later kind actor kind' actor' error h l =
    let b : m'.busy ≡ some op = ground arith in
    let d : op.done ≡ false = ground arith in
    let k = held op cs m' b d l in (k, ground arith, ground arith)
