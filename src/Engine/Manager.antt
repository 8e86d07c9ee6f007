-- ===== src/Engine/Manager.antt =====
-- internal/engine/manager.go: the lock that serialises the engine operations, with the events that
-- it broadcasts. A method runs under its mutex, so it is one step; the clock is an argument.
pub mod Lock
mod Tests
use qfn_pgx.Base.{
  ℕ, ◌+◌, Bool, true, false, not, Option, none, some, String, ℕ_eq, ◌==◌, List, [], ◌∷◌, ◌++◌, map,
  length, ltb, if◌then◌else◌,
}

pub record OpInfo : Type 0 where
  pub seq : ℕ
  pub kind : String
  pub actor : String
  pub started : ℕ
  pub done_at : ℕ
  pub error : Option String
  pub done : Bool

pub data EventKind : Type 0 where
  start finish_event : EventKind

pub record Event : Type 0 where
  pub op : OpInfo
  pub event_kind : EventKind

-- `subs` is what waits in each subscriber's channel.
pub record Manager : Type 0 where
  pub busy : Option OpInfo
  pub op_seq : ℕ
  pub subs : List (List Event)

abbrev pub new_manager : Manager
new_manager = record { busy = none; op_seq = 0; subs = [] }

abbrev pub channel_cap : ℕ
channel_cap = 16

-- A send that drops the event where the channel is full.
abbrev pub offer : Event → List Event → List Event
offer ev waiting = if ltb (length waiting) channel_cap then waiting ++ ev ∷ [] else waiting

unfoldable pub publish : Event → Manager → Manager
publish ev m = record m { subs = map (offer ev) m.subs }

unfoldable pub subscribe : Manager → Manager
subscribe m = record m { subs = m.subs ++ [] ∷ [] }

abbrev pub is_busy : Option OpInfo → Bool
is_busy none = false
is_busy (some op) = not op.done

-- `none` is `ErrBusy`.
unfoldable pub try_begin : ℕ → String → String → Manager → Manager × Option OpInfo
unfolding publish
try_begin now kind actor m =
    if is_busy m.busy
    then (m, none)
    else (let op : OpInfo = record {
      seq = m.op_seq + 1;
      kind = kind;
      actor = actor;
      started = now;
      done_at = 0;
      error = none;
      done = false;
    } in
        (
          publish (record { op = op; event_kind = start })
              (record m { busy = some op; op_seq = m.op_seq + 1 }),
          some op,
        ))

abbrev pub owns : OpInfo → Option OpInfo → Bool
owns op none = false
owns op (some b) = b.seq == op.seq

-- `if err != nil { op.Err = err.Error() }`
abbrev pub err_or : Option String → Option String → Option String
err_or none old = old
err_or (some e) old = some e

unfoldable pub finish : ℕ → OpInfo → Option String → Manager → Manager
unfolding publish
finish now op error m =
    if owns op m.busy
    then (let closed : OpInfo = record op {
      done_at = now;
      done = true;
      error = err_or error op.error;
    } in
        publish (record { op = closed; event_kind = finish_event })
          (record m { busy = some closed }))
    else publish (record { op = op; event_kind = finish_event }) m

unfoldable pub last_op : Manager → Option OpInfo
last_op m = m.busy
