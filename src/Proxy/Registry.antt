-- ===== src/Proxy/Registry.antt =====
-- internal/proxy/registry.go: the rows of the live requests and the ring of finished ones.
-- The phase strings are the constructors of `Phase`, an id is its characters, a subscriber's channel
-- of capacity one is the Boolean that says whether a signal waits in it.
pub mod Ids
pub mod Rows
mod Tests
use qfn_pgx.Base.{
  ℕ, zero, suc, ◌+◌, ◌*◌, ◌/◌, ◌%◌, Bool, true, false, Option, none, some, String, List, [], ◌∷◌,
  ◌++◌, map, length, ℕ_eq, List_eq, ◌==◌, ltb, if◌then◌else◌,
}
use mathlib.Core.List.{reverse}
use qfn_pgx.Base.Bytes.{Text}
use qfn_pgx.Base.Dict.{Dict, lookup, insert, erase}
use qfn_pgx.Base.Ring.{push}

pub data Phase : Type 0 where
  prefill decoding done error aborted : Phase

pub record Request : Type 0 where
  pub id : Text
  pub endpoint : String
  pub model : String
  pub client : String
  pub started_at : ℕ
  pub first_token_at : Option ℕ
  pub done_at : Option ℕ
  pub phase : Phase
  pub stream : Bool
  pub tokens : ℕ
  pub prompt_tokens : ℕ
  pub status : ℕ
  pub is_aborted : Bool

pub record Registry : Type 0 where
  pub live : Dict Text Request
  pub finished : List Request
  pub ring_cap : ℕ
  pub seq : ℕ
  pub subs : List Bool

abbrev pub new_registry : ℕ → Registry
new_registry ring_cap = record { live = []; finished = []; ring_cap = ring_cap; seq = 0; subs = [] }

-- The loop of `itoa`, on the room that is left in its buffer of 20 bytes.
unfoldable pub itoa_loop : ℕ → ℕ → Text → Text
itoa_loop zero v digits = digits
itoa_loop (suc room) v digits =
    let rest = itoa_loop room (v / 10) ((b'0' + v % 10) ∷ digits) in if v == 0 then digits else rest

unfoldable pub itoa : ℕ → Text
itoa v = if v == 0 then b'0' ∷ [] else itoa_loop 20 v []

unfoldable pub next_id : Registry → Registry × Text
next_id rg = let n = rg.seq + 1 in (record rg { seq = n }, b'r' ∷ itoa n)

-- `select { case ch <- struct{}{}: default: }` on every channel.
unfoldable pub notify : Registry → Registry
notify rg = record rg { subs = map (λ waiting. true) rg.subs }

unfoldable pub add : Request → Registry → Registry
unfolding notify
add req rg = notify (record rg { live = insert req.id req rg.live })

update_row : Text → Option Request → (Request → Request) → Registry → Registry
update_row id none fn rg = rg
update_row id (some r) fn rg = record rg { live = insert id (fn r) rg.live }

unfoldable pub update : Text → (Request → Request) → Registry → Registry
unfolding notify update_row
update id fn rg = notify (update_row id (lookup id rg.live) fn rg)

finish_row : Text → Option Request → (Request → Request) → Registry → Registry
finish_row id none fn rg = rg
finish_row id (some r) fn rg = record rg {
  live = erase id rg.live;
  finished = push rg.ring_cap (fn r) rg.finished;
}

unfoldable pub finish : Text → (Request → Request) → Registry → Registry
unfolding notify finish_row
finish id fn rg = notify (finish_row id (lookup id rg.live) fn rg)

abbrev rows_of : Dict Text Request → List Request
rows_of [] = []
rows_of ((k, r) ∷ m) = r ∷ rows_of m

unfoldable pub snapshot : Registry → List Request
snapshot rg = rows_of rg.live ++ reverse rg.finished

unfoldable pub count_live : Registry → ℕ
count_live rg = length rg.live

unfoldable pub subscribe : Registry → Registry
subscribe rg = record rg { subs = rg.subs ++ false ∷ [] }
