-- ===== src/Proxy/Registry/Tests.antt =====
-- The registry on a few calls.
use qfn_pgx.Base.{ℕ, ◌+◌, ◌≡◌, refl, true, false, none, List, [], ◌∷◌, length}
use qfn_pgx.Base.Dict.{lookup, insert}
use qfn_pgx.Base.Bytes.{Text, codes}
use qfn_pgx.Base.Ring.{last_n}
use qfn_pgx.Proxy.Registry.{Request, prefill, done, Registry, new_registry, count_live, add, notify}
use qfn_pgx.Proxy.Registry.Rows.{
  Op, add_op, finish_op, apply, run, history, adds, finished_history, rows_conserved,
}

abbrev row : Text → Request
row id = record {
  id = id;
  endpoint = "/v1/messages";
  model = "qwen";
  client = "laptop";
  started_at = 5;
  first_token_at = none;
  done_at = none;
  phase = prefill;
  stream = true;
  tokens = 0;
  prompt_tokens = 3;
  status = 0;
  is_aborted = false;
}

abbrev close : Request → Request
close r = record r { phase = done; status = 200 }

abbrev calls : List Op
calls =
    add_op (row (codes "r1"))
    ∷ add_op (row (codes "r2"))
    ∷ finish_op (codes "r1") close
    ∷ finish_op (codes "r9") close
    ∷ []

finished_history_example :
    (run calls (new_registry 1)).finished ≡ last_n 1 (history calls (new_registry 1))
finished_history_example = finished_history 1 calls

rows_conserved_example :
    count_live (run calls (new_registry 2)) + length (history calls (new_registry 2)) ≡ adds calls
unfolding apply add notify lookup insert
rows_conserved_example = rows_conserved 2 calls (refl, (refl, tt))

abbrev counted : ℕ → Registry
counted n = record (new_registry 4) { seq = n }
