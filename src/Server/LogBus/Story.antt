-- ===== src/Server/LogBus/Story.antt =====
-- The status and the replay of the log bus after the pump's rounds.
use mathlib.Core.List.{append-nil, append_assoc}
use qfn_pgx.Base.{
  ℕ, ◌≡◌, refl, Bool, true, false, not, String_eq, ◌==◌, List, [], ◌∷◌, ◌++◌, map, arith, ap, ◌∙◌,
  if_elim, Option,
}
use qfn_pgx.Base.Bytes.{Text}
use qfn_pgx.Base.Ring.{pushes, pushes_from, last_n}
use qfn_pgx.Engine.Boot.{
  Phase, phase_created, phase_weights, phase_graphs, phase_ready, phase_failed, phase_string,
}
use qfn_pgx.Server.LogBus.{
  LogBus, Status, Line, Look, down, up, ring_lines, down_status, publish, publish_all, set_running,
  round_lines, round, rounds,
}

abbrev is_up : Look → Bool
is_up down = false
is_up (up now started_at lines) = true

-- The container runs exactly where the phase is another than "down".
abbrev pub IsTold : Status → Type 0
IsTold st = st.running ≡ not (st.phase == "down")

phase_not_down : (p : Phase) → (phase_string p == "down") ≡ false
unfolding phase_string
phase_not_down phase_created = refl
phase_not_down phase_weights = refl
phase_not_down phase_graphs = refl
phase_not_down phase_ready = refl
phase_not_down phase_failed = refl

publish_all-IsTold :
    (ls : List Line) (b : LogBus)
    → b.st.running ≡ true
    → IsTold b.st
    → ((publish_all ls b).st.running ≡ true) × IsTold (publish_all ls b).st
unfolding publish_all publish
publish_all-IsTold [] b r t = (r, t)
publish_all-IsTold (l ∷ ls) b r t =
    publish_all-IsTold ls (publish l b) refl (rw (phase_not_down l.phase) refl)

set_running-IsTold :
    (up' : Bool) (b : LogBus)
    → IsTold b.st
    → ((set_running up' b).st.running ≡ up') × IsTold (set_running up' b).st
unfolding set_running
set_running-IsTold true b t =
    if_elim (λ c. (c.st.running ≡ true) × IsTold c.st) (not b.st.running)
      (record b { st = record { phase = "starting"; detail = []; running = true; fail_hint = [] } })
      b (λ h. (refl, refl)) (λ h. ground (arith, h))
set_running-IsTold false b t =
    if_elim (λ c. (c.st.running ≡ false) × IsTold c.st) (not (b.st.phase == "down"))
      (record b { st = down_status }) b (λ h. (refl, refl)) (λ h. ground (arith, h))

buf-publish_all :
    (ls : List Line) (b : LogBus)
    → (publish_all ls b).buf ≡ pushes ring_lines (map (λ l. l.text) ls) b.buf
unfolding publish_all publish pushes
buf-publish_all [] b = refl
buf-publish_all (l ∷ ls) b = buf-publish_all ls (publish l b)

buf-set_running : (up' : Bool) (b : LogBus) → (set_running up' b).buf ≡ b.buf
unfolding set_running
buf-set_running up' b = ground arith

module _ (shard_progress : Text → Option Text) (strip_ansi : Text → Text) where
  round-IsTold :
      (k : Look) (b : LogBus)
      → IsTold b.st
      → ((round shard_progress strip_ansi k b).st.running ≡ is_up k)
        × IsTold (round shard_progress strip_ansi k b).st
  unfolding round
  round-IsTold down b t = set_running-IsTold false b t
  round-IsTold (up now started_at lines) b t =
      let u = set_running-IsTold true b t in
      publish_all-IsTold (round_lines shard_progress strip_ansi now started_at lines b).0 _ u.0 u.1

  -- The status follows the container: after any rounds that ended with a look at the container, the
  -- status says that it runs exactly where that look found it up, and has the phase "down"
  -- exactly where it did not.
  pub rounds_told :
      (ks : List Look) (k : Look) (b : LogBus)
      → IsTold b.st
      → let st = (rounds shard_progress strip_ansi (ks ++ k ∷ []) b).st in
        (st.running ≡ is_up k) × ((st.phase == "down") ≡ not (is_up k))
  unfolding rounds
  rounds_told [] k b t = let u = round-IsTold k b t in ground (arith, u.0, u.1)
  rounds_told (j ∷ ks) k b t =
      rounds_told ks k (round shard_progress strip_ansi j b) (round-IsTold j b t).1

  -- The lines that the rounds publish, one round after the other.
  pub published : List Look → LogBus → List Text
  published [] b = []
  published (down ∷ ks) b = published ks (round shard_progress strip_ansi down b)
  published (up now started_at lines ∷ ks) b =
      map (λ l. l.text) (round_lines shard_progress strip_ansi now started_at lines b).0
      ++ published ks (round shard_progress strip_ansi (up now started_at lines) b)

  buf_up :
      (now started_at : ℕ) (lines : List Text) (b : LogBus) (old : List Text)
      → b.buf ≡ last_n ring_lines old
      → (round shard_progress strip_ansi (up now started_at lines) b).buf
        ≡ last_n ring_lines (
            old
            ++ map (λ l. l.text) (round_lines shard_progress strip_ansi now started_at lines b).0)
  unfolding round
  buf_up now started_at lines b old e =
      let ls = (round_lines shard_progress strip_ansi now started_at lines b).0 in
      buf-publish_all ls (set_running true b)
      ∙ rw (buf-set_running true b, e) (pushes_from ring_lines (map (λ l. l.text) ls) old)

  -- What a reconnecting client is replayed: the ring holds the last 800 of all the lines that were
  -- ever published, in order, however many rounds they came from.
  pub buf-rounds :
      (ks : List Look) (b : LogBus) (old : List Text)
      → b.buf ≡ last_n ring_lines old
      → (rounds shard_progress strip_ansi ks b).buf ≡ last_n ring_lines (old ++ published ks b)
  unfolding rounds published
  buf-rounds [] b old e = rw append-nil e
  buf-rounds (down ∷ ks) b old e =
      buf-rounds ks (round shard_progress strip_ansi down b) old
        (unfold round in buf-set_running false b ∙ e)
  buf-rounds (up now started_at lines ∷ ks) b old e =
      let ts = map (λ l. l.text) (round_lines shard_progress strip_ansi now started_at lines b).0 in
      buf-rounds ks (round shard_progress strip_ansi (up now started_at lines) b) (old ++ ts)
        (buf_up now started_at lines b old e)
      ∙ ap (last_n ring_lines) (append_assoc old ts _)
