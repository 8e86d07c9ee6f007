-- ===== src/Collector/Sampler/Broadcast.antt =====
-- What a subscriber reads from its channel, against the snapshots that were made.
use mathlib.Core.List.{append_assoc}
use qfn_pgx.Base.{
  ℕ, ◌≤◌, ◌≡◌, refl, arith, ap, sym, ◌∙◌, ltb, false, Option, none, some, ℕ_eq, ◌==◌, List, [], ◌∷◌,
  ◌++◌, length, length-append, beq_refl, if◌then◌else◌, Bool-cases, inl, inr,
}
use qfn_pgx.Base.Dict.{Dict, lookup, insert, lookup-insert, lookup-erase}
use qfn_pgx.Collector.Metrics.{Floats}
use qfn_pgx.Collector.Sampler.{
  Collector, Snapshot, Settings, Io, sample_once, tick, subscribe, unsubscribe, broadcast, offer,
  channel_cap,
}

-- The first list is the second with some of its entries left out, the rest in order.
pub data Misses {ℓ} {A : Type ℓ} : List A → List A → Type ℓ where
  done : Misses [] []
  kept : {xs ys : List A} (a : A) → Misses xs ys → Misses (a ∷ xs) (a ∷ ys)
  missed : {xs ys : List A} (a : A) → Misses xs ys → Misses xs (a ∷ ys)

module _ {ℓ} {A : Type ℓ} where
  Misses-keep : {xs ys : List A} (a : A) → Misses xs ys → Misses (xs ++ a ∷ []) (ys ++ a ∷ [])
  Misses-keep a done = kept a done
  Misses-keep a (kept b m) = kept b (Misses-keep a m)
  Misses-keep a (missed b m) = missed b (Misses-keep a m)

  Misses-miss : {xs ys : List A} (a : A) → Misses xs ys → Misses xs (ys ++ a ∷ [])
  Misses-miss a done = missed a done
  Misses-miss a (kept b m) = kept b (Misses-miss a m)
  Misses-miss a (missed b m) = missed b (Misses-miss a m)

  abbrev offered : A → Option (List A) → Option (List A)
  offered snap none = none
  offered snap (some buffered) = some (offer snap buffered)

  lookup-broadcast :
      (ch : ℕ) (snap : A) (subs : Dict ℕ (List A))
      → lookup ch (broadcast snap subs) ≡ offered snap (lookup ch subs)
  unfolding lookup broadcast
  lookup-broadcast ch snap [] = refl
  lookup-broadcast ch snap ((j, b) ∷ subs) = elim (Bool-cases (j == ch)) [
    | inl p ↦ rw p refl
    | inr p ↦ rw p (lookup-broadcast ch snap subs)
  ]

-- A tick, or what a client does: it subscribes with a new channel, ends its subscription, or reads.
pub data Event (F : Type 0) : Type 0 where
  ticked : Io F → Event F
  subscribed unsubscribed reads : ℕ → Event F

-- A collector, with what was read from one channel, and the snapshots that were made.
pub record Watched (F : Type 0) : Type 0 where
  pub collector : Collector F
  pub taken : List (Snapshot F)
  pub made : List (Snapshot F)

module _ {F : Type 0} (fl : Floats F) (cfg : Settings) (ch : ℕ) where
  abbrev read_from : ℕ → Option (List (Snapshot F)) → Watched F → Watched F
  read_from j none w = w
  read_from j (some []) w = w
  read_from j (some (snap ∷ rest)) w = record w {
    collector = record w.collector { subs = insert j rest w.collector.subs };
    taken = if j == ch then w.taken ++ snap ∷ [] else w.taken;
  }

  unfoldable pub watch : Event F → Watched F → Watched F
  unfolding tick subscribe unsubscribe
  watch (ticked io) w = record w {
    collector = tick fl cfg io w.collector;
    made = w.made ++ (sample_once fl cfg io w.collector).0 ∷ [];
  }
  watch (subscribed j) w = record w { collector = subscribe fl j w.collector }
  watch (unsubscribed j) w = record w { collector = unsubscribe fl j w.collector }
  watch (reads j) w = read_from j (lookup j w.collector.subs) w

  unfoldable pub watch_all : List (Event F) → Watched F → Watched F
  unfolding watch
  watch_all [] w = w
  watch_all (e ∷ es) w = watch_all es (watch e w)

  -- The channel is neither subscribed again nor given up.
  abbrev Apart : Event F → Type 0
  Apart (subscribed j) = (j == ch) ≡ false
  Apart (unsubscribed j) = (j == ch) ≡ false
  Apart _ = Unit

  abbrev pub AllApart : List (Event F) → Type 0
  AllApart [] = Unit
  AllApart (e ∷ es) = Apart e × AllApart es

  -- The channel holds at most four snapshots; with what was read they are the snapshots that were made, in
  -- order, less some.
  abbrev pub InOrder : Watched F → Type 0
  InOrder w =
      (buffered : List (Snapshot F)) × (lookup ch w.collector.subs ≡ some buffered)
      × (length buffered ≤ channel_cap)
      × Misses (w.taken ++ buffered) w.made

  offer_in_order :
      (taken made buffered : List (Snapshot F)) (snap : Snapshot F)
      → length buffered ≤ channel_cap
      → Misses (taken ++ buffered) made
      → (length (offer snap buffered) ≤ channel_cap)
        × Misses (taken ++ offer snap buffered) (made ++ snap ∷ [])
  offer_in_order taken made buffered snap n m =
      elim (Bool-cases (ltb (length buffered) channel_cap)) [
        | inl p ↦ rw p (
          ground (arith, length-append buffered (snap ∷ [])),
          rw (← append_assoc taken buffered (snap ∷ [])) (Misses-keep snap m),
        )
        | inr p ↦ rw p (n, Misses-miss snap m)
      ]

  read_from-InOrder :
      (j : ℕ) (o : Option (List (Snapshot F))) (w : Watched F)
      → lookup j w.collector.subs ≡ o
      → InOrder w
      → InOrder (read_from j o w)
  read_from-InOrder j none w p h = h
  read_from-InOrder j (some []) w p h = h
  read_from-InOrder j (some (snap ∷ rest)) w p (buffered, here, n, m) =
      elim (Bool-cases (j == ch)) [
        | inl q ↦
            let mine : buffered ≡ snap ∷ rest = ground (arith, p, here, q) in
            rw q (
              rest,
              lookup-insert j ch rest w.collector.subs ∙ rw q refl,
              ground (arith, n, ap length mine),
              rw append_assoc (rw mine at m),
            )
        | inr q ↦ rw q (buffered, lookup-insert j ch rest w.collector.subs ∙ rw q here, n, m)
      ]

  watch-InOrder : (e : Event F) (w : Watched F) → Apart e → InOrder w → InOrder (watch e w)
  unfolding watch tick subscribe unsubscribe sample_once
  watch-InOrder (ticked io) w apart (buffered, here, n, m) =
      let snap = (sample_once fl cfg io w.collector).0 in
      let next = offer_in_order w.taken w.made buffered snap n m in
      (
        offer snap buffered,
        lookup-broadcast ch snap w.collector.subs ∙ ap (offered snap) here,
        next.0,
        next.1,
      )
  watch-InOrder (subscribed j) w apart (buffered, here, n, m) =
      (buffered, lookup-insert j ch [] w.collector.subs ∙ rw apart here, n, m)
  watch-InOrder (unsubscribed j) w apart (buffered, here, n, m) =
      (buffered, lookup-erase j ch w.collector.subs ∙ rw apart here, n, m)
  watch-InOrder (reads j) w apart h = read_from-InOrder j (lookup j w.collector.subs) w refl h

  watch_all-InOrder :
      (es : List (Event F)) (w : Watched F) → AllApart es → InOrder w → InOrder (watch_all es w)
  unfolding watch_all
  watch_all-InOrder [] w apart h = h
  watch_all-InOrder (e ∷ es) w apart h =
      watch_all-InOrder es (watch e w) apart.1 (watch-InOrder e w apart.0 h)

  -- The last of the snapshots, one from before where there is none.
  abbrev pub newest : Option (Snapshot F) → List (Snapshot F) → Option (Snapshot F)
  newest old [] = old
  newest old (snap ∷ made) = newest (some snap) made

  newest-append :
      (old : Option (Snapshot F)) (made : List (Snapshot F)) (snap : Snapshot F)
      → newest old (made ++ snap ∷ []) ≡ some snap
  newest-append old [] snap = refl
  newest-append old (x ∷ made) snap = newest-append (some x) made snap

  read_from_last :
      (j : ℕ) (o : Option (List (Snapshot F))) (w : Watched F)
      → ((read_from j o w).collector.last ≡ w.collector.last) × ((read_from j o w).made ≡ w.made)
  read_from_last j none w = (refl, refl)
  read_from_last j (some []) w = (refl, refl)
  read_from_last j (some (snap ∷ rest)) w = (refl, refl)

  watch_all_last :
      (old : Option (Snapshot F)) (es : List (Event F)) (w : Watched F)
      → w.collector.last ≡ newest old w.made
      → (watch_all es w).collector.last ≡ newest old (watch_all es w).made
  unfolding watch_all watch tick subscribe unsubscribe sample_once
  watch_all_last old [] w h = h
  watch_all_last old (ticked io ∷ es) w h =
      watch_all_last old es (watch (ticked io) w)
        (sym (newest-append old w.made (sample_once fl cfg io w.collector).0))
  watch_all_last old (subscribed j ∷ es) w h = watch_all_last old es (watch (subscribed j) w) h
  watch_all_last old (unsubscribed j ∷ es) w h = watch_all_last old es (watch (unsubscribed j) w) h
  watch_all_last old (reads j ∷ es) w h =
      let same = read_from_last j (lookup j w.collector.subs) w in
      watch_all_last old es (watch (reads j) w) (same.0 ∙ h ∙ ap (newest old) (sym same.1))

  tick_offers :
      (io : Io F) (c : Collector F) (buffered : List (Snapshot F))
      → lookup ch c.subs ≡ some buffered
      → lookup ch (tick fl cfg io c).subs
        ≡ some (
            if ltb (length buffered) 4
            then buffered ++ (sample_once fl cfg io c).0 ∷ []
            else buffered)
  unfolding tick sample_once
  tick_offers io c buffered here =
      lookup-broadcast ch (sample_once fl cfg io c).0 c.subs
      ∙ ap (offered (sample_once fl cfg io c).0) here

  -- Over any ticks of the collector and any doings of its clients, one that has subscribed and keeps its channel
  -- reads the snapshots that were made since, in order, each at most once, less some; at most four wait in its
  -- channel, and the next one reaches it unless four do. `Last` is the newest snapshot, whatever the subscribers
  -- read.
  pub reads_in_order :
      (c : Collector F) (es : List (Event F)) (io : Io F)
      → AllApart es
      → let w = watch_all es (record { collector = subscribe fl ch c; taken = []; made = [] }) in
        (buffered : List (Snapshot F)) × (lookup ch w.collector.subs ≡ some buffered)
        × (length buffered ≤ 4)
        × Misses (w.taken ++ buffered) w.made
        × (w.collector.last ≡ newest c.last w.made)
        × (lookup ch (tick fl cfg io w.collector).subs
            ≡ some (
                if ltb (length buffered) 4
                then buffered ++ (sample_once fl cfg io w.collector).0 ∷ []
                else buffered))
  unfolding subscribe
  reads_in_order c es io apart =
      let w : Watched F = record { collector = subscribe fl ch c; taken = []; made = [] } in
      let (buffered, here, n, m) =
        watch_all-InOrder es w apart
          ([], lookup-insert ch ch [] c.subs ∙ rw beq_refl refl, omega arith, done) in
      (
        buffered,
        here,
        n,
        m,
        watch_all_last c.last es w refl,
        tick_offers io (watch_all es w).collector buffered here,
      )
