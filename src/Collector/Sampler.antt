-- ===== src/Collector/Sampler.antt =====
-- `Collector` of internal/collector/collector.go: a sample of everything at each tick, its broadcast, and the
-- subscriptions. A channel is the list of what it holds; `Run` is one `tick` for each tick of its clock.
pub mod Broadcast
pub mod Engine
mod Tests
use qfn_pgx.Base.{
  ℕ, zero, suc, ◌+◌, ◌-◌, ◌*◌, ltb, leb, Bool, true, false, not, Option, none, some, String, ℕ_eq,
  List_eq, ◌==◌, List, [], ◌∷◌, ◌++◌, length, if◌then◌else◌,
}
use qfn_pgx.Base.Dict.{Dict, insert, erase}
use qfn_pgx.Base.Bytes.{Text, codes}
use qfn_pgx.Proxy.FrontDoor.{trim_slashes}
use qfn_pgx.Collector.Metrics.{Floats, Metrics, Gpu, no_gpu}
use qfn_pgx.Collector.Scrape.{
  Scraper, Scraped, failed, unparsed, metrics, EngineState, no_engine, new_scraper, elapsed,
  engine_tick,
}
use qfn_pgx.Collector.Host.{
  HostState, HostPrev, new_host_prev, ContainerState, ContainerPrev, new_container_prev, System,
  host_tick, container_tick,
}

-- `Config`, with what `EngineBase` and `EngineKey` give; the interval in nanoseconds, above 0.
pub record Settings : Type 0 where
  pub engine_base : Text
  pub engine_key : Text
  pub container_name : Text
  pub interval : ℕ

-- What a sample meets: the clock, the operating system, the GPU, the engine's answer to a scrape of a URL with a
-- key, none for an error, and what the library makes of the text.
pub record Io (F : Type 0) : Type 0 where
  pub now : ℕ
  pub system : System
  pub gpu : Gpu F
  pub scrape : Text → Text → Option Text
  pub parse_metrics : Text → Option (Metrics F)

pub record Snapshot (F : Type 0) : Type 0 where
  pub ts : ℕ
  pub host : HostState F
  pub engine : EngineState F
  pub snap_gpu : Gpu F
  pub container : Option (ContainerState F)

-- `Collector`; a channel is known by a number.
pub record Collector (F : Type 0) : Type 0 where
  pub last : Option (Snapshot F)
  pub subs : Dict ℕ (List (Snapshot F))
  pub scraper : Scraper F
  pub host_prev : HostPrev
  pub container_prev : ContainerPrev
  pub prev_at : Option ℕ
  pub gpu_cached : Gpu F
  pub gpu_at : Option ℕ

-- `make(chan Snapshot, 4)`
abbrev pub channel_cap : ℕ
channel_cap = 4

parsed_or : {F : Type 0} → Option (Metrics F) → Scraped F
parsed_or none = unparsed
parsed_or (some m) = metrics m

scraped_or : {F : Type 0} → (Text → Option (Metrics F)) → Option Text → Scraped F
unfolding parsed_or
scraped_or parse none = failed
scraped_or parse (some text) = parsed_or (parse text)

-- A scrape of "/metrics" below the engine's base.
unfoldable pub scrape_engine : {F : Type 0} → Settings → Io F → Scraped F
unfolding scraped_or trim_slashes
scrape_engine cfg io =
    scraped_or io.parse_metrics
      (io.scrape (trim_slashes cfg.engine_base ++ codes "/metrics") cfg.engine_key)

-- `case ch <- snap: default:` for one channel.
abbrev pub offer {ℓ} : {A : Type ℓ} → A → List A → List A
offer snap buffered = if ltb (length buffered) channel_cap then buffered ++ snap ∷ [] else buffered

unfoldable pub broadcast {ℓ} : {A : Type ℓ} → A → Dict ℕ (List A) → Dict ℕ (List A)
broadcast snap [] = []
broadcast snap ((ch, buffered) ∷ subs) = (ch, offer snap buffered) ∷ broadcast snap subs

module _ {F : Type 0} (fl : Floats F) where
  -- `New`
  abbrev pub new_collector : Collector F
  new_collector = record {
    last = none;
    subs = [];
    scraper = new_scraper fl;
    host_prev = new_host_prev;
    container_prev = new_container_prev;
    prev_at = none;
    gpu_cached = no_gpu fl;
    gpu_at = none;
  }

  -- The GPU is asked at every second interval.
  abbrev is_gpu_due : ℕ → ℕ → Option ℕ → Bool
  is_gpu_due interval now none = true
  is_gpu_due interval now (some at) = leb (2 * interval) (now - at)

  -- `SampleOnce`
  unfoldable pub sample_once : Settings → Io F → Collector F → Snapshot F × Collector F
  unfolding host_tick container_tick engine_tick scrape_engine
  sample_once cfg io c =
      let dt = elapsed fl c.prev_at io.now in
      let (host, host_prev) = host_tick fl io.system dt c.host_prev in
      let due = is_gpu_due cfg.interval io.now c.gpu_at in
      let gpu = if due then io.gpu else c.gpu_cached in
      let (box, box_prev) =
        container_tick fl cfg.container_name io.system io.now dt c.container_prev in
      let (engine, scraper) =
        if cfg.engine_base == []
        then (no_engine fl, c.scraper)
        else engine_tick fl (scrape_engine cfg io) dt c.scraper in
      (
        record { ts = io.now; host = host; engine = engine; snap_gpu = gpu; container = box },
        record c {
          scraper = scraper;
          host_prev = host_prev;
          container_prev = box_prev;
          prev_at = some io.now;
          gpu_cached = gpu;
          gpu_at = if due then some io.now else c.gpu_at;
        },
      )

  -- A tick of `Run`.
  unfoldable pub tick : Settings → Io F → Collector F → Collector F
  unfolding sample_once broadcast
  tick cfg io c =
      let (snap, c') = sample_once cfg io c in
      record c' { last = some snap; subs = broadcast snap c'.subs }

  -- `Subscribe` with a channel that is new, and the function that it returns.
  unfoldable pub subscribe : ℕ → Collector F → Collector F
  unfolding insert
  subscribe ch c = record c { subs = insert ch [] c.subs }

  unfoldable pub unsubscribe : ℕ → Collector F → Collector F
  unfolding erase
  unsubscribe ch c = record c { subs = erase ch c.subs }
