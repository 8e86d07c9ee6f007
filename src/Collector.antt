-- ===== src/Collector.antt =====
-- internal/collector: the counters of the host, the quantiles of the engine's histograms, and the sampler that
-- puts them together once a second.
pub mod Window
pub mod History
pub mod Proc
pub mod Metrics
pub mod Scrape
pub mod Host
pub mod Sampler
