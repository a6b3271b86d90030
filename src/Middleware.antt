-- ===== src/Middleware.antt =====
-- internal/middleware: the status that is observed, the request log and the metrics.
pub mod EffectiveStatus
pub mod RequestLogger
pub mod Prometheus
pub mod Metrics
