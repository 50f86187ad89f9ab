-- ===== src/Metrics.antt =====
-- metrics/tracer.go: the identities of messages, the recorder, and the summary of their arrivals.
pub mod Ids
pub mod Recorder
pub mod Summary
