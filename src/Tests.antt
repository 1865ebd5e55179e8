-- ===== src/Tests.antt =====
-- Runs of the model, and the theorems applied at concrete inputs.
mod Tailer
mod Keys
mod State
mod Extract
mod Logs
mod Shipping
mod Config
mod Watermark
mod HostMetrics
mod Runner
mod Cycle
mod Twice
mod Completes
mod ObjectIds
mod History
