-- ===== src/Tests.antt =====
-- Runs of the model, and the theorems at concrete inputs.
pub mod Toy
mod StoreRuns
mod CodecRuns
mod WireRuns
mod LoopbackRuns
mod TcpRuns
mod SpoolRuns
mod SessionRuns
mod MaliciousRuns
mod ProviderRuns
