-- ===== src/Tests.antt =====
-- The theorems at small inputs.
mod Samples
mod Queue
mod Worker
mod Ingest
mod Service
mod Ports
mod Pool
mod Gather
mod Recovery
mod Edge
mod Schema
mod Wiring
