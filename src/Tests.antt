-- ===== src/Tests.antt =====
-- Runs at concrete inputs.
mod Digest
mod Encoding
mod Streams
mod Calls
mod Sources
mod Files
mod Extraction
mod Delivery
