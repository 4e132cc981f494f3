-- ===== src/Utf8/Decides.antt =====
-- `is_valid_utf8` accepts the bytes that spell scalar values, and no others.
pub mod Sequence
pub mod Complete
pub mod Loop
