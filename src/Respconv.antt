-- ===== src/Respconv.antt =====
-- internal/respconv: Kiro events to Anthropic responses. Each child models one file.
mod Tests
pub mod ThinkingTags
pub mod ChunkDelta
pub mod Accumulator
pub mod Events
pub mod Streaming
