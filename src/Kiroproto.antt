-- ===== src/Kiroproto.antt =====
-- internal/kiroproto: the upstream's event stream.
pub mod Frame
pub mod Headers
pub mod ToolUse
pub mod Stream
mod Tests
