-- ===== src/Examples.antt =====
-- Runs of the code at concrete inputs.
pub mod Core
mod Json
mod Cursor
mod TopN
mod InBase
mod Files
mod Merge
mod Text
mod Web
mod Search
