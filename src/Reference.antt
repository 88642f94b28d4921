-- ===== src/Reference.antt =====
-- packages/fixtures: the reference implementation that the committed test vectors come from, and its
-- agreement with packages/wire and packages/core.
pub mod Bytes
pub mod Wire
pub mod Check
pub mod Statement
pub mod Base45
pub mod EncodesAlike
pub mod HeaderAlike
pub mod ChecksAlike
pub mod StatementsAlike
mod Examples
