-- ===== src/Util.antt =====
-- The small utilities of pkg/util.
pub mod Attempt
pub mod Pacing
pub mod Reflected
pub mod Random
pub mod Drawing
pub mod Time
pub mod Reading
pub mod Stamp
pub mod Query
pub mod Flat
pub mod Body
pub mod Nesting
pub mod Form
pub mod Sorting
pub mod Maps
pub mod Cipher
pub mod Padding
pub mod Merging
mod Tests
