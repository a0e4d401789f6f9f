-- ===== src/Tests.antt =====
-- The theorems at work on concrete inputs, with concrete functions in place of the packages.
pub mod Instances
pub mod Streams
pub mod Windows
pub mod Frames
pub mod Sets
pub mod Connections
pub mod Outputs
pub mod Handling
pub mod Files
pub mod Listening
pub mod Methods
pub mod Loops
pub mod Options
