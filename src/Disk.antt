-- ===== src/Disk.antt =====
-- The file system as src/backend/cpp/src/file_transfer.cpp and main.cpp use it, through
-- std::filesystem and the file streams: a map from path to node, and a schedule of faults.
-- Paths are compared as texts: `..`, symbolic links and doubled slashes are not resolved.
pub mod Paths
pub mod Nodes
pub mod Io
pub mod Ops
pub mod Frame
pub mod Effects
pub mod Streams
pub mod Calm
pub mod Keeps
pub mod Runs
pub mod Directories
