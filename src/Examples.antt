-- ===== src/Examples.antt =====
-- The theorems at concrete inputs: a peer, a digest and a disk, and runs of the code on them.
mod Instances
mod Transfers
mod Messages
mod Chunks
mod Watching
mod Serving
mod Winsocks
mod Locking
mod Watchers
