-- ===== src/Watch.antt =====
-- src/backend/cpp/src/filesystem_watcher.cpp and include/filesystem_watcher.h: what tells the daemon
-- that files have changed.
pub mod Events
pub mod Polling
pub mod Scan
pub mod Announced
pub mod Bytes
pub mod Inotify
pub mod InotifyLoop
pub mod InotifyBuffer
pub mod InotifyTree
pub mod Changes
pub mod ChangesBuffer
pub mod ChangesLoop
pub mod ChangesStop
pub mod InotifyEvents
pub mod Fsevents
pub mod FseventsStop
pub mod FseventsReturn
pub mod Rounds
pub mod Mirror
pub mod Classes
pub mod Lifecycle
