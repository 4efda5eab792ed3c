-- ===== src/Daemon.antt =====
-- src/backend/cpp/src/main.cpp: the daemon's command line, the requests that it serves, and the
-- changes that it reports.
pub mod Options
pub mod Paths
pub mod Report
pub mod Requests
pub mod Announce
pub mod Serve
pub mod Main
pub mod Thread
pub mod Start
