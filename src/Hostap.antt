-- ===== src/Hostap.antt =====
-- pkg/hostap: the monitor of one interface (monitor.go) and its counters (stats.go).
pub mod Closing
pub mod Goroutines
pub mod Stats
pub mod Monitor
pub mod Status
pub mod Clients
pub mod Dispatch
pub mod Start
