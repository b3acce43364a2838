-- ===== src/Worker.antt =====
-- src/scanpod_enterprise/worker.py: the scan worker.
pub mod Lease
pub mod Execute
pub mod Command
pub mod CommandLine
pub mod Scan
