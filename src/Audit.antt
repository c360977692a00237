-- ===== src/Audit.antt =====
-- src/josuke/audit.py: the block ranges that an audit scans, and the ledger's record of delegates.
pub mod Scan
pub mod Ranges
pub mod Narrow
pub mod Merge
pub mod Search
pub mod Logs
mod Tests
