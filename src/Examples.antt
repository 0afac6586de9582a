-- ===== src/Examples.antt =====
-- Concrete inputs, as the tests of control-plane have them, to which the theorems apply.
mod Fixed
mod Cluster
mod Runs
mod RbacRuns
mod Scores
mod Access
mod Cves
mod Feeds
mod Scans
mod Requests
mod Reports
mod Diffs
mod Logs
mod Exports
