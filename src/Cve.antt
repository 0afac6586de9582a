-- ===== src/Cve.antt =====
-- control-plane/app/cve_service.py: versions, OSV records, and the match of CVEs with a cluster.
pub mod Addons
pub mod Version
pub mod Osv
pub mod Match
pub mod Entry
pub mod Nvd
pub mod OsvFeed
pub mod JsonFeed
pub mod Feeds
pub mod Contexts
pub mod Inventory
pub mod Scans
pub mod Pipeline
