-- ===== src/Remediation.antt =====
-- control-plane/app/remediation.py.
pub mod References
pub mod Actions
pub mod Build
