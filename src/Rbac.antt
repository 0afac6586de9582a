-- ===== src/Rbac.antt =====
-- control-plane/app/rbac_service.py.
pub mod Graph
pub mod Rules
pub mod Subjects
pub mod Risks
pub mod Automount
pub mod Findings
pub mod Diff
pub mod Store
