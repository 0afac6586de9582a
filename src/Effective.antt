-- ===== src/Effective.antt =====
-- control-plane/app/effective_access.py: grants that only together escalate privileges.
pub mod Predicates
pub mod Privileged
pub mod Subjects
pub mod Combos
