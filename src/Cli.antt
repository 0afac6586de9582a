-- ===== src/Cli.antt =====
-- control-plane/app/cli.py: the headless scanner's gate and its exporters' targets.
pub mod Context
pub mod Gate
pub mod Export
pub mod Sarif
pub mod Run
pub mod PolicyReport
pub mod Manifests
