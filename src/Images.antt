-- ===== src/Images.antt =====
-- The image reports: trivy_adapter.py, grype_adapter.py and image_ingest.py of control-plane/app.
pub mod Merge
pub mod Common
pub mod Trivy
pub mod Grype
pub mod Report
pub mod Ingest
