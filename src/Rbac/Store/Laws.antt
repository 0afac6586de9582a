-- ===== src/Rbac/Store/Laws.antt =====
-- What the reads of control-plane/app/rbac_service.py give after a scan.
use kaaval.Base.{nat_eq, string_eq, option_eq, pair_eq}
use kaaval.Floats.{Floats}
use kaaval.Cve.Contexts.{Contexts}
