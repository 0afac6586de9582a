-- ===== src/Finding.antt =====
-- The finding, a dict that rbac_service.py, effective_access.py, trivy_adapter.py, grype_adapter.py
-- and cve_service.py of control-plane/app build and that all consumers read. A key that a kind of
-- finding does not have is `none`, or `[]` where every reader treats the two alike.
use kaaval.Base.{String, Option, none, List, []}
use kaaval.Floats.{Floats}
use kaaval.Scoring.{Factors}
use kaaval.Rbac.Graph.{Subject, RoleRef}
use kaaval.Remediation.References.{Reference}

-- What "binding", "workload" and "service_account" hold.
pub record Target : Type 0 where
  pub kind : Option String
  pub name : Option String
  pub namespace : Option String

-- An element of "affected"
pub record Affected : Type 0 where
  pub component : String
  pub version : Option String
  pub fixed : Option String

pub record Remediation : Type 0 where
  pub action : String
  pub why_it_matters : String
  pub compliance_note : Option String
  pub audit_note : String
  pub benchmark_refs : List Reference

module _ (F : Floats) where
  pub record Finding : Type 0 where
    pub rule_type : Option String
    pub cve_id : Option String
    pub severity : String
    pub title : String
    pub description : String
    pub role : Option RoleRef
    pub binding : Option Target
    pub service_account : Option Target
    pub workload : Option Target
    pub subject : Option Subject
    pub bindings : List Target
    pub subjects : List Subject
    pub cvss_score : Option F.Float
    pub affected : List Affected
    pub fixed_in : List String
    pub references : List String
    pub published_date : Option String
    pub source : Option String
    pub image : Option String
    pub contextual_score : F.Float
    pub score_factors : Factors F
    pub remediation : Option Remediation

  -- The keys that each finding has, from its severity and its score.
  abbrev pub bare_finding : String → F.Float × Factors F → Finding
  bare_finding severity (score, factors) = record {
    rule_type = none;
    cve_id = none;
    severity = severity;
    title = "";
    description = "";
    role = none;
    binding = none;
    service_account = none;
    workload = none;
    subject = none;
    bindings = [];
    subjects = [];
    cvss_score = none;
    affected = [];
    fixed_in = [];
    references = [];
    published_date = none;
    source = none;
    image = none;
    contextual_score = score;
    score_factors = factors;
    remediation = none;
  }
