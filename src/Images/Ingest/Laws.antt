-- ===== src/Images/Ingest/Laws.antt =====
-- The imports of one tenant in control-plane/app/routers/ingest.py, and those of the others.
use kaaval.Base.{
  filter-true, ◌≡◌, refl, ℕ, String, true, false, Option, none, some, List, [], ◌∷◌, ◌++◌,
  append-nil, ltb, filter, filter-append, All, All-filter, ◌==◌, ==-refl, nat_eq, string_eq,
}
use kaaval.Http.{sent}
use kaaval.Floats.{Floats}
use kaaval.Cve.Contexts.{get_or_create_scan_context, context_to_dict}
use kaaval.Images.Report.{ImageReport, Scored, image_of, source_of}
use kaaval.Images.Report.Laws.{score_report_breakdown}
use kaaval.Images.Ingest.{Import, ImportTables, store, latest_of, latest_scan}

module _ {F : Floats} where
  -- A row that is later than all others is the first one.
  latest_of-snoc :
      (s : Import F) (scans : List (Import F))
      → All (λ t. ltb t.scanned_at s.scanned_at ≡ true) scans
      → latest_of F (scans ++ s ∷ []) ≡ some s
  unfolding latest_of
  latest_of-snoc s [] h = refl
  latest_of-snoc s (t ∷ scans) (h, hs) = rw (latest_of-snoc s scans hs, h) refl

  -- What a tenant reads after a row of another one is added.
  latest_scan-foreign :
      (other : ℕ) (source : Option String) (s : Import F) (scans : List (Import F))
      → (s.tenant_id == other) ≡ false
      → latest_scan F other source (scans ++ s ∷ []) ≡ latest_scan F other source scans
  unfolding latest_scan filter
  latest_scan-foreign other source s scans differ =
      rw
        (
          latest_scan,
          filter-append (λ t. t.tenant_id == other) scans (s ∷ []),
          differ,
          append-nil (filter (λ t. t.tenant_id == other) scans),
        )
        refl

  latest_scan-own :
      (s : Import F) (scans : List (Import F))
      → All (λ t. ltb t.scanned_at s.scanned_at ≡ true) scans
      → latest_scan F s.tenant_id none (scans ++ s ∷ []) ≡ sent s
  unfolding latest_scan filter
  latest_scan-own s scans later =
      rw
        (
          latest_scan,
          filter-append (λ t. t.tenant_id == s.tenant_id) scans (s ∷ []),
          ==-refl s.tenant_id,
          filter-true,
          latest_of-snoc s (filter (λ t. t.tenant_id == s.tenant_id) scans)
              (All-filter _ _ (λ t. t.tenant_id == s.tenant_id) scans (λ t h k. h) later),
        )
        refl

module _ (F : Floats) (new_id now tenant_id : ℕ) (report : ImageReport F)
    (db : ImportTables F) where
  -- The row of a scan.
  abbrev imported : Scored F → Import F
  imported r = record {
    id = new_id;
    tenant_id = tenant_id;
    source = source_of F report;
    scanned_at = now;
    result = r;
  }

  -- The import of a report that names its image, at a time after that of every import, is sent, and its
  -- tenant then reads it as the latest of all imports, while every other tenant reads what it read
  -- before.
  pub latest_scan-store :
      (image : String) (other : ℕ) (source : Option String)
      → image_of F report ≡ some image
      → All (λ t. ltb t.scanned_at now ≡ true) db.scans
      → (tenant_id == other) ≡ false
      → (s : Import F) × ((store F new_id now tenant_id report db).0 ≡ some s)
        × (latest_scan F tenant_id none (store F new_id now tenant_id report db).1.scans ≡ sent s)
        × (latest_scan F other source (store F new_id now tenant_id report db).1.scans
            ≡ latest_scan F other source db.scans)
  unfolding store
  latest_scan-store image other source named later differ =
      let c = context_to_dict (get_or_create_scan_context tenant_id db.contexts).0 in
      let (r, e, fs, known, total, counts) = score_report_breakdown F report c image named in
      (
        imported r,
        rw (store, e) refl,
        rw (store, e) (latest_scan-own (imported r) db.scans later),
        rw (store, e) (latest_scan-foreign other source (imported r) db.scans differ),
      )
