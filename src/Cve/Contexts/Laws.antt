-- ===== src/Cve/Contexts/Laws.antt =====
-- The risk contexts of control-plane/app stay valid, and a tenant reads what it wrote.
use kaaval.Base.{
  ◌≡◌, refl, sym, ap, ◌∙◌, ℕ, String, true, false, Option, none, some, List, if◌then◌else◌, get_or,
  contains, All, ◌==◌, nat_eq, string_eq, Bool-cases, Option-cases, inl, inr, arith,
}
use kaaval.Base.Dict.{lookup, lookup-insert, All-insert, All-lookup}
use kaaval.Http.{Reply, sent, http_error}
use kaaval.Scoring.{valid_environments, valid_data_classifications, valid_exposures}
use kaaval.Cve.Contexts.{
  ScanContext, Contexts, default_context, get_or_create_scan_context, ScanContextUpdate, is_refused,
  updated, write_context, update_scan_context, get_scan_context,
}

-- The values of a row are among those that the score has weights for.
pub record IsValid (c : ScanContext) : Type 0 where
  pub environment : contains valid_environments c.environment ≡ true
  pub data_classification : contains valid_data_classifications c.data_classification ≡ true
  pub exposure : contains valid_exposures c.exposure ≡ true

abbrev pub AllValid : Contexts → Type 0
AllValid db = All (λ row. IsValid row.1) db

default_context-IsValid : IsValid default_context
unfolding contains
default_context-IsValid = record { environment = refl; data_classification = refl; exposure = refl }

get_or_create-AllValid :
    (tenant_id : ℕ) (db : Contexts)
    → AllValid db
    → IsValid (get_or_create_scan_context tenant_id db).0
      × AllValid (get_or_create_scan_context tenant_id db).1
unfolding get_or_create_scan_context
get_or_create-AllValid tenant_id db v = elim (Option-cases (lookup tenant_id db)) [
  | inl e ↦
      rw (e, get_or_create_scan_context)
        (
          default_context-IsValid,
          All-insert _ tenant_id default_context db v default_context-IsValid,
        )
  | inr (c, e) ↦ rw (e, get_or_create_scan_context) (All-lookup _ tenant_id c db v e, v)
]

accepted :
    (value : Option String) (valid : List String) (old : String)
    → is_refused value valid ≡ false
    → contains valid old ≡ true
    → contains valid (get_or value old) ≡ true
unfolding is_refused
accepted none valid old h k = k
accepted (some value) valid old h k = ground arith

-- The three guards: either one refuses the body, with a 400 and no write, or all three accept it.
data Guarded (body : ScanContextUpdate) (tenant_id : ℕ) (db : Contexts)
    : Reply ScanContext × Contexts → Type 0 where
  refused : (detail : String) → Guarded body tenant_id db (http_error 400 detail, db)
  passed :
      is_refused body.environment valid_environments ≡ false
      → is_refused body.data_classification valid_data_classifications ≡ false
      → is_refused body.exposure valid_exposures ≡ false
      → Guarded body tenant_id db (write_context body tenant_id db)

guards :
    (body : ScanContextUpdate) (tenant_id : ℕ) (db : Contexts)
    → Guarded body tenant_id db (update_scan_context body tenant_id db)
unfolding update_scan_context
guards body tenant_id db = elim (Bool-cases (is_refused body.environment valid_environments)) [
  | inl e ↦ rw e (refused _)
  | inr e ↦
      rw e (elim (Bool-cases (is_refused body.data_classification valid_data_classifications)) [
        | inl d ↦ rw d (refused _)
        | inr d ↦ rw d (elim (Bool-cases (is_refused body.exposure valid_exposures)) [
          | inl x ↦ rw x (refused _)
          | inr x ↦ rw x (passed e d x)
        ])
      ])
]

write_context-AllValid :
    (body : ScanContextUpdate) (tenant_id : ℕ) (db : Contexts)
    → is_refused body.environment valid_environments ≡ false
    → is_refused body.data_classification valid_data_classifications ≡ false
    → is_refused body.exposure valid_exposures ≡ false
    → AllValid db
    → AllValid (write_context body tenant_id db).1
unfolding write_context
write_context-AllValid body tenant_id db e d x v =
    let (old, rest) = get_or_create-AllValid tenant_id db v in
    All-insert _ tenant_id _ (get_or_create_scan_context tenant_id db).1 rest (record {
      environment = accepted body.environment valid_environments _ e old.environment;
      data_classification =
          accepted body.data_classification valid_data_classifications _ d old.data_classification;
      exposure = accepted body.exposure valid_exposures _ x old.exposure;
    })

-- Whatever a client sends, the stored contexts hold only environments, data classifications and
-- exposures that the score has weights for.
pub update_scan_context-AllValid :
    (body : ScanContextUpdate) (tenant_id : ℕ) (db : Contexts)
    → AllValid db
    → AllValid (update_scan_context body tenant_id db).1
update_scan_context-AllValid body tenant_id db v =
    go (update_scan_context body tenant_id db) (guards body tenant_id db)
  where
    go : (r : Reply ScanContext × Contexts) → Guarded body tenant_id db r → AllValid r.1
    go r (refused detail) = v
    go r (passed e d x) = write_context-AllValid body tenant_id db e d x v

-- The context that a tenant reads.
abbrev pub context_of : ℕ → Contexts → ScanContext
context_of tenant_id db = get_or (lookup tenant_id db) default_context

get_or_create-context_of :
    (tenant_id : ℕ) (db : Contexts)
    → (get_or_create_scan_context tenant_id db).0 ≡ context_of tenant_id db
unfolding get_or_create_scan_context
get_or_create-context_of tenant_id db = elim (Option-cases (lookup tenant_id db)) [
  | inl e ↦ rw (e, get_or_create_scan_context) refl
  | inr (c, e) ↦ rw (e, get_or_create_scan_context) refl
]

get_scan_context-context_of :
    (tenant_id : ℕ) (db : Contexts) → (get_scan_context tenant_id db).0 ≡ context_of tenant_id db
unfolding get_scan_context
get_scan_context-context_of tenant_id db = get_or_create-context_of tenant_id db

write_context-reads :
    (body : ScanContextUpdate) (tenant_id j : ℕ) (db : Contexts)
    → context_of j (write_context body tenant_id db).1
      ≡ (if j == tenant_id then updated body (context_of tenant_id db) else context_of j db)
unfolding write_context get_or_create_scan_context
write_context-reads body tenant_id j db = elim (Option-cases (lookup tenant_id db)) [
  | inl e ↦ elim (Bool-cases (j == tenant_id)) [
    | inl q ↦ rw (e, get_or_create_scan_context, lookup-insert, q) refl
    | inr q ↦ rw (e, get_or_create_scan_context, lookup-insert, lookup-insert, q) refl
  ]
  | inr (c, e) ↦ elim (Bool-cases (j == tenant_id)) [
    | inl q ↦ rw (e, get_or_create_scan_context, lookup-insert, q) refl
    | inr q ↦ rw (e, get_or_create_scan_context, lookup-insert, q) refl
  ]
]

write_context-sends :
    (body : ScanContextUpdate) (tenant_id : ℕ) (db : Contexts)
    → (write_context body tenant_id db).0 ≡ sent (updated body (context_of tenant_id db))
unfolding write_context
write_context-sends body tenant_id db =
    ap (λ c. sent (updated body c)) (get_or_create-context_of tenant_id db)

-- After an update that is accepted the tenant reads the row that was sent back, which has the fields
-- of the body and keeps the others, and every other tenant reads what it read before.
pub update_scan_context-reads :
    (body : ScanContextUpdate) (tenant_id j : ℕ) (db : Contexts) (c : ScanContext)
    → (update_scan_context body tenant_id db).0 ≡ sent c
    → (c ≡ updated body (get_scan_context tenant_id db).0)
      × ((get_scan_context j (update_scan_context body tenant_id db).1).0
          ≡ (if j == tenant_id then c else (get_scan_context j db).0))
update_scan_context-reads body tenant_id j db c h =
    go (update_scan_context body tenant_id db) (guards body tenant_id db) h
  where
    row : (write_context body tenant_id db).0 ≡ sent c → c ≡ updated body (context_of tenant_id db)
    row q = cc (q, write_context-sends body tenant_id db)

    go :
        (r : Reply ScanContext × Contexts)
        → Guarded body tenant_id db r
        → r.0 ≡ sent c
        → (c ≡ updated body (get_scan_context tenant_id db).0)
          × ((get_scan_context j r.1).0 ≡ (if j == tenant_id then c else (get_scan_context j db).0))
    go r (refused detail) q = cc
    go r (passed e d x) q = (
      row q ∙ ap (updated body) (sym (get_scan_context-context_of tenant_id db)),
      get_scan_context-context_of j (write_context body tenant_id db).1
          ∙ (write_context-reads body tenant_id j db
              ∙ rw (get_scan_context-context_of j db, row q) refl),
    )
