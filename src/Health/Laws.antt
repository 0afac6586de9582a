-- ===== src/Health/Laws.antt =====
-- What the deep health checks of control-plane/app/health.py report.
use kaaval.Base.{
  ◌≡◌, refl, ap, ◌∙◌, ℕ, ◌+◌, ◌*◌, String, Bool, true, false, not, ◌&&◌, ◌||◌, Option, none, some,
  List, [], ◌∷◌, if◌then◌else◌, ltb, leb, filter, any, All, is_some, length, Bool-cases,
  Option-cases, inl, inr, ◌⊎◌, subst, arith, map,
}
use kaaval.Http.{Outcome, returned, raised, Outcome-cases}
use kaaval.Cve.Feeds.{Feed}
use kaaval.Health.{
  Check, feed_stale_after_hours, check_database, fetched, latest, check_age, check_fetched,
  check_enabled, check_cve_feeds, ConfigLoad, loads, config_exception, other_exception,
  check_kubernetes, status_of, code_of, Surroundings, feeds_after, deep_checks, run_deep_checks,
  health,
}

-- The feed was refreshed at most 48 hours ago.
abbrev pub is_fresh : ℕ → Feed → Bool
is_fresh now f = elim f.last_fetched [ none ↦ false | some t ↦ leb now (t + 48 * 3600) ]

abbrev recent : ℕ → ℕ → Bool
recent now t = leb now (t + 48 * 3600)

recent-latest :
    (now t : ℕ) (ts : List ℕ) → recent now (latest t ts) ≡ (recent now t || any (recent now) ts)
unfolding latest any
recent-latest now t [] = ground arith
recent-latest now t (u ∷ ts) = elim (Bool-cases (ltb t u)) [
  | inl e ↦ rw e (ground (arith, recent-latest now u ts))
  | inr e ↦ rw e (ground (arith, recent-latest now t ts))
]

any-fetched : (now : ℕ) (fs : List Feed) → any (recent now) (fetched fs) ≡ any (is_fresh now) fs
unfolding fetched any
any-fetched now [] = refl
any-fetched now (f ∷ fs) = elim (Option-cases f.last_fetched) [
  | inl e ↦ rw e (any-fetched now fs)
  | inr (t, e) ↦ rw e (ap (λ b. recent now t || b) (any-fetched now fs))
]

passes-check_age :
    (iso : ℕ → String) (now count newest : ℕ)
    → (check_age iso now count newest).passes ≡ recent now newest
unfolding check_age
passes-check_age iso now count newest =
    elim (Bool-cases (ltb (newest + feed_stale_after_hours * 3600) now)) [
      | inl e ↦ rw e (ground arith)
      | inr e ↦ rw e (ground arith)
    ]

passes-check_fetched :
    (iso : ℕ → String) (now count : ℕ) (ts : List ℕ)
    → (check_fetched iso now count ts).passes ≡ any (recent now) ts
unfolding check_fetched any
passes-check_fetched iso now count [] = refl
passes-check_fetched iso now count (t ∷ ts) =
    passes-check_age iso now count (latest t ts) ∙ recent-latest now t ts

passes-check_enabled :
    (iso : ℕ → String) (now : ℕ) (fs : List Feed)
    → (check_enabled iso now fs).passes ≡ any (is_fresh now) fs
unfolding check_enabled any
passes-check_enabled iso now [] = refl
passes-check_enabled iso now (f ∷ fs) =
    passes-check_fetched iso now (length (f ∷ fs)) (fetched (f ∷ fs)) ∙ any-fetched now (f ∷ fs)

any-filter : (p q : Feed → Bool) (fs : List Feed) → any p (filter q fs) ≡ any (λ f. q f && p f) fs
unfolding any filter
any-filter p q [] = refl
any-filter p q (f ∷ fs) = ground (arith, any-filter p q fs)

-- The check of the CVE feeds passes exactly when some enabled feed was refreshed at most 48 hours ago.
pub passes-check_cve_feeds :
    (iso : ℕ → String) (now : ℕ) (feeds : List Feed)
    → (check_cve_feeds iso now feeds).passes ≡ any (λ f. f.enabled && is_fresh now f) feeds
unfolding check_cve_feeds
passes-check_cve_feeds iso now feeds =
    passes-check_enabled iso now (filter (λ f. f.enabled) feeds)
    ∙ any-filter (is_fresh now) (λ f. f.enabled) feeds

-- A check that cannot fail the surface, and that names a fix exactly if it fails.
abbrev IsOptional : String → Check → Type 0
IsOptional name c = (c.name ≡ name) × (c.required ≡ false) × (is_some c.fix ≡ not c.passes)

check_age-IsOptional :
    (iso : ℕ → String) (now count newest : ℕ)
    → IsOptional "cve-feeds" (check_age iso now count newest)
unfolding check_age
check_age-IsOptional iso now count newest =
    elim (Bool-cases (ltb (newest + feed_stale_after_hours * 3600) now)) [
      | inl e ↦ rw (e, IsOptional) (refl, refl, refl)
      | inr e ↦ rw (e, IsOptional) (refl, refl, refl)
    ]

check_fetched-IsOptional :
    (iso : ℕ → String) (now count : ℕ) (ts : List ℕ)
    → IsOptional "cve-feeds" (check_fetched iso now count ts)
unfolding check_fetched
check_fetched-IsOptional iso now count [] = (refl, refl, refl)
check_fetched-IsOptional iso now count (t ∷ ts) = check_age-IsOptional iso now count (latest t ts)

check_enabled-IsOptional :
    (iso : ℕ → String) (now : ℕ) (fs : List Feed)
    → IsOptional "cve-feeds" (check_enabled iso now fs)
unfolding check_enabled
check_enabled-IsOptional iso now [] = (refl, refl, refl)
check_enabled-IsOptional iso now (f ∷ fs) =
    check_fetched-IsOptional iso now (length (f ∷ fs)) (fetched (f ∷ fs))

feeds_after-IsOptional :
    (iso : ℕ → String) (now : ℕ) (reached : Bool) (feeds : Outcome (List Feed))
    → IsOptional "cve-feeds" (feeds_after iso now reached feeds)
unfolding feeds_after check_cve_feeds
feeds_after-IsOptional iso now false feeds = (refl, refl, refl)
feeds_after-IsOptional iso now true (returned feeds) =
    check_enabled-IsOptional iso now (filter (λ f. f.enabled) feeds)
feeds_after-IsOptional iso now true (raised e) = (refl, refl, refl)

-- The check of Kubernetes, if it returns.
pub data Returns : Outcome Check → Type 0 where
  returns : (c : Check) → IsOptional "kubernetes" c → Returns (returned c)
  raises : (e : String) → Returns (raised e)

check_kubernetes-Returns :
    (in_cluster kubeconfig : ConfigLoad) → Returns (check_kubernetes in_cluster kubeconfig)
unfolding check_kubernetes
check_kubernetes-Returns loads kubeconfig = returns _ (refl, refl, refl)
check_kubernetes-Returns config_exception loads = returns _ (refl, refl, refl)
check_kubernetes-Returns config_exception config_exception = returns _ (refl, refl, refl)
check_kubernetes-Returns config_exception (other_exception e) = raises e
check_kubernetes-Returns (other_exception e) kubeconfig = raises e

-- The database is the only check that is required.
check_database-facts :
    (url : String) (connection : Option String)
    → ((check_database url connection).name ≡ "postgres")
      × ((check_database url connection).passes ≡ not (is_some connection))
      × ((check_database url connection).required ≡ true)
      × (is_some (check_database url connection).fix ≡ not (check_database url connection).passes)
unfolding check_database
check_database-facts url none = (refl, refl, refl, refl)
check_database-facts url (some e) = (refl, refl, refl, refl)

returned-IsOptional : (k : Check) → Returns (returned k) → IsOptional "kubernetes" k
returned-IsOptional k (returns c o) = o

-- What the deep checks of a surrounding give, with the check of Kubernetes.
abbrev checks_with : (ℕ → String) → ℕ → Surroundings → Check → List Check
checks_with iso now s kubernetes =
    let database = check_database s.url s.connection in
    database ∷ feeds_after iso now database.passes s.feeds ∷ kubernetes ∷ []

checks_with_complete :
    (iso : ℕ → String) (now : ℕ) (s : Surroundings) (k : Check)
    → IsOptional "kubernetes" k
    → (map (λ c. c.name) (checks_with iso now s k) ≡ "postgres" ∷ "cve-feeds" ∷ "kubernetes" ∷ [])
      × All (λ c. is_some c.fix ≡ not c.passes) (checks_with iso now s k)
checks_with_complete iso now s k (n'', r'', f'') =
    let (n, p, r, f) = check_database-facts s.url s.connection in
    let (n', r', f') =
      feeds_after-IsOptional iso now (check_database s.url s.connection).passes s.feeds in
    (cc (n, n', n''), (f, (f', (f'', tt))))

code_of-checks_with :
    (iso : ℕ → String) (now : ℕ) (s : Surroundings) (k : Check)
    → IsOptional "kubernetes" k
    → code_of iso (status_of (checks_with iso now s k))
      ≡ (if is_some s.connection then 503 else 200)
unfolding status_of any
code_of-checks_with iso now s k (n'', r'', f'') =
    let (n, p, r, f) = check_database-facts s.url s.connection in
    let (n', r', f') =
      feeds_after-IsOptional iso now (check_database s.url s.connection).passes s.feeds in
    ground arith

-- GET /health?deep=1 raises what the check of Kubernetes raises, or answers 503 exactly when
-- the database cannot be reached, and else 200. Its checks are those of the database, the feeds and
-- Kubernetes, in this order, and a check names a fix exactly if it fails.
pub health_code :
    (iso : ℕ → String) (now : ℕ) (s : Surroundings)
    → ((e : String) × (check_kubernetes s.in_cluster s.kubeconfig ≡ raised e)
        × (health iso now true s ≡ raised e))
      ⊎ ((checks : List Check) × (health iso now true s
            ≡ returned (
              if is_some s.connection then 503 else 200,
              some (record { status = status_of checks; checks = checks }),
            ))
          × (map (λ c. c.name) checks ≡ "postgres" ∷ "cve-feeds" ∷ "kubernetes" ∷ [])
          × All (λ c. is_some c.fix ≡ not c.passes) checks)
unfolding health run_deep_checks deep_checks
health_code iso now s = elim (Outcome-cases (check_kubernetes s.in_cluster s.kubeconfig)) [
  | inr (k, q) ↦
      let optional : IsOptional "kubernetes" k =
        returned-IsOptional k
          (subst Returns q (check_kubernetes-Returns s.in_cluster s.kubeconfig)) in
      let (names, fixes) = checks_with_complete iso now s k optional in
      inr (
        checks_with iso now s k,
        rw (q, health, run_deep_checks, deep_checks, code_of-checks_with iso now s k optional) refl,
        names,
        fixes,
      )
  | inl (e, q) ↦ inl (e, q, rw (q, health, run_deep_checks, deep_checks) refl)
]
