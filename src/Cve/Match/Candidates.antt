-- ===== src/Cve/Match/Candidates.antt =====
-- The versions that `_match_cves` of control-plane/app/cve_service.py takes for a component.
use kaaval.Base.{
  ◌≡◌, refl, sym, ap, ◌∙◌, String, true, false, List, [], ◌∷◌, Bool-cases, ◌⊎◌, inl, inr, contains,
  ◌==◌, string_eq, eq_iff,
}
use mathlib.Core.Path.{subst}
use kaaval.Base.Member.{
  Member, here, there, Member-append_left, Member-append_right, Member-append_cases,
}
use kaaval.Cve.Match.{
  add_version, add_versions, VersionsMap, same_component, candidates_from, candidate_versions,
}

Member-of_contains : (vs : List String) (v : String) → contains vs v ≡ true → Member v vs
unfolding contains
Member-of_contains [] v h = cc
Member-of_contains (w ∷ vs) v h = elim (Bool-cases (v == w)) [
  | inl q ↦ here ((eq_iff v w).0 q)
  | inr q ↦ there (Member-of_contains vs v (rw q at h))
]

single : (u w : String) → Member u (w ∷ []) → u ≡ w
single u w (here e) = e
single u w (there m) = elim m [ ]

add_version-cases :
    (u w : String) (vs : List String)
    → ((Member u vs ⊎ (u ≡ w)) → Member u (add_version vs w))
      × (Member u (add_version vs w) → (Member u vs ⊎ (u ≡ w)))
unfolding add_version
add_version-cases u w vs = elim (Bool-cases (contains vs w)) [
  | inl h ↦ rw h (
    λ m. elim m [
      | inl k ↦ k
      | inr e ↦ subst (λ x. Member x vs) (sym e) (Member-of_contains vs w h)
    ],
    inl,
  )
  | inr h ↦ rw h (
    λ m. elim m [
      | inl k ↦ Member-append_left u vs (w ∷ []) k
      | inr e ↦ Member-append_right u vs (w ∷ []) (here e)
    ],
    λ m. elim (Member-append_cases u vs (w ∷ []) m) [ inl k ↦ inl k | inr k ↦ inr (single u w k) ],
  )
]

add_versions-cases :
    (u : String) (vs ws : List String)
    → ((Member u vs ⊎ Member u ws) → Member u (add_versions vs ws))
      × (Member u (add_versions vs ws) → (Member u vs ⊎ Member u ws))
unfolding add_versions
add_versions-cases u vs [] = (λ m. elim m [ inl k ↦ k | inr k ↦ elim k [ ] ], inl)
add_versions-cases u vs (w ∷ ws) =
    let (to, from) = add_versions-cases u (add_version vs w) ws in
    let (add, added) = add_version-cases u w vs in
    (
      λ m. to (elim m [
        | inl k ↦ inl (add (inl k))
        | inr (here e) ↦ inl (add (inr e))
        | inr (there k) ↦ inr k
      ]),
      λ m. elim (from m) [
        | inl k ↦ elim (added k) [ inl l ↦ inl l | inr e ↦ inr (here e) ]
        | inr k ↦ inr (there k)
      ],
    )

-- A version of a component of the map that the name is taken to mean.
abbrev pub IsCandidate : String → VersionsMap → String → Type 0
IsCandidate comp_name m ver =
    (known_name : String) × (known : List String) × Member (known_name, known) m
    × (same_component comp_name known_name ≡ true)
    × Member ver known

candidate_head {ℓ} :
    {R : Type ℓ} (comp_name name : String) (known : List String) (m : VersionsMap) (ver : String)
    → (Member ver known → R)
    → (IsCandidate comp_name m ver → R)
    → IsCandidate comp_name ((name, known) ∷ m) ver
    → R
candidate_head comp_name name known m ver first rest (n, vs, here e, s, v) =
    first (subst (Member ver) (ap (λ p. p.1) e) v)
candidate_head comp_name name known m ver first rest (n, vs, there l, s, v) = rest (n, vs, l, s, v)

IsCandidate-skip :
    (comp_name name : String) (known : List String) (m : VersionsMap) (ver : String)
    → same_component comp_name name ≡ false
    → IsCandidate comp_name ((name, known) ∷ m) ver
    → IsCandidate comp_name m ver
IsCandidate-skip comp_name name known m ver h (n, vs, here e, s, v) =
    let same : same_component comp_name name ≡ true =
      sym (ap (λ p. same_component comp_name p.0) e) ∙ s in
    cc
IsCandidate-skip comp_name name known m ver h (n, vs, there l, s, v) = (n, vs, l, s, v)

candidates_from-cases :
    (found : List String) (comp_name : String) (m : VersionsMap) (ver : String)
    → ((Member ver found ⊎ IsCandidate comp_name m ver)
        → Member ver (candidates_from found comp_name m))
      × (Member ver (candidates_from found comp_name m)
          → (Member ver found ⊎ IsCandidate comp_name m ver))
unfolding candidates_from
candidates_from-cases found comp_name [] ver =
    (λ q. elim q [ inl k ↦ k | inr (n, vs, l, r, v) ↦ elim l [ ] ], inl)
candidates_from-cases found comp_name ((name, known) ∷ m) ver =
    elim (Bool-cases (same_component comp_name name)) [
      | inl h ↦
          let (to, from) = candidates_from-cases (add_versions found known) comp_name m ver in
          let (add, added) = add_versions-cases ver found known in
          rw h (
            λ q. to (elim q [
              | inl k ↦ inl (add (inl k))
              | inr c ↦ candidate_head comp_name name known m ver (λ k. inl (add (inr k))) inr c
            ]),
            λ k. elim (from k) [
              | inl l ↦ elim (added l) [
                | inl f ↦ inl f
                | inr v ↦ inr (name, known, here refl, h, v)
              ]
              | inr (n, vs, l, s, v) ↦ inr (n, vs, there l, s, v)
            ],
          )
      | inr h ↦
          let (to, from) = candidates_from-cases found comp_name m ver in
          rw h (
            λ q. to (elim q [
              | inl k ↦ inl k
              | inr c ↦ inr (IsCandidate-skip comp_name name known m ver h c)
            ]),
            λ k. elim (from k) [
              | inl l ↦ inl l
              | inr (n, vs, l, s, v) ↦ inr (n, vs, there l, s, v)
            ],
          )
    ]

-- The candidates are the versions of the components that the name is taken to mean.
pub candidate_versions-cases :
    (comp_name : String) (m : VersionsMap) (ver : String)
    → (IsCandidate comp_name m ver → Member ver (candidate_versions comp_name m))
      × (Member ver (candidate_versions comp_name m) → IsCandidate comp_name m ver)
unfolding candidate_versions
candidate_versions-cases comp_name m ver =
    let (to, from) = candidates_from-cases [] comp_name m ver in
    (λ c. to (inr c), λ k. elim (from k) [ inl l ↦ elim l [ ] | inr c ↦ c ])
