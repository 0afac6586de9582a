-- ===== src/Images/Common/Laws.antt =====
-- The highest CVSS score that an adapter of control-plane/app picks.
use mathlib.Core.Path.{subst}
use mathlib.Core.Option.{some-injective}
use kaaval.Base.{
  ◌≡◌, refl, sym, ap, ◌∙◌, Bool, true, false, Option, none, some, List, [], ◌∷◌, if◌then◌else◌,
  Bool-cases, inl, inr, All, ◌≤◌, get_or, length, filter, ◌==◌, string_eq, pair_eq,
}
use kaaval.Base.Dict.{values}
use kaaval.Base.Sort.{sort, filter-sort_single}
use kaaval.Finding.{Finding}
use kaaval.Images.Merge.{merge}
use kaaval.Images.Merge.Laws.{first_of, at_most_one, length-at_most_one, filter-merge}
use kaaval.Base.Member.{Member, here, there}
use kaaval.Floats.{Floats, IsOrdered}
use kaaval.Images.Common.{DedupKey, max_from, max_score}

module _ (F : Floats) (o : IsOrdered F) where
  -- The best is among the scores, and none exceeds it.
  abbrev pub IsMax : F.Float → List F.Float → Type 0
  IsMax best scores = Member best scores × All (λ score. F.at_most score best ≡ true) scores

  Member-skip : (a x y : F.Float) (zs : List F.Float) → Member a (x ∷ zs) → Member a (x ∷ y ∷ zs)
  Member-skip a x y zs (here e) = here e
  Member-skip a x y zs (there m) = there (there m)

  max_from-IsMax :
      (best : F.Float) (scores : List F.Float) → IsMax (max_from F best scores) (best ∷ scores)
  unfolding max_from
  max_from-IsMax best [] = (here refl, (o.refl_at_most best, tt))
  max_from-IsMax best (score ∷ scores) = elim (Bool-cases (F.at_most score best)) [
    | inl h ↦
        let (m, (b, u)) = max_from-IsMax best scores in
        subst (λ x. IsMax (max_from F x scores) (best ∷ score ∷ scores)) (rw h refl)
          (Member-skip _ best score scores m, (b, (o.trans score best _ h b, u)))
    | inr h ↦
        let (m, (b, u)) = max_from-IsMax score scores in
        subst (λ x. IsMax (max_from F x scores) (best ∷ score ∷ scores)) (rw h refl)
          (there m, (o.trans best score _ (o.total score best h) b, (b, u)))
  ]

  -- The score that is picked is one of those reported, and none of them exceeds it.
  pub max_score-IsMax :
      (scores : List F.Float) (best : F.Float) → max_score F scores ≡ some best → IsMax best scores
  unfolding max_score
  max_score-IsMax [] best h = cc
  max_score-IsMax (score ∷ scores) best h =
      subst (λ x. IsMax x (score ∷ scores)) (some-injective _ best h) (max_from-IsMax score scores)

module _ (F : Floats) where
  -- CVE, image and component of a finding.
  abbrev pub image_key : Finding F → DedupKey
  image_key f = (
    get_or f.cve_id "",
    (get_or f.image "", elim f.affected [ [] ↦ "" | a ∷ rest ↦ a.component ]),
  )

  -- An entry is keyed by the finding that goes with it.
  pub entry_key :
      (t : Bool) (j k : DedupKey) (f h : Finding F)
      → image_key f ≡ j
      → if◌then◌else◌ {A = Option (DedupKey × Finding F)} t (some (j, f)) none ≡ some (k, h)
      → image_key h ≡ k
  entry_key true j k f h e q =
      let same : (j, f) ≡ (k, h) = some-injective (j, f) (k, h) q in
      sym (ap (λ p. image_key p.1) same) ∙ e ∙ ap (λ p. p.0) same
  entry_key false j k f h e q = cc

  -- Sorted findings with a key: those of the dict, and so the first that the entries give.
  pub filter-sorted {ℓ} :
      {A : Type ℓ} (before : Finding F → Finding F → Bool)
      (entry : A → Option (DedupKey × Finding F)) (entries : List A)
      → ((a : A) (k : DedupKey) (f : Finding F) → entry a ≡ some (k, f) → image_key f ≡ k)
      → (k : DedupKey)
      → filter (λ f. k == image_key f) (sort before (values (merge entry entries [])))
        ≡ at_most_one (first_of entry k entries)
  filter-sorted before entry entries h k =
      let found = filter-merge image_key entry entries h k in
      filter-sort_single before (λ f. k == image_key f) (values (merge entry entries []))
        (subst (λ fs. length fs ≤ 1) (sym found) (length-at_most_one (first_of entry k entries)))
      ∙ found
