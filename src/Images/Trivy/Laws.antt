-- ===== src/Images/Trivy/Laws.antt =====
-- What `parse` of control-plane/app/trivy_adapter.py keeps of a report.
use kaaval.Base.{
  ◌≡◌, refl, sym, ap, ◌∙◌, String, ◌&&◌, Option, none, some, List, [], ◌∷◌, get_or, flat_map,
  filter, ◌==◌, string_eq, pair_eq,
}
use kaaval.Base.Dict.{Dict, values}
use kaaval.Base.Sort.{IsSorted, sort-IsSorted, sort}
use kaaval.Base.Text.{show, truthy, lower}
use kaaval.Floats.{Floats, IsOrdered}
use kaaval.Scoring.{Context}
use kaaval.Finding.{Finding}
use kaaval.Rbac.Findings.{ranks_before}
use kaaval.Rbac.Findings.Origin.{ranks_before-IsOrder}
use kaaval.Images.Common.{DedupKey}
use kaaval.Images.Common.Laws.{image_key, entry_key, filter-sorted}
use kaaval.Images.Merge.{merge}
use kaaval.Images.Merge.Laws.{first_of, at_most_one, merge-append}
use kaaval.Images.Trivy.{Vulnerability, Report, finding, entry, merge_results, parse}

module _ (F : Floats) (c : Context) where
  finding-key :
      (image : String) (v : Vulnerability F) (cve_id pkg_name : String)
      → image_key F (finding F c image v cve_id pkg_name) ≡ (cve_id, (image, lower pkg_name))
  unfolding finding
  finding-key image v cve_id pkg_name = refl

  entry-Keyed :
      (image : String) (v : Vulnerability F) (k : DedupKey) (f : Finding F)
      → entry F c image v ≡ some (k, f)
      → image_key F f ≡ k
  unfolding entry
  entry-Keyed image v k f =
      entry_key F (truthy v.vulnerability_id && truthy v.pkg_name) _ k _ f
        (finding-key image v (show v.vulnerability_id) (show v.pkg_name))

  -- All vulnerabilities of a report, in its order.
  abbrev pub vulnerabilities : Report F → List (Vulnerability F)
  vulnerabilities report = flat_map (λ vs. vs) report.results

  merge_results-merge :
      (image : String) (results : List (List (Vulnerability F))) (d : Dict DedupKey (Finding F))
      → merge_results F c image results d ≡ merge (entry F c image) (flat_map (λ vs. vs) results) d
  unfolding merge_results flat_map merge
  merge_results-merge image [] d = refl
  merge_results-merge image (vs ∷ results) d =
      merge_results-merge image results (merge (entry F c image) vs d)
      ∙ sym (merge-append (entry F c image) vs (flat_map (λ vs. vs) results) d)

  -- The findings with a given CVE, image and component are the finding of the first well-formed entry
  -- of the report that has them, if there is one, and else none, in whichever "Results" it stands.
  pub trivy_parse_dedup :
      (report : Report F) (k : DedupKey)
      → filter (λ f. k == image_key F f) (parse F (some report) c)
        ≡ at_most_one (
            first_of (entry F c (get_or report.artifact_name "unknown")) k (vulnerabilities report))
  unfolding parse
  trivy_parse_dedup report k =
      let image = get_or report.artifact_name "unknown" in
      ap (λ d. filter (λ f. k == image_key F f) (sort (ranks_before F) (values d)))
        (merge_results-merge image report.results [])
      ∙ filter-sorted F (ranks_before F) (entry F c image) (vulnerabilities report)
          (entry-Keyed image) k

  pub parse_ranked :
      (o : IsOrdered F) (report : Option (Report F)) → IsSorted (ranks_before F) (parse F report c)
  unfolding parse
  parse_ranked o none = tt
  parse_ranked o (some report) = sort-IsSorted (ranks_before F) (ranks_before-IsOrder F o) _
