-- ===== src/Images/Grype/Laws.antt =====
-- What `parse` of control-plane/app/grype_adapter.py keeps of a report.
use kaaval.Base.{◌≡◌, refl, String, ◌&&◌, Option, none, some, filter, ◌==◌, string_eq, pair_eq}
use kaaval.Base.Sort.{IsSorted, sort-IsSorted}
use kaaval.Base.Text.{show, truthy, lower}
use kaaval.Floats.{Floats, IsOrdered}
use kaaval.Scoring.{Context}
use kaaval.Finding.{Finding}
use kaaval.Rbac.Findings.{ranks_before}
use kaaval.Rbac.Findings.Origin.{ranks_before-IsOrder}
use kaaval.Images.Common.{DedupKey}
use kaaval.Images.Common.Laws.{image_key, entry_key, filter-sorted}
use kaaval.Images.Merge.Laws.{first_of, at_most_one}
use kaaval.Images.Grype.{Match, Report, finding, entry, image_name, parse}

module _ (F : Floats) (c : Context) where
  finding-key :
      (image : String) (m : Match F) (cve_id pkg_name : String)
      → image_key F (finding F c image m cve_id pkg_name) ≡ (cve_id, (image, lower pkg_name))
  unfolding finding
  finding-key image m cve_id pkg_name = refl

  entry-Keyed :
      (image : String) (m : Match F) (k : DedupKey) (f : Finding F)
      → entry F c image m ≡ some (k, f)
      → image_key F f ≡ k
  unfolding entry
  entry-Keyed image m k f =
      entry_key F (truthy m.vulnerability_id && truthy m.artifact_name) _ k _ f
        (finding-key image m (show m.vulnerability_id) (show m.artifact_name))

  -- The findings with a given CVE, image and component are the finding of the first well-formed entry
  -- of the report that has them, if there is one, and else none.
  pub grype_parse_dedup :
      (report : Report F) (k : DedupKey)
      → filter (λ f. k == image_key F f) (parse F (some report) c)
        ≡ at_most_one (first_of (entry F c (image_name report.target)) k report.matches)
  unfolding parse
  grype_parse_dedup report k =
      filter-sorted F (ranks_before F) (entry F c (image_name report.target)) report.matches
        (entry-Keyed (image_name report.target)) k

  pub parse_ranked :
      (o : IsOrdered F) (report : Option (Report F)) → IsSorted (ranks_before F) (parse F report c)
  unfolding parse
  parse_ranked o none = tt
  parse_ranked o (some report) = sort-IsSorted (ranks_before F) (ranks_before-IsOrder F o) _
