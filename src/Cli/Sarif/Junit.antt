-- ===== src/Cli/Sarif/Junit.antt =====
-- The counts of the JUnit report of control-plane/app/cli.py.
use kaaval.Base.{
  ◌≡◌, refl, sym, ap, true, List, [], ◌∷◌, map, length, filter, is_some, suc, nonempty, string_eq,
}
use kaaval.Floats.{Floats}
use kaaval.Finding.{Finding}
use kaaval.Cli.Export.{Row, finding_row, finding_rows}
use kaaval.Cli.Sarif.{ScanType, junit_case, print_junit}

length-map {ℓ κ} :
    {A : Type ℓ} {B : Type κ} (f : A → B) (xs : List A) → length (map f xs) ≡ length xs
length-map f [] = refl
length-map f (x ∷ xs) = ap suc (length-map f xs)

cases_count :
    {F : Floats} (scan_type : ScanType) (rows : List (Row F))
    → length (filter (λ c. is_some c.failure) (map (junit_case F scan_type) rows)) ≡ length rows
unfolding junit_case filter
cases_count scan_type [] = refl
cases_count scan_type (row ∷ rows) = ap suc (cases_count scan_type rows)

-- The counts of the JUnit report are those of its testcases and of the failures among them, one failure
-- for each finding; there is always a testcase.
pub print_junit_counts :
    {F : Floats} (scan_type : ScanType) (fs : List (Finding F))
    → ((print_junit F scan_type fs).tests ≡ length (print_junit F scan_type fs).cases)
      × ((print_junit F scan_type fs).failures
          ≡ length (filter (λ c. is_some c.failure) (print_junit F scan_type fs).cases))
      × ((print_junit F scan_type fs).failures ≡ length fs)
      × (nonempty (print_junit F scan_type fs).cases ≡ true)
unfolding print_junit finding_rows filter
print_junit_counts scan_type [] = (refl, refl, refl, refl)
print_junit_counts scan_type (f ∷ fs) = (
  ap suc (sym (length-map (junit_case _ scan_type) (map (finding_row _) fs))),
  ap suc (sym (cases_count scan_type (map (finding_row _) fs))),
  ap suc (length-map (finding_row _) fs),
  refl,
)
