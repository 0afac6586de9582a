-- ===== src/Cve/JsonFeed.antt =====
-- control-plane/app/cve_service.py: `_parse_json_feed`, `_detect_and_parse` and their helpers. The
-- decoding of a JSON text is a parameter.
use kaaval.Base.{
  ◌≡◌, refl, ℕ, String, Bool, not, ◌&&◌, ◌||◌, Option, none, some, List, [], ◌∷◌, ◌++◌,
  if◌then◌else◌, get_or, is_some, contains, string_eq,
}
use kaaval.Base.Text.{upper, strip, is_text}
use kaaval.Base.Parsing.{take_chars}
use kaaval.Base.Regex.{
  Class, Piece, one, many, lazy, optional, choice, open_group, close_group, digit, space, word,
  this, literal, either_case, any_char, search_in, find_group, erase_matches,
}
use kaaval.Floats.{Floats}
use kaaval.Cve.Osv.{OsvAffected, Component, parse_osv_affected}
use kaaval.Cve.Entry.{Link, Entry, Python, parse_iso, base_score}
use kaaval.Cve.Nvd.{NvdCve, parse_nvd}
use kaaval.Cve.OsvFeed.{Vuln, parse_osv, cons_entry, severity_from}

-- An element of "items"
pub record Item : Type 0 where
  pub id : Option String
  pub summary : Option String
  pub title : Option String
  pub content_text : Option String
  pub content_html : Option String
  pub url : Option String
  pub external_url : Option String
  pub date_published : Option String
  pub date_modified : Option String

-- `<[^>]+>`
abbrev tag_re : List Piece
tag_re =
    one (this "<")
    ∷ one (λ c. not (this ">" c))
    ∷ many (λ c. not (this ">" c))
    ∷ one (this ">")
    ∷ []

unfoldable pub strip_html : String → String
unfolding erase_matches strip
strip_html s = strip (erase_matches tag_re s)

-- `CVE-\d{4}-\d+`
abbrev cve_id_re : List Piece
cve_id_re =
    open_group
    ∷ literal this "CVE-" (
        one digit
        ∷ one digit
        ∷ one digit
        ∷ one digit
        ∷ one (this "-")
        ∷ one digit
        ∷ many digit
        ∷ close_group
        ∷ [])

unfoldable pub cve_id_of : String → String
unfolding find_group
cve_id_of raw_id = get_or (find_group cve_id_re raw_id) raw_id

-- "```json\s+osv\s*(.*?)```"
abbrev osv_block_re : List Piece
osv_block_re = literal either_case "```json" (
    one space
    ∷ many space
    ∷ literal either_case "osv"
        (many space ∷ open_group ∷ lazy any_char ∷ close_group ∷ literal either_case "```" []))

-- `[\d.]`
abbrev digit_or_dot : Class
digit_or_dot c = digit c || this "." c

-- `CVSS[^:]*?(?:Rating)?[:\s]+(?:\[)?(?:[\d.]{3,4})\s*\((\w+)\)`
abbrev rating_re : List Piece
rating_re = literal either_case "CVSS" (
    lazy (λ c. not (this ":" c))
    ∷ choice ("Rating" ∷ "" ∷ [])
    ∷ one (λ c. this ":" c || space c)
    ∷ many (λ c. this ":" c || space c)
    ∷ optional (this "[")
    ∷ one digit_or_dot
    ∷ one digit_or_dot
    ∷ one digit_or_dot
    ∷ optional digit_or_dot
    ∷ many space
    ∷ one (this "(")
    ∷ open_group
    ∷ one word
    ∷ many word
    ∷ close_group
    ∷ one (this ")")
    ∷ [])

-- `(\d+\.\d+)\s*\((?:Critical|High|Medium|Low)\)`
abbrev numeric_re : List Piece
numeric_re =
    open_group
    ∷ one digit
    ∷ many digit
    ∷ one (this ".")
    ∷ one digit
    ∷ many digit
    ∷ close_group
    ∷ many space
    ∷ one (this "(")
    ∷ choice ("Critical" ∷ "High" ∷ "Medium" ∷ "Low" ∷ [])
    ∷ one (this ")")
    ∷ []

-- What is read of the embedded OSV record.
pub record OsvBlock : Type 0 where
  pub affected : List OsvAffected
  pub severity_scores : List (Option String)

-- `_extract_osv_from_content`, over `json.loads`
unfoldable pub extract_osv : (String → Option OsvBlock) → String → Option OsvBlock
unfolding find_group strip
extract_osv loads content_text = elim (find_group osv_block_re content_text) [
  | none ↦ none
  | some block ↦ loads (strip block)
]

-- `_parse_osv_affected(osv)` where there is a record, and else two empty lists.
unfoldable pub embedded_affected : Option OsvBlock → Option (List Component × List String)
unfolding parse_osv_affected
embedded_affected none = some ([], [])
embedded_affected (some osv) = parse_osv_affected osv.affected

unfoldable pub severity_word : String → String
unfolding upper contains
severity_word found =
    let sev_word = upper found in
    if contains ("CRITICAL" ∷ "HIGH" ∷ "MEDIUM" ∷ "LOW" ∷ []) sev_word then sev_word else "UNKNOWN"

-- `if url: refs.append(...)`
abbrev advisory : Option String → List Link
advisory none = []
advisory (some url) = if is_text url then record { url = url; kind = "ADVISORY" } ∷ [] else []

abbrev or_score {ℓ} : {A : Type ℓ} → Option A → Option A → Option A
or_score none b = b
or_score (some a) b = some a

module _ (F : Floats) where
  -- The loop over "severity": the last score that can be read stays.
  unfoldable pub last_score : Python F → Option F.Float → List (Option String) → Option F.Float
  unfolding base_score
  last_score py score [] = score
  last_score py score (s ∷ scores) =
      last_score py (or_score (base_score F py (get_or s "")) score) scores

  abbrev scores_of : Option OsvBlock → List (Option String)
  scores_of none = []
  scores_of (some osv) = osv.severity_scores

  -- The score and the severity that stand in the text.
  unfoldable pub rating_in_text : Python F → String → Option F.Float × String
  unfolding find_group severity_word
  rating_in_text py content_clean =
      let severity : String = elim (find_group rating_re content_clean) [
        | none ↦ "UNKNOWN"
        | some sev_word ↦ severity_word sev_word
      ] in
      elim (find_group numeric_re content_clean) [
        | none ↦ (none, severity)
        | some number ↦ (py.to_float number, severity)
      ]

  -- The score of the embedded record, or else what the text says.
  unfoldable pub item_rating : Python F → Option OsvBlock → String → Option F.Float × String
  unfolding last_score rating_in_text
  item_rating py osv content_clean = elim (last_score py none (scores_of osv)) [
    | some score ↦ (some score, "UNKNOWN")
    | none ↦ rating_in_text py content_clean
  ]

  unfoldable pub item_entry :
      Python F → ℕ → Item → Option OsvBlock → List Component × List String → Entry F
  unfolding cve_id_of strip_html item_rating severity_from parse_iso take_chars
  item_entry py feed_id item osv (affected_components, fixed_versions) =
      let cve_id = cve_id_of (get_or item.id "") in
      let content_clean = strip_html (get_or item.content_text (get_or item.content_html "")) in
      let (cvss_score, severity) = item_rating py osv content_clean in
      record {
        feed_id = feed_id;
        cve_id = cve_id;
        title = take_chars 500 (get_or item.summary (get_or item.title cve_id));
        description = take_chars 2000 content_clean;
        severity = severity_from F severity cvss_score;
        cvss_score = cvss_score;
        affected_components = affected_components;
        fixed_in = py.in_set fixed_versions;
        published_date = parse_iso F py item.date_published;
        modified_date = parse_iso F py item.date_modified;
        references = advisory item.url ++ advisory item.external_url;
      }

  unfoldable pub parse_item : Python F → (String → Option OsvBlock) → ℕ → Item → Option (Entry F)
  unfolding extract_osv embedded_affected item_entry
  parse_item py loads feed_id item =
      let osv = extract_osv loads (get_or item.content_text (get_or item.content_html "")) in
      elim (embedded_affected osv) [
        | none ↦ none
        | some parsed ↦ some (item_entry py feed_id item osv parsed)
      ]

  unfoldable pub parse_json_feed :
      Python F → (String → Option OsvBlock) → List Item → ℕ → Option (List (Entry F))
  unfolding parse_item
  parse_json_feed py loads [] feed_id = some []
  parse_json_feed py loads (item ∷ items) feed_id =
      cons_entry F (parse_item py loads feed_id item) (parse_json_feed py loads items feed_id)

  -- A decoded feed: the values at its keys, `none` where the key is missing, and the document itself as
  -- an OSV record.
  pub record Document : Type 0 where
    pub vulnerabilities : Option (List (NvdCve F))
    pub vulns : Option (List (Vuln F))
    pub has_affected : Bool
    pub has_references : Bool
    pub single : Vuln F
    pub items : Option (List Item)

  -- `none` is an exception of a parser.
  unfoldable pub detect_and_parse :
      Python F → (String → Option OsvBlock) → Document → ℕ → Option (List (Entry F))
  unfolding parse_nvd parse_osv parse_json_feed
  detect_and_parse py loads doc feed_id = elim doc.vulnerabilities [
    | some cves ↦ some (parse_nvd F py cves feed_id)
    | none ↦
        if is_some doc.vulns || (is_some doc.single.id && (doc.has_affected && doc.has_references))
        then parse_osv F py doc.vulns doc.single feed_id
        else (elim doc.items [
          | some items ↦ parse_json_feed py loads items feed_id
          | none ↦ some []
        ])
  ]

cve_id_test : cve_id_of "see CVE-2024-12345 (k8s)" ≡ "CVE-2024-12345"
unfolding cve_id_of find_group search_in
cve_id_test = refl

extract_test :
    find_group osv_block_re "text ```JSON  osv\n{ \"id\": 1 }``` and ```" ≡ some "{ \"id\": 1 }"
unfolding find_group search_in space either_case
extract_test = refl

rating_test : find_group rating_re "CVSS Rating: [9.8 (Critical)" ≡ some "Critical"
unfolding find_group search_in space either_case
rating_test = refl

numeric_test : find_group numeric_re "score 9.8 (critical)" ≡ some "9.8"
unfolding find_group search_in space either_case
numeric_test = refl
