-- ===== src/Tests/Xml.antt =====
-- Two columns of an XML file.
use churro.Common.{String, List, [], ◌∷◌, some, none, ◌==◌, if◌then◌else◌, ◌≡◌, refl, length, arith}
use churro.Domain.{ExtractRule}
use churro.Extract.Xml.{columns_of, get_xml_format, xml_rows}
use churro.Extract.Xml.Rows.{AreRows, get_xml_format_lem}

abbrev rule_at : String → ExtractRule
rule_at path = record {
  id = path;
  extract_source_id = "s1";
  column_name = path;
  column_path = path;
  column_type = "TEXT";
  match_values = "";
  transform_function = "";
}

-- The texts of a path in a document of two orders, one of them with two notes.
abbrev texts : String → List String
texts path = if path == "city" then "Rome" ∷ "Oslo" ∷ [] else "a" ∷ "b" ∷ "c" ∷ []

get_xml_format_lem_example :
    (rows : List (List String)) × (((get_xml_format texts
          ((rule_at "city", "city") ∷ (rule_at "note", "note") ∷ [])).records
        ≡ some rows)
      × ((length rows ≡ length (texts "city"))
          × AreRows 0
              (columns_of texts ((rule_at "city", "city") ∷ (rule_at "note", "note") ∷ []))
              rows))
get_xml_format_lem_example =
    get_xml_format_lem texts (rule_at "city", "city") ((rule_at "note", "note") ∷ [])
      (omega arith, (omega arith, tt))

-- The third note is in no row.
xml_rows_lost :
    xml_rows (texts "city" ∷ texts "note" ∷ [])
    ≡ some (("Rome" ∷ "a" ∷ []) ∷ ("Oslo" ∷ "b" ∷ []) ∷ [])
xml_rows_lost = refl

-- A column that is shorter than the first is read past its end.
xml_rows_short : xml_rows (texts "note" ∷ texts "city" ∷ []) ≡ none
xml_rows_short = refl
