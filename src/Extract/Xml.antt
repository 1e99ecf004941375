-- ===== src/Extract/Xml.antt =====
-- internal/extract/xml.go: the rules, the columns and the rows of an XML file. The paths of xmlpath
-- and the texts that one gives in a document are parameters.
pub mod Rows
use churro.Common.{
  ℕ, zero, suc, String, List, [], ◌∷◌, map, Option, none, some, ◌==◌, if◌then◌else◌, length,
  get_elem?,
}
use churro.Common.Action.{Result, ok, err}
use churro.Domain.{ExtractRule}
use churro.Domain.Scheme.{xml}

-- An entry is put before the others, if there are such.
abbrev pub cons_some : {A : Type 0} → Option A → Option (List A) → Option (List A)
cons_some none l = none
cons_some (some a) none = none
cons_some (some a) (some l) = some (a ∷ l)

-- `cols[c][rec]` over the columns: `none` for the panic of an index out of range.
abbrev pub row_at : ℕ → List (List String) → Option (List String)
row_at rec [] = some []
row_at rec (col ∷ cols) = cons_some (get_elem? col rec) (row_at rec cols)

-- The rows from a record on, as many as are left.
abbrev pub rows_from : ℕ → ℕ → List (List String) → Option (List (List String))
rows_from zero rec cols = some []
rows_from (suc left) rec cols = cons_some (row_at rec cols) (rows_from left (suc rec) cols)

-- As many rows as the first column has texts.
abbrev pub xml_rows : List (List String) → Option (List (List String))
xml_rows [] = some []
xml_rows (col ∷ cols) = rows_from (length col) 0 (col ∷ cols)

-- `extractapi.GenericFormat` as `getXMLFormat` fills it
pub record XmlFormat : Type 0 where
  pub column_names : List String
  pub column_types : List String
  pub records : Option (List (List String))

module _ {P : Type 0} (compile : String → Result P) where
  -- The rules up to the first whose path does not compile.
  abbrev pub compiled_rules : List ExtractRule → List (ExtractRule × P)
  compiled_rules [] = []
  compiled_rules (r ∷ l) =
      let rest = compiled_rules l in
      elim (compile r.column_path) [ ok p ↦ (r, p) ∷ rest | err e ↦ [] ]

  abbrev pub get_xml_rules : String → List ExtractRule → List (ExtractRule × P)
  get_xml_rules scheme rules = if scheme == xml then compiled_rules rules else []

-- The texts of each rule's path.
abbrev pub columns_of :
    {P : Type 0} → (P → List String) → List (ExtractRule × P) → List (List String)
columns_of get_column rules = map (λ r. get_column r.1) rules

abbrev pub get_xml_format : {P : Type 0} → (P → List String) → List (ExtractRule × P) → XmlFormat
get_xml_format get_column rules = record {
  column_names = map (λ r. r.0.column_name) rules;
  column_types = map (λ r. "TEXT") rules;
  records = xml_rows (columns_of get_column rules);
}
