-- ===== src/Extract/Xml/Rows.antt =====
-- The rows of an XML file are its columns, transposed.
use mathlib.Core.Option.{none-ne-some, some-injective}
use churro.Common.{
  ℕ, zero, suc, ◌+◌, ◌≤◌, ◌<◌, String, List, [], ◌∷◌, some, ◌≡◌, refl, sym, ap, ◌∙◌, length,
  get_elem?, arith,
}
use churro.Domain.{ExtractRule}
use churro.Extract.Xml.{row_at, rows_from, columns_of, get_xml_format}

-- Each column has that many texts.
abbrev pub Filled : ℕ → List (List String) → Type 0
Filled n [] = Unit
Filled n (col ∷ cols) = (n ≤ length col) × Filled n cols

Filled-weaken : (n m : ℕ) (cols : List (List String)) → n ≤ m → Filled m cols → Filled n cols
Filled-weaken n m [] h f = tt
Filled-weaken n m (col ∷ cols) h (f, fs) = (omega (arith, h, f), Filled-weaken n m cols h fs)

-- The row has a text for each column: that of the column at the record.
abbrev pub IsRow : ℕ → List (List String) → List String → Type 0
IsRow rec cols row =
    (length row ≡ length cols)
    × ((c : ℕ) (col : List String)
        → get_elem? cols c ≡ some col
        → get_elem? row c ≡ get_elem? col rec)

get_elem?-inside :
    (l : List String) (i : ℕ) → i < length l → (v : String) × (get_elem? l i ≡ some v)
get_elem?-inside [] i h = absurd (omega (arith, h))
get_elem?-inside (x ∷ l) zero h = (x, refl)
get_elem?-inside (x ∷ l) (suc i) h = get_elem?-inside l i (omega (arith, h))

cons-IsRow :
    (rec : ℕ) (col : List String) (cols : List (List String)) (v : String) (row : List String)
    → get_elem? col rec ≡ some v
    → IsRow rec cols row
    → IsRow rec (col ∷ cols) (v ∷ row)
cons-IsRow rec col cols v row e (n, is_row) = (ap suc n, at)
  where
    at :
        (c : ℕ) (col' : List String)
        → get_elem? (col ∷ cols) c ≡ some col'
        → get_elem? (v ∷ row) c ≡ get_elem? col' rec
    at zero col' h = sym e ∙ ap (λ x. get_elem? x rec) (some-injective col col' h)
    at (suc c) col' h = is_row c col' h

row_at-IsRow :
    (rec : ℕ) (cols : List (List String))
    → Filled (suc rec) cols
    → (row : List String) × ((row_at rec cols ≡ some row) × IsRow rec cols row)
row_at-IsRow rec [] f = ([], (refl, (refl, λ c col h. absurd (none-ne-some col h))))
row_at-IsRow rec (col ∷ cols) (f, fs) =
    let (v, e) = get_elem?-inside col rec (omega (arith, f)) in
    let (row, (g, is_row)) = row_at-IsRow rec cols fs in
    (v ∷ row, (rw (e, g) refl, cons-IsRow rec col cols v row e is_row))

-- The rows are those of the records from one on.
abbrev pub AreRows : ℕ → List (List String) → List (List String) → Type 0
AreRows rec cols [] = Unit
AreRows rec cols (row ∷ rows) = IsRow rec cols row × AreRows (suc rec) cols rows

rows_from-AreRows :
    (left rec : ℕ) (cols : List (List String))
    → Filled (left + rec) cols
    → (rows : List (List String)) × ((rows_from left rec cols ≡ some rows)
        × ((length rows ≡ left) × AreRows rec cols rows))
rows_from-AreRows zero rec cols f = ([], (refl, (refl, tt)))
rows_from-AreRows (suc left) rec cols f =
    let first = Filled-weaken (suc rec) (suc left + rec) cols omega (arith) f in
    let (row, (g, is_row)) = row_at-IsRow rec cols first in
    let later = Filled-weaken (left + suc rec) (suc left + rec) cols omega (arith) f in
    let (rows, (h, (n, are))) = rows_from-AreRows left (suc rec) cols later in
    (row ∷ rows, (rw (g, h) refl, (ap suc n, (is_row, are))))

-- Where each rule's path gives at least as many texts in the document as the first rule's does,
-- the format has a record for each text of the first path, and the record at a place has, for
-- each rule in order, the text of the rule's path at that place.
pub get_xml_format_lem :
    {P : Type 0} (get_column : P → List String) (r : ExtractRule × P) (l : List (ExtractRule × P))
    → Filled (length (get_column r.1)) (columns_of get_column (r ∷ l))
    → (rows : List (List String)) × (((get_xml_format get_column (r ∷ l)).records ≡ some rows)
        × ((length rows ≡ length (get_column r.1))
            × AreRows 0 (columns_of get_column (r ∷ l)) rows))
get_xml_format_lem get_column r l f =
    rows_from-AreRows (length (get_column r.1)) 0 (columns_of get_column (r ∷ l)) (
      Filled-weaken (length (get_column r.1) + 0) (length (get_column r.1))
        (columns_of get_column (r ∷ l)) omega (arith) f)
