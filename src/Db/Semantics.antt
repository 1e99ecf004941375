-- ===== src/Db/Semantics.antt =====
-- What the code relies on of a database: the documented effect of a statement on tables, whose rows
-- give each column a text or NULL. A statement may always fail, and then it is carried out or not: an
-- error can also mean that its outcome is not known. The order in which rows are delivered is the
-- database's own, and their reading may break off at any row.
use mathlib.Core.List.{Permᴰ}
use churro.Common.{
  Bool, true, false, ◌&&◌, String, List, [], ◌∷◌, ◌++◌, map, Option, none, some, ◌==◌,
  if◌then◌else◌, ◌≡◌, ◌⊎◌,
}
use churro.Common.Action.{Result, ok, err}
use churro.Db.{
  Term, param, quoted, Terms, Join, Statement, insert, insert_returning, update, delete, select,
  select_joined, Rows, Engine,
}

abbrev pub Row : Type 0
Row = String → Option String

abbrev pub Tables : Type 0
Tables = String → List Row

abbrev pub text_of : Term → String
text_of (param x) = x
text_of (quoted x) = x

-- Columns with their texts, however these come into the statement
abbrev pub Texts : Type 0
Texts = List (String × String)

abbrev pub texts : Terms → Texts
texts [] = []
texts ((k, t) ∷ l) = (k, text_of t) ∷ texts l

abbrev pub new_row : Texts → Row
new_row [] c = none
new_row ((k, x) ∷ l) c = if k == c then some x else new_row l c

abbrev pub changed_row : Texts → Row → Row
changed_row [] row c = row c
changed_row ((k, x) ∷ l) row c = if k == c then some x else changed_row l row c

abbrev pub columns_of : List String → Row → List (Option String)
columns_of columns row = map row columns

-- `same` is the collation, by which two texts are equal.
module _ (same : String → String → Bool) where
  -- NULL equals nothing.
  abbrev pub same_text : Option String → Option String → Bool
  same_text (some x) (some y) = same x y
  same_text _ _ = false

  abbrev pub matches : Texts → Row → Bool
  matches [] row = true
  matches ((k, x) ∷ l) row = same_text (row k) (some x) && matches l row

  abbrev pub set_table : String → List Row → Tables → Tables
  set_table name rows tables n = if name == n then rows else tables n

  -- The rows that a change leaves
  abbrev pub changed_rows : Texts → Texts → List Row → List Row
  changed_rows sets condition [] = []
  changed_rows sets condition (row ∷ rows) =
      (if matches condition row then changed_row sets row else row)
      ∷ changed_rows sets condition rows

  abbrev pub chosen : Texts → List Row → List Row
  chosen condition [] = []
  chosen condition (row ∷ rows) =
      let rest = chosen condition rows in if matches condition row then row ∷ rest else rest

  abbrev pub left_over : Texts → List Row → List Row
  left_over condition [] = []
  left_over condition (row ∷ rows) =
      let rest = left_over condition rows in if matches condition row then rest else row ∷ rest

  -- For a row of the first table, its copies: one for each fitting row of the second.
  abbrev pub partners : Join → Row → List Row → List Row
  partners j row [] = []
  partners j row (other ∷ others) =
      let rest = partners j row others in
      if same_text (row j.first_key) (other j.second_key) && matches (texts j.condition) other
      then row ∷ rest
      else rest

  abbrev pub joined : Join → List Row → List Row → List Row
  joined j [] others = []
  joined j (row ∷ rows) others = partners j row others ++ joined j rows others

  abbrev pub after : Statement → Tables → Tables
  after (insert table terms) t = set_table table (t table ++ (new_row (texts terms) ∷ [])) t
  after (insert_returning table terms _) t =
      set_table table (t table ++ (new_row (texts terms) ∷ [])) t
  after (update table sets condition) t =
      set_table table (changed_rows (texts sets) (texts condition) (t table)) t
  after (delete table condition) t = set_table table (left_over (texts condition) (t table)) t
  after (select _ _ _) t = t
  after (select_joined _) t = t

  abbrev pub delivered : Statement → Tables → Rows
  delivered (insert _ _) t = []
  delivered (insert_returning _ terms column) t = (new_row (texts terms) column ∷ []) ∷ []
  delivered (update _ _ _) t = []
  delivered (delete _ _) t = []
  delivered (select columns table condition) t =
      map (columns_of columns) (chosen (texts condition) (t table))
  delivered (select_joined j) t = map (columns_of j.columns) (joined j (t j.first) (t j.second))

-- A text that stands between quotes as it is
module _ (plain : String → Bool) where
  abbrev pub inert_terms : Terms → Bool
  inert_terms [] = true
  inert_terms ((_, param _) ∷ l) = inert_terms l
  inert_terms ((_, quoted x) ∷ l) = plain x && inert_terms l

  abbrev pub inert : Statement → Bool
  inert (insert _ terms) = inert_terms terms
  inert (insert_returning _ terms _) = inert_terms terms
  inert (update _ sets condition) = inert_terms sets && inert_terms condition
  inert (delete _ condition) = inert_terms condition
  inert (select _ _ condition) = inert_terms condition
  inert (select_joined j) = inert_terms j.condition

-- All of a list in some order, or a part of it if the reading breaks off.
abbrev pub Reads : Option String → Rows → Rows → Type 0
Reads none rows all = Permᴰ rows all
Reads (some _) rows all = (rest : Rows) × Permᴰ (rows ++ rest) all

-- How a statement may end, from the tables before to those afterwards.
abbrev pub Ran :
    (String → String → Bool) → Statement → Option String → Tables → Result Rows → Tables → Type 0
Ran same st cut t (err _) t' = (t' ≡ t) ⊎ (t' ≡ after same st t)
Ran same st cut t (ok rows) t' = (t' ≡ after same st t) × Reads cut rows (delivered same st t)

-- The database runs each statement whose quoted texts end where they are meant to.
pub record Understands (engine : Engine) : Type 0 where
  pub tables : engine.State → Tables
  pub plain : String → Bool
  pub same : String → String → Bool
  pub runs :
      (st : Statement) (s : engine.State)
      → inert plain st ≡ true
      → Ran same st
          (engine.interrupted st s)
          (tables s)
          (engine.exec st s).0
          (tables (engine.exec st s).1)
