-- ===== src/Extract/Loader/Counts.antt =====
-- The statistics against the rows that are stored.
use churro.Common.{ℕ, ◌+◌, ◌≤◌, String, List, length, ◌≡◌}
use churro.Common.Int.{ℤ}
use churro.Common.Action.{ok, Action}
use churro.Common.Ensures.{Ends, Ensures}
use churro.Domain.Scheme
use churro.Domain.{JobProfile}
use churro.Transform.{Cells}
use churro.Extract.Loader.{Row, LoaderMessage, PipelineStats, LoaderDb, Loader}

module _ {S : Type 0} (stored counted : S → ℕ) where
  -- A state against an earlier one: at least so many rows more, and at most so many records counted more.
  abbrev pub Adds : ℕ → ℕ → S → S → Type 0
  Adds rows records s t = (stored s + rows ≤ stored t) × (counted t ≤ counted s + records)

  -- What is relied on of the rows and the statistics of a database. A call that fails is carried out or
  -- not. The back ends differ in what an update of the statistics counts: all its records, or none where
  -- no row of the pipeline is there to be updated or the back end keeps no statistics.
  pub record Counting (db : LoaderDb S) : Type 0 where
    pub bulk :
        (scheme database table : String) (names : List String) (rows : List Row)
        (types : List String) (s : S)
        → Ends
            (λ _. Adds (length rows) 0 s)
            (Adds 0 0 s)
            (db.get_bulk_insert_statement scheme database table names rows types s)
    pub insert :
        (scheme database table : String) (names : List String) (cols : Cells) (key : ℤ) (s : S)
        → Ends
            (λ _. Adds 1 0 s)
            (Adds 0 0 s)
            (db.get_insert_statement scheme database table names cols key s)
    pub stats :
        (p : PipelineStats) (s : S)
        → Ends (λ _. Adds 0 p.records_in s) (Adds 0 p.records_in s) (db.update_pipeline_stats p s)
    pub get_log :
        (id : String) (s : S) → Ends (λ _. Adds 0 0 s) (Adds 0 0 s) (db.get_extract_log_by_id id s)
    pub update_log :
        (p : JobProfile) (s : S) → Ends (λ _. Adds 0 0 s) (Adds 0 0 s) (db.update_extract_log p s)

  -- The extensions have nothing to do with them.
  abbrev pub Aside : Loader S → Type 0
  Aside server =
      (path : String) (push : LoaderMessage → Action S (Unit {0}))
      → server.connect_extension path ≡ ok push
      → (elem : LoaderMessage) (s : S) → Ends (λ _. Adds 0 0 s) (Adds 0 0 s) (push elem s)

  -- So many rows more than counted, at least
  abbrev pub Spare : ℕ → S → Type 0
  Spare n s = counted s + n ≤ stored s
