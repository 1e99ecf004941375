-- ===== src/Extract/Loader.antt =====
-- internal/extract/loader.go and extension.go: what is done with a message of extracted records. The
-- database is the interface `ChurroDatabase` of internal/db/churrodb.go with the calls that are made of
-- it, whose statements in the back ends are not modelled; the decoding of JSON and the connections to
-- the extensions are parameters. Errors are logged, and a log is left out.
pub mod Counts
use churro.Common.{ℕ, String, List, [], ◌∷◌, length, some, ◌+◌, ◌==◌, is_nil, if◌then◌else◌}
use churro.Common.Int.{ℤ}
use churro.Common.Action.{Result, ok, err, Action, give, panic, of_result, rescue, ◌>>=◌, ◌>>◌}
use churro.Domain.{JobProfile}
use churro.Domain.Scheme
use churro.Transform.{Cells}

-- `GenericRow`
pub record Row : Type 0 where
  pub key : ℤ
  pub cols : Cells

pub record GenericFormat : Type 0 where
  pub path : String
  pub dataprov : String
  pub tablename : String
  pub pipeline_name : String
  pub column_names : List String
  pub column_types : List String
  pub records : List Row

pub record RawFormat : Type 0 where
  pub path : String
  pub dataprov : String
  pub column_names : List String
  pub column_types : List String
  pub message : String
  pub records : List Row

pub record LoaderMessage : Type 0 where
  pub key : ℤ
  pub metadata : String
  pub data_format : String

pub record PipelineStats : Type 0 where
  pub dataprov_id : String
  pub pipeline : String
  pub file_name : String
  pub records_in : ℕ

pub record LoaderDb (S : Type 0) : Type 0 where
  pub get_bulk_insert_statement :
      String → String → String → List String → List Row → List String → Action S (Unit {0})
  pub get_insert_statement :
      String → String → String → List String → Cells → ℤ → Action S (Unit {0})
  pub update_pipeline_stats : PipelineStats → Action S (Unit {0})
  pub get_extract_log_by_id : String → Action S JobProfile
  pub update_extract_log : JobProfile → Action S (Unit {0})

-- The fields of the server that are read, the decoders, and the `Push` of the extension at a path
pub record Loader (S : Type 0) : Type 0 where
  pub scheme_value : String
  pub pi_name : String
  pub source_path : String
  pub source_tablename : String
  pub table_name : String
  pub extensions : List String
  pub generic : String → Result GenericFormat
  pub raw : String → Result RawFormat
  pub connect_extension : String → Result (LoaderMessage → Action S (Unit {0}))

-- An error ends the function; it is only logged.
abbrev pub logged : {S : Type 0} → Action S (Unit {0}) → Action S (Unit {0})
logged m = rescue m (λ _. give tt) give

abbrev pub stats_of : GenericFormat → PipelineStats
stats_of m = record {
  dataprov_id = m.dataprov;
  pipeline = m.pipeline_name;
  file_name = m.path;
  records_in = length m.records;
}

module _ {S : Type 0} (server : Loader S) (db : LoaderDb S) where
  -- What `processCSV`, `processXML`, `processXLSX`, `processJSONPath` and `processHTTPPost` do
  unfoldable pub load_rows : String → String → LoaderMessage → Action S (Unit {0})
  load_rows scheme database elem = logged (do
    m ← of_result (server.generic elem.metadata)
    db.get_bulk_insert_statement scheme database m.tablename m.column_names m.records m.column_types
    db.update_pipeline_stats (stats_of m))

  abbrev pub process_csv : String → LoaderMessage → Action S (Unit {0})
  process_csv = load_rows Scheme.csv

  abbrev pub process_xml : String → LoaderMessage → Action S (Unit {0})
  process_xml = load_rows Scheme.xml

  abbrev pub process_xlsx : String → LoaderMessage → Action S (Unit {0})
  process_xlsx = load_rows Scheme.xlsx

  abbrev pub process_json_path : String → LoaderMessage → Action S (Unit {0})
  process_json_path = load_rows Scheme.jsonpath

  abbrev pub process_http_post : String → LoaderMessage → Action S (Unit {0})
  process_http_post = load_rows Scheme.httppost

  unfoldable pub process_json : String → LoaderMessage → Action S (Unit {0})
  process_json database elem = logged (
      db.get_insert_statement Scheme.json database server.source_tablename ("metadata" ∷ [])
        (some elem.metadata ∷ []) elem.key)

  -- The loop of `processFinnhubStocks`
  unfoldable pub insert_rows : String → GenericFormat → List Row → Action S (Unit {0})
  insert_rows database m [] = give tt
  insert_rows database m (r ∷ rows) = do
    db.get_insert_statement Scheme.finnhub database m.tablename m.column_names r.cols r.key
    insert_rows database m rows

  unfoldable pub process_finnhub_stocks : String → LoaderMessage → Action S (Unit {0})
  process_finnhub_stocks database elem = logged (do
    m ← of_result (server.generic elem.metadata)
    insert_rows database m m.records
    db.update_pipeline_stats (stats_of m))

  -- The insert of `processAPI`, and the number of records for the statistics
  unfoldable pub insert_raw : String → LoaderMessage → RawFormat → Action S ℕ
  insert_raw database elem m =
      if is_nil m.records
      then (do
        db.get_insert_statement Scheme.api database server.table_name m.column_names
            (some m.message ∷ []) elem.key
        give 1)
      else (do
        db.get_bulk_insert_statement Scheme.api database server.table_name m.column_names m.records
            m.column_types
        give (length m.records))

  unfoldable pub process_api : String → String → LoaderMessage → Action S (Unit {0})
  process_api job database elem = logged (do
    m ← of_result (server.raw elem.metadata)
    n ← insert_raw database elem m
    db.update_pipeline_stats (record {
      dataprov_id = m.dataprov;
      pipeline = server.pi_name;
      file_name = server.source_path;
      records_in = n;
    })
    log ← db.get_extract_log_by_id job
    db.update_extract_log (record log { records_loaded = log.records_loaded + length m.records }))

  -- Without a connection the client is nil, and the call of its `Push` panics.
  unfoldable pub process_extension : String → LoaderMessage → Action S (Unit {0})
  process_extension path elem = elim (server.connect_extension path) [
    | err e ↦ panic
    | ok push ↦ logged (push elem)
  ]

  unfoldable pub process_extensions : List String → LoaderMessage → Action S (Unit {0})
  process_extensions [] elem = give tt
  process_extensions (path ∷ paths) elem = do
    process_extension path elem
    process_extensions paths elem

  -- The `switch` on the scheme
  unfoldable pub load : String → String → LoaderMessage → Action S (Unit {0})
  load job database elem =
      let scheme = server.scheme_value in
      if scheme == Scheme.finnhub
      then process_finnhub_stocks database elem
      else if scheme == Scheme.api
      then process_api job database elem
      else if scheme == Scheme.xml
      then process_xml database elem
      else if scheme == Scheme.xlsx
      then process_xlsx database elem
      else if scheme == Scheme.csv
      then process_csv database elem
      else if scheme == Scheme.jsonpath
      then process_json_path database elem
      else if scheme == Scheme.json
      then process_json database elem
      else if scheme == Scheme.httppost
      then process_http_post database elem
      else give tt

  unfoldable pub process : String → String → LoaderMessage → Action S (Unit {0})
  process job database elem = do load job database elem; process_extensions server.extensions elem
