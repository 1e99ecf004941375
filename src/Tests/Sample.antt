-- ===== src/Tests/Sample.antt =====
-- A pipeline with one entry of each kind, and outside calls that never fail.
use churro.Common.{ℕ, zero, suc, String, [], ◌∷◌, none, ◌≡◌, refl, sym, ap, ◌∙◌}
use churro.Common.Int.{pos}
use churro.Domain.{ExtractSource, ExtractRule, TransformFunction, Extension}
use churro.Cluster.{
  Api, Cluster, Pipeline, ExtractSourceDefinition, ExtractRuleDefinition, FunctionDefinition,
  ExtensionDefinition,
}
use churro.Ctl.Rules.{PathParsers}
use churro.Ctl.Sources.Reads.{zero_source}

-- An ID of `n` signs.
abbrev pub marks : ℕ → String
marks zero = ""
marks (suc n) = String.◌∷◌ "x" (marks n)

size : String → ℕ
size String.[] = 0
size (String.◌∷◌ c s) = suc (size s)

size-marks : (n : ℕ) → size (marks n) ≡ n
unfolding size
size-marks zero = refl
size-marks (suc n) = ap suc (size-marks n)

pub marks-distinct : (i j : ℕ) → marks i ≡ marks j → i ≡ j
marks-distinct i j e = sym (size-marks i) ∙ ap size e ∙ size-marks j

abbrev pub quiet : Api
quiet = record { fails = λ _ _. none; new_id = marks; source_metrics = λ _ _. [] }

abbrev pub parsers : PathParsers
parsers = record { xmlpath_compile = λ _. none; jsonpath_parse = λ _. none; atoi_error = λ s. s }

abbrev pub orders : ExtractSourceDefinition
orders = record {
  id = "s1";
  name = "orders";
  path = "/churro/orders";
  scheme = "csv";
  regex = "[a-z]+.csv";
  tablename = "orders";
  cronexpression = "";
  skipheaders = pos 1;
  multiline = "false";
  sheetname = "";
  port = pos 0;
  encoding = "";
  transport = "";
  servicetype = "";
}

abbrev pub city : ExtractRuleDefinition
city = record {
  id = "r1";
  extractsourceid = "s1";
  column_name = "city";
  column_path = "0";
  column_type = "TEXT";
  match_values = "";
  transform_function_name = "None";
}

abbrev pub upper : FunctionDefinition
upper = record { id = "f1"; name = "transforms.Upper"; source = "package transforms" }

abbrev pub audit : ExtensionDefinition
audit = record {
  id = "e1";
  extractsourceid = "s1";
  extensionname = "audit";
  extensionpath = "audit:1";
}

abbrev pub sales : Pipeline
sales = record {
  name = "sales";
  max_jobs = pos 2;
  database_type = "mockdb";
  harvest_pod_duration = "";
  functions = upper ∷ [];
  extractsources = orders ∷ [];
  extensions = audit ∷ [];
  extractrules = city ∷ [];
}

abbrev pub before : Cluster
before = record { pipeline = sales; pods = []; notified = 0; calls = 0 }

-- A second source, with a path of its own.
abbrev pub returns : ExtractSource
returns = record zero_source {
  name = "returns";
  path = "/churro/returns";
  scheme = "csv";
  regex = "[a-z]+.csv";
  tablename = "returns";
}

abbrev pub new_rule : ExtractRule
new_rule = record {
  id = "r1";
  extract_source_id = "s1";
  column_name = "town";
  column_path = "1";
  column_type = "TEXT";
  match_values = "";
  transform_function = "None";
}

abbrev pub lower : TransformFunction
lower = record { id = "f1"; name = "transforms.Lower"; source = "package transforms" }

abbrev pub archive : Extension
archive = record {
  id = "e1";
  extract_source_id = "s1";
  extension_name = "archive";
  extension_path = "archive:1";
}
