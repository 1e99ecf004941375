-- ===== src/Domain/Scheme.antt =====
-- api/extract/dataformat.go: the names of the schemes of an extract source.
use churro.Common.{String}

abbrev pub xlsx : String
xlsx = "xlsx"

abbrev pub csv : String
csv = "csv"

abbrev pub xml : String
xml = "xml"

abbrev pub json : String
json = "json"

abbrev pub jsonpath : String
jsonpath = "jsonpath"

abbrev pub finnhub : String
finnhub = "finnhub-stocks"

abbrev pub api : String
api = "api"

abbrev pub httppost : String
httppost = "httppost"
