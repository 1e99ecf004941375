-- ===== src/Tests.antt =====
-- Tests and concrete instances of the theorems: a small pipeline, and an outside that never fails.
mod Sample
mod Requests
mod Entries
mod Users
mod Files
mod Operator
mod Harvest
mod NewFile
mod Xml
mod Directory
mod Pages
mod Loads
mod Pipelines
