-- ===== src/Lib.antt =====
-- churro: pipelines that load files and feeds into database tables. This library models the parts of
-- the Go program that decide what is stored, who may act, and how records are transformed.
--
-- The operator (internal/operator) creates what a pipeline needs in the cluster and gives it an ID and
-- credentials. The control service (internal/ctl) answers requests about one pipeline. The pipeline's extract
-- sources, extract rules, transform functions and extensions live in one Kubernetes custom resource,
-- which every request reads, edits in memory and writes back as a whole; requests about sources then
-- notify the extractsource service and may delete its pods.
--   Cluster       the custom resource (api/v1alpha1/pipeline_types.go), the pods, the outside calls,
--                 GetPipeline (internal/pipeline/pipeline.go); Cluster/Specs, Cluster/Document and
--                 Cluster/Faultless hold what these calls do
--   Domain        the values of the requests (internal/domain/domain.go), and the schemes
--                 (api/extract/dataformat.go)
--   Ctl/Sources   internal/ctl/extractsource.go, Ctl/Rules internal/ctl/extractrule.go,
--                 Ctl/Functions internal/ctl/transform.go, Ctl/Extensions internal/ctl/extension.go:
--                 one function per request; a create or update request is split behind the decoding of
--                 its text (CreateExtractSource is create_extract_source, and add_source behind it)
--   Ctl/Removal   the in-place delete loop that four handlers share
--   Ctl/Rewriting the update loop that four handlers share
--   Ctl/Requests  all the requests as a data type, a run of the service over them, and the form of the
--                 stored document that every run keeps
--   Authorization internal/authorization/auth.go: getAuthMap and Authorized
--   Transform     internal/transform/transform-functions.go: RunRules on a record
--   Db            internal/db: the users and their access in the four back ends (Db/Mysql, Db/Singlestore,
--                 Db/Cockroach and Db/Mock stand for the folders of internal/db), chosen in Db/Backends
--                 (churrodb.go); Db/Semantics states what is relied on of a database, and Db/Directory
--                 what the back ends promise: a list of profiles and one of accesses
--   Handlers      internal/handlers: Handlers/UserAdmin useradmin.go, Handlers/Account account.go,
--                 Handlers/PipelineUsers pipelineuser.go, Handlers/Rules extractrule.go,
--                 Handlers/Extensions extension.go, Handlers/Functions transformfunction.go,
--                 Handlers/Pipelines pipelinedetail.go and its routes in ui/main.go, and Handlers/Site
--                 the routes of the first three, which use the interface of Db, behind the middleware
--   Pipelines     internal/pipeline/pipeline.go, and getPipelineCR of internal/handlers/kubeapi.go, over
--                 the calls of Kubernetes
--   Extract       internal/extract/server.go (the columns); Extract/Csv internal/extract/csv.go: the loop
--                 of ExtractCSV and its rows, with the order of the rules at each record as a parameter, since
--                 RunRules ranges over a map; Extract/Xml
--                 internal/extract/xml.go, the rules and rows; Extract/Xlsx internal/extract/xlsx.go,
--                 the loop of ExtractXLS; Extract/Loader internal/extract/loader.go, process for every
--                 scheme, with extension.go
--   Jobs          internal/extractsource/server.go: the queue of new files, its consumer and the limit
--                 of jobs, as events in any order; Jobs/Harvest internal/extractsource/harvester.go,
--                 Jobs/Pods the pod that is created for a new file, Jobs/Paths what it uses of paths
--   Operator      internal/operator: the objects of the cluster, the stored custom resource and the
--                 calls of the API server; Operator/Ensure the steps that groups of owned objects go
--                 through (and Children, Laws), Operator/Rbac rbac.go and policy.go, Operator/Services
--                 service.go, Operator/Claims pvc.go, Operator/Secrets secret.go, Operator/Pods the pods
--                 made from templates, Operator/Init and Operator/Databases statefulset.go, mysqlcr.go
--                 and singlestorecr.go, Operator/Reconcile ns.go, id.go and creds.go (ProcessCR is
--                 process_cr, processPipeline process_pipeline); its children hold what reconciliations
--                 keep and end in, Operator/Objects what the steps keep of the objects, Operator/Ui
--                 churrouicontroller.go
--   Tests         concrete instances
--
-- A handler is an action: from a state it ends in a value, an error or a panic, and in a new state,
-- since what was written before an error stays written (Common/Action, with its rules in
-- Common/Ensures). The outside calls fail as a function of the call and its time says, so a theorem
-- covers every pattern of faults. A text that cannot be read twice alike, such as an ID of xid, is
-- drawn from a parameter; that it draws no ID twice is a hypothesis of the theorem that needs it.
--
-- The delete loop runs on fuel, the length of the slice at the start, which is enough: each round
-- moves the index on and none makes the slice longer. All else is structural recursion.
--
-- Requests run one after the other: the API server refuses a write that is made from an outdated
-- read. Logs, times of last update, and the encodings of JSON are left out; the codecs are parameters.
-- The operator's deletion of a namespace is recorded as a request: that the cluster then removes the
-- objects of the namespace is not modelled, and no theorem speaks of the objects behind it.
-- Not modelled: the other formats of files and feeds (the rest of internal/extract), uploads, feeds and
-- the watchers (the rest of internal/extractsource), the other pages of the user interface (the rest of
-- internal/handlers), the roles of the database operators, which no function runs
-- (cockroachdbrbac.go and singlestorerbac.go in internal/operator), the tables and logs of the SQL
-- back ends (the rest of internal/db), the clients and the configuration (pkg), the commands (cmd),
-- generated code.
pub mod Common
pub mod Domain
pub mod Cluster
pub mod Ctl
pub mod Authorization
pub mod Transform
pub mod Db
pub mod Pipelines
pub mod Handlers
pub mod Extract
pub mod Jobs
pub mod Operator
pub mod Tests
