-- ===== src/Db/Backends.antt =====
-- internal/db/churrodb.go: the back end for a type of database.
use churro.Common.{String, ◌==◌, if◌then◌else◌}
use churro.Common.Action.{Result, ok, err}
use churro.Db.{Engine, Users}
use churro.Db.Mysql
use churro.Db.Cockroach
use churro.Db.Singlestore
use churro.Db.Mock

pub data Backend : Type 0 where
  cockroach : Backend
  mysql : Backend
  singlestore : Backend
  mock : Backend

-- `NewChurroDB`
unfoldable pub new_churro_db : String → Result Backend
new_churro_db db_type =
    if db_type == "cockroachdb"
    then ok cockroach
    else if db_type == "mysql"
    then ok mysql
    else if db_type == "singlestore"
    then ok singlestore
    else if db_type == "mockdb"
    then ok mock
    else err "invalid churro database type specified"

-- The calls of a back end over a database, with the ID that is drawn
abbrev pub users_of : Backend → (engine : Engine) → String → Users engine.State
users_of cockroach engine new_id = Cockroach.users engine new_id
users_of mysql engine new_id = Mysql.users engine new_id
users_of singlestore engine new_id = Singlestore.users engine new_id
users_of mock engine new_id = Mock.users
