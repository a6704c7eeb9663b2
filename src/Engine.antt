-- ===== src/Engine.antt =====
-- The database engines (src-tauri/src/model.rs), and their labels and those of the query kinds in the
-- local store (src-tauri/src/store/mod.rs).
use Prim.Native.String.{◌++◌}
use agent_db.Base.{◌≡◌, refl, String, ◌==◌, text_eq, if◌then◌else◌}
use agent_db.Error.{config, Result, ok, err}
use agent_db.Safety.Gate.{QueryKind}

pub data Engine : Type 0 where
  postgres mysql sqlite mongodb : Engine

unfoldable pub engine_str : Engine → String
engine_str Engine.postgres = "postgres"
engine_str Engine.mysql = "mysql"
engine_str Engine.sqlite = "sqlite"
engine_str Engine.mongodb = "mongodb"

unfoldable pub parse_engine : String → Result Engine
parse_engine s =
    if s == "postgres"
    then ok Engine.postgres
    else if s == "mysql"
    then ok Engine.mysql
    else if s == "sqlite"
    then ok Engine.sqlite
    else if s == "mongodb"
    then ok Engine.mongodb
    else err (config ("unknown engine '" ++ s ++ "'"))

unfoldable pub kind_str : QueryKind → String
kind_str QueryKind.read = "read"
kind_str QueryKind.write = "write"
kind_str QueryKind.ddl = "ddl"
kind_str QueryKind.privilege = "privilege"

unfoldable pub parse_kind : String → Result QueryKind
parse_kind s =
    if s == "read"
    then ok QueryKind.read
    else if s == "write"
    then ok QueryKind.write
    else if s == "ddl"
    then ok QueryKind.ddl
    else if s == "privilege"
    then ok QueryKind.privilege
    else err (config ("unknown query kind '" ++ s ++ "'"))

pub parse_engine-engine_str : (e : Engine) → parse_engine (engine_str e) ≡ ok e
unfolding parse_engine engine_str
parse_engine-engine_str Engine.postgres = refl
parse_engine-engine_str Engine.mysql = refl
parse_engine-engine_str Engine.sqlite = refl
parse_engine-engine_str Engine.mongodb = refl

pub parse_kind-kind_str : (k : QueryKind) → parse_kind (kind_str k) ≡ ok k
unfolding parse_kind kind_str
parse_kind-kind_str QueryKind.read = refl
parse_kind-kind_str QueryKind.write = refl
parse_kind-kind_str QueryKind.ddl = refl
parse_kind-kind_str QueryKind.privilege = refl
