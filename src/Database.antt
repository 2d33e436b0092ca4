-- ===== src/Database.antt =====
-- db/drivers.go and db/sql.go: the data source names of the drivers, and the opening of a database.
-- The escapes of `net/url` and `sql.Open` are parameters.
use elgon.Base.{ℕ, List, [], ◌∷◌, ◌++◌}
use elgon.Base.Text.{Str, str, decimal}
use elgon.Base.Result.{Result, ok, ◌>>=◌}

-- `PostgresConfig`; ports are not negative.
pub record PostgresConfig : Type 0 where
  pub host : Str
  pub port : ℕ
  pub user : Str
  pub password : Str
  pub db_name : Str
  pub ssl_mode : Str

-- `MySQLConfig`
pub record MySqlConfig : Type 0 where
  pub user : Str
  pub password : Str
  pub host : Str
  pub port : ℕ
  pub db_name : Str
  pub params : List (Str × Str)

abbrev or_text : Str → Str → Str
or_text default [] = default
or_text default (c ∷ s) = c ∷ s

abbrev query_suffix : Str → Str
query_suffix [] = []
query_suffix (c ∷ s) = str "?" ++ (c ∷ s)

-- `DSN` of a PostgresConfig.
module _ (query_escape path_escape : Str → Str) where
  unfoldable pub postgres_dsn : PostgresConfig → Str
  unfolding decimal
  postgres_dsn c =
      str "postgres://"
      ++ query_escape c.user
      ++ str ":"
      ++ query_escape c.password
      ++ str "@"
      ++ c.host
      ++ str ":"
      ++ decimal c.port
      ++ str "/"
      ++ path_escape c.db_name
      ++ str "?sslmode="
      ++ query_escape (or_text (str "disable") c.ssl_mode)

-- `DSN` of a MySQLConfig, over the encoding of its parameters.
unfoldable pub mysql_dsn : (List (Str × Str) → Str) → MySqlConfig → Str
unfolding decimal
mysql_dsn encode c =
    c.user
    ++ str ":"
    ++ c.password
    ++ str "@tcp("
    ++ c.host
    ++ str ":"
    ++ decimal c.port
    ++ str ")/"
    ++ c.db_name
    ++ query_suffix (encode c.params)

-- `DSN` of an SQLiteConfig, which is a path.
abbrev pub sqlite_dsn : Str → Str
sqlite_dsn path = or_text (str "file::memory:?cache=shared") path

module _ {E Db Adapter : Type 0} (sql_open : Str → Str → Result E Db)
    (new_sql_adapter : Db → Adapter) where
  -- `Open`
  unfoldable pub open_adapter : Str → Str → Result E Adapter
  open_adapter driver dsn = sql_open driver dsn >>= (λ db. ok (new_sql_adapter db))

  -- `OpenPostgres`, `OpenMySQL` and `OpenSQLite`
  unfoldable pub open_postgres : (Str → Str) → (Str → Str) → PostgresConfig → Result E Adapter
  unfolding open_adapter postgres_dsn
  open_postgres query_escape path_escape c =
      open_adapter (str "pgx") (postgres_dsn query_escape path_escape c)

  unfoldable pub open_mysql : (List (Str × Str) → Str) → MySqlConfig → Result E Adapter
  unfolding open_adapter mysql_dsn
  open_mysql encode c = open_adapter (str "mysql") (mysql_dsn encode c)

  unfoldable pub open_sqlite : Str → Result E Adapter
  unfolding open_adapter
  open_sqlite path = open_adapter (str "sqlite") (sqlite_dsn path)
