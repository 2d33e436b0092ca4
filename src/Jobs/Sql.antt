-- ===== src/Jobs/Sql.antt =====
-- jobs/distributed.go: a queue in an SQL table. The database and base64 are parameters.
pub mod Rows
pub mod Held
pub mod Statements
pub mod System
pub mod Exclusive
use elgon.Base.{
  ℕ, ◌+◌, Bool, true, false, ◌||◌, Option, none, some, List, [], ◌∷◌, ◌++◌, ◌==◌, if◌then◌else◌,
}
use elgon.Base.Text.{Str, str, str_eq, equal_fold, decimal}
use elgon.Base.Result.{Result, ok, err}
use elgon.Jobs.Message.{Message}

-- `SQLBackendConfig`; durations in milliseconds, one that is not positive is 0.
pub record SqlBackendConfig : Type 0 where
  pub table : Str
  pub dialect : Str
  pub node_id : Str
  pub poll_interval : ℕ
  pub retry_delay : ℕ

abbrev or_text : Str → Str → Str
or_text [] default = default
or_text (c ∷ s) default = c ∷ s

-- `NewSQLBackend`, with the random node name that it may need.
unfoldable pub new_sql_backend : Str → SqlBackendConfig → SqlBackendConfig
new_sql_backend random cfg = record {
  table = or_text cfg.table (str "elgon_jobs");
  dialect = cfg.dialect;
  node_id = or_text cfg.node_id (str "node_" ++ random);
  poll_interval = if cfg.poll_interval == 0 then 250 else cfg.poll_interval;
  retry_delay = if cfg.retry_delay == 0 then 2000 else cfg.retry_delay;
}

-- The arguments of a statement, and the row that the selection of a job gives.
pub data Arg : Type 0 where
  number : ℕ → Arg
  text : Str → Arg

pub record Row : Type 0 where
  pub id : Str
  pub name : Str
  pub payload_b64 : Str

-- What the backend uses of `db.Adapter`: a statement, with the rows that it affects, and the first
-- row of a query.
pub record Adapter : Type 1 where
  pub Db : Type 0
  pub Failure : Type 0
  pub exec : Str → List Arg → Db → Result Failure ℕ × Db
  pub query_row : Str → List Arg → Db → Result Failure (Option Row)

-- `base64.RawStdEncoding`
pub record Base64 : Type 0 where
  pub encode : Str → Str
  pub decode : Str → Option Str

-- The errors of a claim.
pub data ClaimError (F : Type 0) : Type 0 where
  database : F → ClaimError F
  bad_payload : ClaimError F

-- `ph`
unfoldable pub ph : SqlBackendConfig → ℕ → Str
unfolding equal_fold decimal
ph cfg n =
    if equal_fold cfg.dialect (str "postgres") || equal_fold cfg.dialect (str "pg")
    then str "$" ++ decimal n
    else str "?"

module _ (cfg : SqlBackendConfig) where
  unfoldable pub create_table_sql : Str
  create_table_sql =
      str "CREATE TABLE IF NOT EXISTS "
      ++ (cfg.table
          ++ str
              " (\n\tid TEXT PRIMARY KEY,\n\tname TEXT NOT NULL,\n\tpayload_b64 TEXT NOT NULL,\n\tstatus TEXT NOT NULL,\n\tattempts INTEGER NOT NULL,\n\tavailable_at_ms BIGINT NOT NULL,\n\treserved_by TEXT,\n\treserved_at_ms BIGINT,\n\tcreated_at_ms BIGINT NOT NULL\n)")

  unfoldable pub insert_sql : Str
  unfolding ph
  insert_sql =
      str "INSERT INTO "
      ++ (cfg.table
          ++ (str
                " (id, name, payload_b64, status, attempts, available_at_ms, created_at_ms) VALUES ("
              ++ (ph cfg 1
                  ++ (str ", "
                      ++ (ph cfg 2
                          ++ (str ", "
                              ++ (ph cfg 3
                                  ++ (str ", 'queued', 0, "
                                      ++ (ph cfg 4 ++ (str ", " ++ (ph cfg 5 ++ str ")")))))))))))

  unfoldable pub select_sql : Str
  unfolding ph
  select_sql =
      str "SELECT id, name, payload_b64 FROM "
      ++ (cfg.table
          ++ (str " WHERE status='queued' AND available_at_ms <= "
              ++ (ph cfg 1 ++ str " ORDER BY created_at_ms ASC LIMIT 1")))

  unfoldable pub claim_sql : Str
  unfolding ph
  claim_sql =
      str "UPDATE "
      ++ (cfg.table
          ++ (str " SET status='processing', reserved_by="
              ++ (ph cfg 1
                  ++ (str ", reserved_at_ms="
                      ++ (ph cfg 2
                          ++ (str ", attempts=attempts+1 WHERE id="
                              ++ (ph cfg 3 ++ str " AND status='queued'")))))))

  unfoldable pub ack_sql : Str
  unfolding ph
  ack_sql = str "DELETE FROM " ++ (cfg.table ++ (str " WHERE id=" ++ ph cfg 1))

  unfoldable pub retry_sql : Str
  unfolding ph
  retry_sql =
      str "UPDATE "
      ++ (cfg.table
          ++ (str " SET status='queued', available_at_ms="
              ++ (ph cfg 1 ++ (str " WHERE id=" ++ ph cfg 2))))

  module _ (a : Adapter) (b64 : Base64) where
    open a use {Db, Failure, exec, query_row}

    -- The backend's state: whether `once` has run, and the database.
    pub record Backend : Type 0 where
      pub once_done : Bool
      pub db : Db

    abbrev failure_of : Result Failure ℕ → Option Failure
    failure_of (ok n) = none
    failure_of (err f) = some f

    -- `ensureTable`: an error is returned the first time only.
    unfoldable pub ensure_table : Backend → Option Failure × Backend
    unfolding create_table_sql
    ensure_table q =
        let (result, db') = exec create_table_sql [] q.db in
        if q.once_done
        then (none, q)
        else (failure_of result, record { once_done = true; db = db' })

    abbrev insert_args : Str → ℕ → Message → List Arg
    insert_args id now msg =
        text id ∷ text msg.name ∷ text (b64.encode msg.payload) ∷ number now ∷ number now ∷ []

    -- `Enqueue`, under the random identifier `id`, at the millisecond `now`.
    unfoldable pub enqueue : Str → ℕ → Message → Backend → Option Failure × Backend
    unfolding ensure_table insert_sql
    enqueue id now msg q =
        let (failed, q') = ensure_table q in
        let (result, db') = exec insert_sql (insert_args id now msg) q'.db in
        elim failed [ some f ↦ (some f, q') | none ↦ (failure_of result, record q' { db = db' }) ]

    -- The first half of `claimNext`: the row that it selects.
    unfoldable pub select_job : ℕ → Backend → Result Failure (Option Row) × Backend
    unfolding ensure_table select_sql
    select_job now q =
        let (failed, q') = ensure_table q in
        let row = query_row select_sql (number now ∷ []) q'.db in
        elim failed [ some f ↦ (err f, q') | none ↦ (row, q') ]

    abbrev decoded : Row → Option Str → Result (ClaimError Failure) (Option (Str × Message))
    decoded row none = err bad_payload
    decoded row (some payload) = ok (some (row.id, record { name = row.name; payload = payload }))

    abbrev pub claim_outcome :
        Row → Result Failure ℕ → Result (ClaimError Failure) (Option (Str × Message))
    claim_outcome row (err f) = err (database f)
    claim_outcome row (ok affected) =
        if affected == 1 then decoded row (b64.decode row.payload_b64) else ok none

    -- The second half of `claimNext`: the row is updated if it is still queued, and only the worker
    -- whose statement changes it has the job.
    unfoldable pub claim_job :
        ℕ → Row → Backend → Result (ClaimError Failure) (Option (Str × Message)) × Backend
    unfolding claim_sql
    claim_job now row q =
        let (result, db') =
          exec claim_sql (text cfg.node_id ∷ number now ∷ text row.id ∷ []) q.db in
        (claim_outcome row result, record q { db = db' })

    -- `claimNext`
    unfoldable pub claim_next :
        ℕ → Backend → Result (ClaimError Failure) (Option (Str × Message)) × Backend
    unfolding select_job claim_job
    claim_next now q =
        let (selected, q') = select_job now q in
        elim selected [
          | err f ↦ (err (database f), q')
          | ok none ↦ (ok none, q')
          | ok (some row) ↦ claim_job now row q'
        ]

    -- `ack`
    unfoldable pub ack : Str → Backend → Option Failure × Backend
    unfolding ack_sql
    ack id q =
        let (result, db') = exec ack_sql (text id ∷ []) q.db in
        (failure_of result, record q { db = db' })

    -- `retry`
    unfoldable pub retry : ℕ → Str → Backend → Option Failure × Backend
    unfolding retry_sql
    retry now id q =
        let (result, db') = exec retry_sql (number (now + cfg.retry_delay) ∷ text id ∷ []) q.db in
        (failure_of result, record q { db = db' })

    -- One round of `RunWorker`: the handler says whether it fails, and takes until `later`. What the
    -- acknowledgement and the retry return is dropped.
    unfoldable pub run_round : (Message → Bool) → ℕ → ℕ → Backend → Backend
    unfolding claim_next ack retry
    run_round fails now later q =
        let (claimed, q') = claim_next now q in
        elim claimed [
          | err e ↦ q'
          | ok none ↦ q'
          | ok (some (id, msg)) ↦ if fails msg then (retry later id q').1 else (ack id q').1
        ]
