-- ===== src/Jobs/Sql/Rows.antt =====
-- The table of jobs as rows, and what the statements of the queue do to it.
use elgon.Base.{
  ℕ, ◌+◌, ◌≡◌, refl, Bool, true, false, ◌&&◌, ◌||◌, ◌⊎◌, Option, none, some, List, [], ◌∷◌, arith,
  if◌then◌else◌,
}
use elgon.Base.Text.{Str, str_eq, str_eq_iff}
use elgon.Base.Result.{ok}
use elgon.Jobs.Sql.{
  SqlBackendConfig, number, text, Adapter, create_table_sql, insert_sql, claim_sql, ack_sql,
  retry_sql,
}

-- The statuses that the statements write.
pub data JobStatus : Type 0 where
  queued processing : JobStatus

-- A row of the table.
pub record Job : Type 0 where
  pub id : Str
  pub name : Str
  pub payload_b64 : Str
  pub status : JobStatus
  pub attempts : ℕ
  pub available_at : ℕ
  pub reserved : Option (Str × ℕ)
  pub created_at : ℕ

abbrev pub new_job : Str → Str → Str → ℕ → Job
new_job id name payload now = record {
  id = id;
  name = name;
  payload_b64 = payload;
  status = queued;
  attempts = 0;
  available_at = now;
  reserved = none;
  created_at = now;
}

abbrev pub is_queued : JobStatus → Bool
is_queued queued = true
is_queued processing = false

abbrev pub claim_row : Str → ℕ → Str → Job → Job
claim_row node now id j =
    if str_eq j.id id && is_queued j.status
    then record j { status = processing; reserved = some (node, now); attempts = j.attempts + 1 }
    else j

-- The update of a claim, the deletion and the return of a job, on all rows.
unfoldable pub claim_rows : Str → ℕ → Str → List Job → List Job
unfolding str_eq
claim_rows node now id [] = []
claim_rows node now id (j ∷ js) = claim_row node now id j ∷ claim_rows node now id js

unfoldable pub remove_rows : Str → List Job → List Job
unfolding str_eq
remove_rows id [] = []
remove_rows id (j ∷ js) = let rest = remove_rows id js in if str_eq j.id id then rest else j ∷ rest

unfoldable pub requeue_rows : ℕ → Str → List Job → List Job
unfolding str_eq
requeue_rows next id [] = []
requeue_rows next id (j ∷ js) =
    (if str_eq j.id id then record j { status = queued; available_at = next } else j)
    ∷ requeue_rows next id js

-- How many rows a claim of the identifier would change, and whether a row has the identifier.
unfoldable pub hits : Str → List Job → ℕ
unfolding str_eq
hits id [] = 0
hits id (j ∷ js) = (if str_eq j.id id && is_queued j.status then 1 else 0) + hits id js

unfoldable pub has_id : Str → List Job → Bool
unfolding str_eq
has_id id [] = false
has_id id (j ∷ js) = str_eq j.id id || has_id id js

module _ (node : Str) (now : ℕ) (id : Str) where
  pub hits-claim_rows :
      (k : Str) (js : List Job)
      → hits k (claim_rows node now id js) ≡ (if str_eq id k then 0 else hits k js)
  unfolding hits claim_rows
  hits-claim_rows k [] = ground arith
  hits-claim_rows k (j ∷ js) =
      ground (arith, hits-claim_rows k js, str_eq_iff j.id id, str_eq_iff j.id k, str_eq_iff id k)

  pub has_id-claim_rows :
      (k : Str) (js : List Job) → has_id k (claim_rows node now id js) ≡ has_id k js
  unfolding has_id claim_rows
  has_id-claim_rows k [] = refl
  has_id-claim_rows k (j ∷ js) = ground (arith, has_id-claim_rows k js)

pub hits-remove_rows :
    (id k : Str) (js : List Job)
    → hits k (remove_rows id js) ≡ (if str_eq id k then 0 else hits k js)
unfolding hits remove_rows
hits-remove_rows id k [] = ground arith
hits-remove_rows id k (j ∷ js) =
    ground (arith, hits-remove_rows id k js, str_eq_iff j.id id, str_eq_iff j.id k, str_eq_iff id k)

pub has_id-remove_rows :
    (id k : Str) (js : List Job)
    → has_id k (remove_rows id js) ≡ (if str_eq id k then false else has_id k js)
unfolding has_id remove_rows
has_id-remove_rows id k [] = ground arith
has_id-remove_rows id k (j ∷ js) =
    ground
      (arith, has_id-remove_rows id k js, str_eq_iff j.id id, str_eq_iff j.id k, str_eq_iff id k)

pub hits-requeue_rows :
    (next : ℕ) (id k : Str) (js : List Job)
    → str_eq id k ≡ false
    → hits k (requeue_rows next id js) ≡ hits k js
unfolding hits requeue_rows
hits-requeue_rows next id k [] other = refl
hits-requeue_rows next id k (j ∷ js) other = ground (
  arith,
  hits-requeue_rows next id k js other,
  str_eq_iff j.id id,
  str_eq_iff j.id k,
  str_eq_iff id k,
)

pub has_id-requeue_rows :
    (next : ℕ) (id k : Str) (js : List Job) → has_id k (requeue_rows next id js) ≡ has_id k js
unfolding has_id requeue_rows
has_id-requeue_rows next id k [] = refl
has_id-requeue_rows next id k (j ∷ js) = ground (arith, has_id-requeue_rows next id k js)

-- What the queue relies on. `view` is the content of the table. Creating the table changes
-- nothing. Each other statement, run once, either changes nothing or does what it says, and does so
-- if it reports no error; an identifier is a primary key, so that an insertion adds no row
-- under one that a row has; a claim reports how many rows it changes.
pub record Honest (cfg : SqlBackendConfig) (a : Adapter) : Type 0 where
  pub view : a.Db → List Job
  pub on_create : (db : a.Db) → view (a.exec (create_table_sql cfg) [] db).1 ≡ view db
  pub on_insert :
      (id name payload : Str) (now : ℕ) (db : a.Db)
      → let db' =
          (a.exec
            (insert_sql cfg)
            (text id ∷ text name ∷ text payload ∷ number now ∷ number now ∷ [])
            db).1 in
        (view db' ≡ view db)
        ⊎ ((has_id id (view db) ≡ false) × (view db' ≡ new_job id name payload now ∷ view db))
  pub on_claim :
      (node id : Str) (now : ℕ) (db : a.Db)
      → let out = a.exec (claim_sql cfg) (text node ∷ number now ∷ text id ∷ []) db in
        (view out.1 ≡ view db) ⊎ (view out.1 ≡ claim_rows node now id (view db))
  pub on_claimed :
      (node id : Str) (now n : ℕ) (db db' : a.Db)
      → a.exec (claim_sql cfg) (text node ∷ number now ∷ text id ∷ []) db ≡ (ok n, db')
      → (n ≡ hits id (view db)) × (view db' ≡ claim_rows node now id (view db))
  pub on_ack :
      (id : Str) (db : a.Db)
      → let db' = (a.exec (ack_sql cfg) (text id ∷ []) db).1 in
        (view db' ≡ view db) ⊎ (view db' ≡ remove_rows id (view db))
  pub on_retry :
      (id : Str) (next : ℕ) (db : a.Db)
      → let db' = (a.exec (retry_sql cfg) (number next ∷ text id ∷ []) db).1 in
        (view db' ≡ view db) ⊎ (view db' ≡ requeue_rows next id (view db))
