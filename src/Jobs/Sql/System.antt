-- ===== src/Jobs/Sql/System.antt =====
-- Any number of workers over one table, on any nodes, interleaved statement by statement.
use elgon.Base.{ℕ, ◌≡◌, Bool, Option, none, some, ◌==◌, if◌then◌else◌}
use elgon.Base.Text.{Str}
use elgon.Base.Result.{Result, ok, err}
use elgon.Jobs.Message.{Message}
use elgon.Jobs.Sql.{
  SqlBackendConfig, Adapter, Row, Base64, Backend, ClaimError, enqueue, select_job, claim_job, ack,
  retry,
}

-- Where a worker is in its round: between rounds, after the selection of a row, in the handler.
pub data Pc : Type 0 where
  idle : Pc
  chosen : Row → Pc
  running : Str → Message → Pc

abbrev pub update : (ℕ → Pc) → ℕ → Pc → ℕ → Pc
update pc i p j = if i == j then p else pc j

abbrev pub after_select : {F : Type 0} → Result F (Option Row) → Pc
after_select (err f) = idle
after_select (ok none) = idle
after_select (ok (some row)) = chosen row

abbrev pub after_claim : {F : Type 0} → Result (ClaimError F) (Option (Str × Message)) → Pc
after_claim (err e) = idle
after_claim (ok none) = idle
after_claim (ok (some (id, msg))) = running id msg

module _ (cfg : SqlBackendConfig) (a : Adapter) (b64 : Base64) where
  pub record System : Type 0 where
    pub db : a.Db
    pub pc : ℕ → Pc

  -- The configuration of a node.
  abbrev pub node_cfg : Str → SqlBackendConfig
  node_cfg node = record cfg { node_id = node }

  -- The backend of a process, whose `once` has run or not.
  abbrev pub backend : Bool → a.Db → (node : Str) → Backend (node_cfg node) a b64
  backend done db node = record { once_done = done; db = db }

  -- The system after worker `i` has run a statement.
  abbrev pub moved : ℕ → a.Db → Pc → System → System
  moved i db p s = record { db = db; pc = update s.pc i p }

  abbrev pub enqueued : Bool → (node id : Str) → ℕ → Message → System → System
  enqueued done node id now msg s = record s {
    db = (enqueue (node_cfg node) a b64 id now msg (backend done s.db node)).1.db;
  }

  abbrev pub selected : Bool → (node : Str) → (now i : ℕ) → System → System
  selected done node now i s =
      let (result, q) = select_job (node_cfg node) a b64 now (backend done s.db node) in
      moved i q.db (after_select result) s

  abbrev pub claimed : Bool → (node : Str) → (now i : ℕ) → Row → System → System
  claimed done node now i row s =
      let (result, q) = claim_job (node_cfg node) a b64 now row (backend done s.db node) in
      moved i q.db (after_claim result) s

  abbrev pub acked : Bool → (node : Str) → ℕ → Str → System → System
  acked done node i id s =
      moved i (ack (node_cfg node) a b64 id (backend done s.db node)).1.db idle s

  abbrev pub retried : Bool → (node : Str) → (now i : ℕ) → Str → System → System
  retried done node now i id s =
      moved i (retry (node_cfg node) a b64 now id (backend done s.db node)).1.db idle s

  pub data Step (s : System) : System → Type 0 where
    enqueues :
        (done : Bool) (node id : Str) (now : ℕ) (msg : Message)
        → Step s (enqueued done node id now msg s)
    selects :
        (done : Bool) (node : Str) (now i : ℕ) → s.pc i ≡ idle → Step s (selected done node now i s)
    claims :
        (done : Bool) (node : Str) (now i : ℕ) (row : Row)
        → s.pc i ≡ chosen row
        → Step s (claimed done node now i row s)
    acks :
        (done : Bool) (node : Str) (i : ℕ) (id : Str) (msg : Message)
        → s.pc i ≡ running id msg
        → Step s (acked done node i id s)
    retries :
        (done : Bool) (node : Str) (now i : ℕ) (id : Str) (msg : Message)
        → s.pc i ≡ running id msg
        → Step s (retried done node now i id s)

  -- What is reached from a database that no worker works on yet.
  pub data Reach (db : a.Db) : System → Type 0 where
    start : Reach db (record { db = db; pc = λ _. idle })
    later : {s t : System} → Reach db s → Step s t → Reach db t
