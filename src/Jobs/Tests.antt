-- ===== src/Jobs/Tests.antt =====
-- The theorems about queues on a table and a buffer in memory.
use elgon.Base.{
  ℕ, ◌≡◌, refl, sym, ap, true, false, ◌&&◌, inl, inr, Bool-cases, Option, none, some, List, [], ◌∷◌,
  leb, arith, if◌then◌else◌,
}
use elgon.Base.Text.{Str, str, str_eq}
use elgon.Base.Result.{Result, ok, err, ok_inj}
use elgon.Jobs.Message.{Message}
use elgon.Jobs.Sql
use elgon.Jobs.Sql.{SqlBackendConfig, Arg, number, text, Row}
use elgon.Jobs.Sql.Rows.{
  Job, new_job, is_queued, claim_rows, remove_rows, requeue_rows, hits, has_id, Honest,
}
use elgon.Jobs.Sql.Held.{Held}
use elgon.Jobs.Sql.System
use elgon.Jobs.Sql.System.{idle, running}
use elgon.Jobs.Sql.Exclusive.{job_of, one_worker_each}
use elgon.Jobs.Queue.{
  refusal, InMemoryQueue, new_in_memory_queue, run_worker, at_end, at_done, close, send,
}
use elgon.Jobs.Queue.Fifo
use elgon.Jobs.Queue.Fifo.{InOrder, Reach-InOrder}
use elgon.Jobs.Queue.Worker.{take, rounds_before, run_worker-closed}

abbrev hello : Message
hello = record { name = str "mail"; payload = str "hello" }

abbrev bye : Message
bye = record { name = str "mail"; payload = str "bye" }

-- A table in memory, which tells statements apart by their arguments.
abbrev exec_in_memory : Str → List Arg → List Job → Result Str ℕ × List Job
exec_in_memory sql (text node ∷ number now ∷ text id ∷ []) rows =
    (ok (hits id rows), claim_rows node now id rows)
exec_in_memory sql (text id ∷ []) rows = (ok 1, remove_rows id rows)
exec_in_memory sql (number next ∷ text id ∷ []) rows = (ok 1, requeue_rows next id rows)
exec_in_memory sql (text id ∷ text name ∷ text payload ∷ number now ∷ number created ∷ []) rows =
    if has_id id rows
    then (err (str "duplicate"), rows)
    else (ok 1, new_job id name payload now ∷ rows)
exec_in_memory sql _ rows = (ok 0, rows)

first_row : ℕ → List Job → Option Row
first_row now [] = none
first_row now (j ∷ js) =
    let rest = first_row now js in
    if is_queued j.status && leb j.available_at now
    then some (record { id = j.id; name = j.name; payload_b64 = j.payload_b64 })
    else rest

abbrev query_in_memory : Str → List Arg → List Job → Result Str (Option Row)
query_in_memory sql (number now ∷ []) rows = ok (first_row now rows)
query_in_memory sql _ rows = err (str "arguments")

abbrev adapter : Sql.Adapter
adapter = record {
  Db = List Job;
  Failure = Str;
  exec = exec_in_memory;
  query_row = query_in_memory;
}

abbrev cfg : SqlBackendConfig
cfg = record {
  table = str "elgon_jobs";
  dialect = str "postgres";
  node_id = str "node_1";
  poll_interval = 250;
  retry_delay = 2000;
}

adapter-Honest : Honest cfg adapter
adapter-Honest = record {
  view = λ rows. rows;
  on_create = λ rows. refl;
  on_insert = λ id name payload now rows. elim (Bool-cases (has_id id rows)) [
    | inl taken ↦ inl (rw taken refl)
    | inr absent ↦ inr (absent, rw absent refl)
  ];
  on_claim = λ node id now rows. inr refl;
  on_claimed =
      λ node id now n rows rows' e. (sym (ok_inj (ap (λ p. p.0) e)), sym (ap (λ p. p.1) e));
  on_ack = λ id rows. inr refl;
  on_retry = λ id next rows. inr refl;
}

-- An encoding that changes nothing.
abbrev plain : Sql.Base64
plain = record { encode = λ s. s; decode = λ s. some s }

abbrev one_node : Str
one_node = str "node_1"

-- A job is put in the table, and worker 0 selects and claims it.
abbrev stored : System.System cfg adapter plain
stored =
    System.enqueued cfg adapter plain false one_node (str "j1") 10 hello
      (record { db = []; pc = λ _. idle })

abbrev picked : System.System cfg adapter plain
picked = System.selected cfg adapter plain true one_node 20 0 stored

abbrev working : System.System cfg adapter plain
working =
    System.claimed cfg adapter plain true one_node 20 0
      (record { id = str "j1"; name = str "mail"; payload_b64 = str "hello" }) picked

working-Reach : System.Reach cfg adapter plain [] working
unfolding Sql.enqueue Sql.select_job Sql.ensure_table first_row has_id
working-Reach =
    System.later
      (System.later (System.later System.start (System.enqueues false one_node (str "j1") 10 hello))
        (System.selects true one_node 20 0 refl))
      (System.claims true one_node 20 0
        (record { id = str "j1"; name = str "mail"; payload_b64 = str "hello" }) refl)

working_runs : job_of (working.pc 0) ≡ some (str "j1")
unfolding Sql.enqueue Sql.select_job Sql.claim_job Sql.ensure_table first_row hits has_id str_eq
working_runs = refl

one_worker_each_example :
    Held (str "j1") working.db × (job_of (working.pc 1) ≡ some (str "j1") → ◌≡◌ {A = ℕ} 0 1)
unfolding adapter-Honest
one_worker_each_example =
    one_worker_each plain adapter-Honest [] working working-Reach 0 1 (str "j1") working_runs

-- A caller puts a message, and the queue is closed while another one is about to.
abbrev accepted : Fifo.System
accepted = Fifo.send_pending 1 hello (Fifo.check_open 1 hello (Fifo.init 1))

abbrev late : Fifo.System
late = Fifo.send_pending 2 bye (Fifo.close_queue (Fifo.check_open 2 bye accepted))

late-Reach : Fifo.Reach 1 late
unfolding Fifo.send_pending Fifo.check_open refusal Fifo.close_queue new_in_memory_queue close
late-Reach =
    Fifo.later
      (Fifo.later
        (Fifo.later
          (Fifo.later (Fifo.later Fifo.start (Fifo.checks 1 hello refl)) (Fifo.sends 1 hello refl))
          (Fifo.checks 2 bye refl))
        Fifo.closes)
      (Fifo.sends 2 bye refl)

Reach-InOrder_example : InOrder late
Reach-InOrder_example = Reach-InOrder 1 late late-Reach

-- A caller that passed the check before `Close` panics.
late_panics : late.crashed ≡ true
unfolding Fifo.send_pending Fifo.check_open refusal Fifo.close_queue new_in_memory_queue close send
late_panics = refl

abbrev closed_queue : InMemoryQueue
closed_queue = record { buffer = hello ∷ bye ∷ []; cap = 4; closed = true }

-- A worker that its context does not stop.
run_worker-closed_example :
    run_worker (false ∷ false ∷ false ∷ []) closed_queue ≡ (hello ∷ bye ∷ [], at_end)
unfolding rounds_before take
run_worker-closed_example =
    run_worker-closed (false ∷ false ∷ false ∷ []) closed_queue refl (omega arith)

-- One whose context is done in its second round leaves a message.
run_worker_done : run_worker (false ∷ true ∷ false ∷ []) closed_queue ≡ (hello ∷ [], at_done)
unfolding run_worker
run_worker_done = refl
