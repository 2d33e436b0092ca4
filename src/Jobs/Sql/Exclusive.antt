-- ===== src/Jobs/Sql/Exclusive.antt =====
-- No two workers handle the same job.
use mathlib.Core.Path.{subst}
use elgon.Base.{
  ℕ, ◌≡◌, refl, sym, ap, ◌∙◌, Bool-cases, false, ◌⊎◌, inl, inr, Option, none, some, arith, ◌==◌,
}
use elgon.Base.Text.{Str, str_eq, str_eq_iff}
use elgon.Base.Result.{Result, ok, err}
use elgon.Jobs.Message.{Message}
use elgon.Jobs.Sql.{
  SqlBackendConfig, Adapter, Row, Base64, ClaimError, create_table_sql, insert_sql, claim_sql,
  ack_sql, retry_sql, ph, select_job, claim_job, ack, retry,
}
use elgon.Jobs.Sql.Rows.{Honest, hits}
use elgon.Jobs.Sql.Held.{Held}
use elgon.Jobs.Sql.Statements.{
  enqueue-Held, select_job-view, claim_job-Held, claim_job-claimed, ack-Held, retry-Held,
}
use elgon.Jobs.Sql.System.{
  Pc, idle, chosen, running, update, after_select, after_claim, System, node_cfg, backend, moved,
  Step, enqueues, selects, claims, acks, retries, Reach, start, later,
}

-- The job that a worker handles.
abbrev pub job_of : Pc → Option Str
job_of idle = none
job_of (chosen row) = none
job_of (running id msg) = some id

some_inj : {x y : Str} → some x ≡ some y → x ≡ y
some_inj q = cc

job_of-after_select : {F : Type 0} (r : Result F (Option Row)) → job_of (after_select r) ≡ none
job_of-after_select (err f) = refl
job_of-after_select (ok none) = refl
job_of-after_select (ok (some row)) = refl

after_claim-cases :
    {F : Type 0} (r : Result (ClaimError F) (Option (Str × Message)))
    → (job_of (after_claim r) ≡ none) ⊎ ((id : Str) × (msg : Message) × (r ≡ ok (some (id, msg))))
after_claim-cases (err e) = inl refl
after_claim-cases (ok none) = inl refl
after_claim-cases (ok (some (id, msg))) = inr (id, msg, refl)

module _ {cfg : SqlBackendConfig} {a : Adapter} (b64 : Base64) (h : Honest cfg a) where
  -- The statements do not depend on the node.
  on_node : (node : Str) → Honest (node_cfg cfg a b64 node) a
  unfolding create_table_sql insert_sql claim_sql ack_sql retry_sql ph
  on_node node = record {
    view = h.view;
    on_create = h.on_create;
    on_insert = h.on_insert;
    on_claim = h.on_claim;
    on_claimed = h.on_claimed;
    on_ack = h.on_ack;
    on_retry = h.on_retry;
  }

  -- Each job that is handled is held, and by one worker only.
  record Inv (s : System cfg a b64) : Type 0 where
    held : (i : ℕ) (id : Str) → job_of (s.pc i) ≡ some id → Held id (h.view s.db)
    unique : (i j : ℕ) (id : Str) → job_of (s.pc i) ≡ some id → job_of (s.pc j) ≡ some id → i ≡ j

  -- After a move of worker `i`, a job is its new one or one that another worker had before.
  job_of-update :
      (pc : ℕ → Pc) (i j : ℕ) (p : Pc) (k : Str)
      → job_of (update pc i p j) ≡ some k
      → ((i ≡ j) × (job_of p ≡ some k)) ⊎ (((i == j) ≡ false) × (job_of (pc j) ≡ some k))
  job_of-update pc i j p k e = elim (Bool-cases (i == j)) [
    | inl same ↦ inl (ground arith, rw same at e)
    | inr other ↦ inr (other, rw other at e)
  ]

  distinct :
      {s : System cfg a b64}
      → Inv s
      → (i j : ℕ) (id k : Str) (msg : Message) → s.pc i ≡ running id msg
      → (i == j) ≡ false
      → job_of (s.pc j) ≡ some k
      → str_eq id k ≡ false
  distinct {s} inv i j id k msg own other e = elim (Bool-cases (str_eq id k)) [
    | inr differ ↦ differ
    | inl same ↦
        let e' : job_of (s.pc j) ≡ some id = rw ((str_eq_iff id k).0 same) e in
        let i_j : i ≡ j = inv.unique i j id (ap job_of own) e' in ground arith
  ]

  -- A worker that leaves its job, or has none, and a statement that keeps what the others hold.
  rest-Inv :
      (i : ℕ) (p : Pc) (db : a.Db) (s : System cfg a b64)
      → Inv s
      → job_of p ≡ none
      → ((j : ℕ) (k : Str) → (i == j) ≡ false → job_of (s.pc j) ≡ some k → Held k (h.view db))
      → Inv (moved cfg a b64 i db p s)
  rest-Inv i p db s inv none_of keeps = record {
    held = λ j k e. elim (job_of-update s.pc i j p k e) [
      | inl (same, own) ↦ cc
      | inr (other, before) ↦ keeps j k other before
    ];
    unique = λ j j' k e e'. elim (job_of-update s.pc i j p k e) [
      | inl (same, own) ↦ cc
      | inr (other, before) ↦ elim (job_of-update s.pc i j' p k e') [
        | inl (same, own) ↦ cc
        | inr (other', before') ↦ inv.unique j j' k before before'
      ]
    ];
  }

  -- A worker that takes a job that nobody holds.
  take-Inv :
      (i : ℕ) (id : Str) (msg : Message) (db : a.Db) (s : System cfg a b64)
      → Inv s
      → Held id (h.view db)
      → hits id (h.view s.db) ≡ 1
      → ((k : Str) → Held k (h.view s.db) → Held k (h.view db))
      → Inv (moved cfg a b64 i db (running id msg) s)
  take-Inv i id msg db s inv now_held was_free keeps = record {
    held = λ j k e. elim (job_of-update s.pc i j (running id msg) k e) [
      | inl (same, own) ↦ subst (λ x. Held x (h.view db)) (some_inj own) now_held
      | inr (other, before) ↦ keeps k (inv.held j k before)
    ];
    unique = λ j j' k e e'. elim (job_of-update s.pc i j (running id msg) k e) [
      | inl (same, own) ↦ elim (job_of-update s.pc i j' (running id msg) k e') [
        | inl (same', own') ↦ sym same ∙ same'
        | inr (other', before') ↦ not_held j' k own before'
      ]
      | inr (other, before) ↦ elim (job_of-update s.pc i j' (running id msg) k e') [
        | inl (same', own') ↦ not_held j k own' before
        | inr (other', before') ↦ inv.unique j j' k before before'
      ]
    ];
  }
    where
      not_held : {x y : ℕ} (j : ℕ) (k : Str) → some id ≡ some k → job_of (s.pc j) ≡ some k → x ≡ y
      not_held j k own before =
          let free = (inv.held j k before).free in
          let taken : hits k (h.view s.db) ≡ 1 =
            subst (λ x. hits x (h.view s.db) ≡ 1) (some_inj own) was_free in
          omega arith

  Step-Inv : {s t : System cfg a b64} → Inv s → Step cfg a b64 s t → Inv t
  unfolding on_node
  Step-Inv {s} inv (enqueues done node id now msg) = record {
    held = λ i k e.
        enqueue-Held b64 (on_node node) (backend cfg a b64 done s.db node) id k now msg
          (inv.held i k e);
    unique = inv.unique;
  }
  Step-Inv {s} inv (selects done node now i at_rest) =
      let q = backend cfg a b64 done s.db node in
      let out = select_job (node_cfg cfg a b64 node) a b64 now q in
      rest-Inv i (after_select out.0) out.1.db s inv (job_of-after_select out.0) (λ j k other e.
        subst (Held k) (sym (select_job-view b64 (on_node node) q now)) (inv.held j k e))
  Step-Inv {s} inv (claims done node now i row at_row) =
      let q = backend cfg a b64 done s.db node in
      let out = claim_job (node_cfg cfg a b64 node) a b64 now row q in
      let keeps : (k : Str) → Held k (h.view s.db) → Held k (h.view out.1.db) =
        claim_job-Held b64 (on_node node) q now row in
      elim (after_claim-cases out.0) [
        | inl nothing ↦
            rest-Inv i (after_claim out.0) out.1.db s inv nothing
              (λ j k other e. keeps k (inv.held j k e))
        | inr (id, msg, e) ↦
            let (free, held) = claim_job-claimed b64 (on_node node) q now row id msg e in
            subst (λ r. Inv (moved cfg a b64 i out.1.db (after_claim r) s)) (sym e)
              (take-Inv i id msg out.1.db s inv held free keeps)
      ]
  Step-Inv {s} inv (acks done node i id msg own) =
      let q = backend cfg a b64 done s.db node in
      rest-Inv i idle (ack (node_cfg cfg a b64 node) a b64 id q).1.db s inv refl (λ j k other e.
        ack-Held b64 (on_node node) q id k (distinct inv i j id k msg own other e) (inv.held j k e))
  Step-Inv {s} inv (retries done node now i id msg own) =
      let q = backend cfg a b64 done s.db node in
      rest-Inv i idle (retry (node_cfg cfg a b64 node) a b64 now id q).1.db s inv refl
        (λ j k other e.
          retry-Held b64 (on_node node) q now id k (distinct inv i j id k msg own other e)
            (inv.held j k e))

  Reach-Inv : {db : a.Db} {s : System cfg a b64} → Reach cfg a b64 db s → Inv s
  Reach-Inv start = record { held = λ i k e. cc; unique = λ i j k e e'. cc }
  Reach-Inv (later r step) = Step-Inv (Reach-Inv r) step

  -- However the statements of workers and of callers interleave, on any nodes, no two workers handle
  -- the same job at a time, and the row of a job that is handled stays until its worker ends.
  pub one_worker_each :
      (db : a.Db) (s : System cfg a b64)
      → Reach cfg a b64 db s
      → (i j : ℕ) (id : Str) → job_of (s.pc i) ≡ some id
      → (Held id (h.view s.db)) × (job_of (s.pc j) ≡ some id → i ≡ j)
  one_worker_each db s r i j id own =
      ((Reach-Inv r).held i id own, λ other. (Reach-Inv r).unique i j id own other)
