-- ===== src/Jobs/Sql/Statements.antt =====
-- What the operations of the queue do to a job that a worker holds.
use elgon.Base.{
  ℕ, ◌+◌, ◌≡◌, refl, sym, ap, Bool-cases, Option-cases, false, inl, inr, some, [], ◌∷◌, arith, ◌==◌,
}
use mathlib.Core.Path.{subst}
use elgon.Base.Text.{Str, str_eq}
use elgon.Base.Result.{Result, ok, err}
use elgon.Jobs.Message.{Message}
use elgon.Jobs.Sql.{
  SqlBackendConfig, Adapter, Row, Base64, Backend, insert_sql, claim_sql, ensure_table, enqueue,
  select_job, claim_job, claim_outcome, ack, retry, number, text,
}
use elgon.Jobs.Sql.Rows.{Honest, hits}
use elgon.Jobs.Sql.Held.{
  Held, new_job-Held, claim_rows-Held, claim_rows-claimed, remove_rows-Held, requeue_rows-Held,
}

module _ {cfg : SqlBackendConfig} {a : Adapter} (b64 : Base64) (h : Honest cfg a)
    (q : Backend cfg a b64) where
  ensure_table-view : h.view (ensure_table cfg a b64 q).1.db ≡ h.view q.db
  unfolding ensure_table
  ensure_table-view = elim (Bool-cases q.once_done) [
    | inl done ↦ rw done refl
    | inr fresh ↦ rw fresh (h.on_create q.db)
  ]

  inserted-Held :
      (id name payload k : Str) (now : ℕ) (db : a.Db)
      → Held k (h.view db)
      → Held k (
          h.view
            (a.exec
              (insert_sql cfg)
              (text id ∷ text name ∷ text payload ∷ number now ∷ number now ∷ [])
              db).1)
  inserted-Held id name payload k now db held = elim (h.on_insert id name payload now db) [
    | inl same ↦ subst (Held k) (sym same) held
    | inr (absent, done) ↦
        subst (Held k) (sym done) (new_job-Held id name payload k now (h.view db) absent held)
  ]

  claim_outcome-some :
      (row : Row) (r : Result a.Failure ℕ) (id : Str) (msg : Message)
      → claim_outcome cfg a b64 row r ≡ ok (some (id, msg))
      → (r ≡ ok 1) × (row.id ≡ id)
  claim_outcome-some row (err f) id msg e = cc
  claim_outcome-some row (ok n) id msg e = elim (Bool-cases (n == 1)) [
    | inr other ↦ let e' = rw other at e in cc
    | inl one ↦ elim (Option-cases (b64.decode row.payload_b64)) [
      | inl bad ↦ let e' = rw (one, bad) at e in cc
      | inr (payload, good) ↦
          let e' = rw (one, good) at e in let is_one : n ≡ 1 = ground arith in (ap ok is_one, cc)
    ]
  ]

  pub enqueue-Held :
      (id k : Str) (now : ℕ) (msg : Message)
      → Held k (h.view q.db)
      → Held k (h.view (enqueue cfg a b64 id now msg q).1.db)
  unfolding enqueue
  enqueue-Held id k now msg held =
      let ready = subst (Held k) (sym ensure_table-view) held in
      elim (Option-cases (ensure_table cfg a b64 q).0) [
        | inr (f, e) ↦ rw (e, enqueue) ready
        | inl e ↦ rw (e, enqueue) (inserted-Held id msg.name (b64.encode msg.payload) k now _ ready)
      ]

  pub select_job-view : (now : ℕ) → h.view (select_job cfg a b64 now q).1.db ≡ h.view q.db
  unfolding select_job
  select_job-view now = elim (Option-cases (ensure_table cfg a b64 q).0) [
    | inr (f, e) ↦ rw (e, select_job) ensure_table-view
    | inl e ↦ rw (e, select_job) ensure_table-view
  ]

  pub claim_job-Held :
      (now : ℕ) (row : Row) (k : Str)
      → Held k (h.view q.db)
      → Held k (h.view (claim_job cfg a b64 now row q).1.db)
  unfolding claim_job
  claim_job-Held now row k held = elim (h.on_claim cfg.node_id row.id now q.db) [
    | inl same ↦ subst (Held k) (sym same) held
    | inr done ↦
        subst (Held k) (sym done) (claim_rows-Held cfg.node_id row.id k now (h.view q.db) held)
  ]

  pub claim_job-claimed :
      (now : ℕ) (row : Row) (id : Str) (msg : Message)
      → (claim_job cfg a b64 now row q).0 ≡ ok (some (id, msg))
      → (hits id (h.view q.db) ≡ 1) × Held id (h.view (claim_job cfg a b64 now row q).1.db)
  unfolding claim_job
  claim_job-claimed now row id msg e =
      let args = text cfg.node_id ∷ number now ∷ text row.id ∷ [] in
      let out = a.exec (claim_sql cfg) args q.db in
      let (one, same) = claim_outcome-some row out.0 id msg e in
      let (affected, done) =
        h.on_claimed cfg.node_id row.id now 1 q.db out.1 (ap (λ r. (r, out.1)) one) in
      subst (λ k. (hits k (h.view q.db) ≡ 1) × Held k (h.view out.1)) same
        (
          sym affected,
          subst (Held row.id) (sym done) (claim_rows-claimed cfg.node_id row.id now _ affected),
        )

  pub ack-Held :
      (id k : Str)
      → str_eq id k ≡ false
      → Held k (h.view q.db)
      → Held k (h.view (ack cfg a b64 id q).1.db)
  unfolding ack
  ack-Held id k other held = elim (h.on_ack id q.db) [
    | inl same ↦ subst (Held k) (sym same) held
    | inr done ↦ subst (Held k) (sym done) (remove_rows-Held id k (h.view q.db) other held)
  ]

  pub retry-Held :
      (now : ℕ) (id k : Str)
      → str_eq id k ≡ false
      → Held k (h.view q.db)
      → Held k (h.view (retry cfg a b64 now id q).1.db)
  unfolding retry
  retry-Held now id k other held = elim (h.on_retry id (now + cfg.retry_delay) q.db) [
    | inl same ↦ subst (Held k) (sym same) held
    | inr done ↦
        subst (Held k) (sym done)
          (requeue_rows-Held (now + cfg.retry_delay) id k (h.view q.db) other held)
  ]
