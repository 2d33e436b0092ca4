-- ===== src/Jobs/Sql/Held.antt =====
-- Rows that a worker holds, and what the statements of the queue do to them.
use elgon.Base.{ℕ, ◌≡◌, refl, sym, ◌∙◌, Bool-cases, true, false, inl, inr, List, [], ◌∷◌, arith}
use elgon.Base.Text.{Str, str_eq, str_eq_iff, str_eq_refl}
use elgon.Jobs.Sql.Rows.{
  Job, hits, has_id, claim_rows, remove_rows, requeue_rows, new_job, hits-claim_rows,
  has_id-claim_rows, hits-remove_rows, has_id-remove_rows, hits-requeue_rows, has_id-requeue_rows,
}

-- A job that a worker handles: its row is there, and no claim would change it.
pub record Held (id : Str) (rows : List Job) : Type 0 where
  pub free : hits id rows ≡ 0
  pub there : has_id id rows ≡ true

pub new_job-Held :
    (id name payload k : Str) (now : ℕ) (rows : List Job)
    → has_id id rows ≡ false
    → Held k rows
    → Held k (new_job id name payload now ∷ rows)
unfolding hits has_id
new_job-Held id name payload k now rows absent h =
    let other : str_eq id k ≡ false = elim (Bool-cases (str_eq id k)) [
      | inl same ↦ let q = rw ((str_eq_iff id k).0 same, h.there) at absent in cc
      | inr other ↦ other
    ] in
    record { free = rw (other, h.free) refl; there = rw (other, h.there) refl }

pub claim_rows-Held :
    (node id k : Str) (now : ℕ) (rows : List Job)
    → Held k rows
    → Held k (claim_rows node now id rows)
claim_rows-Held node id k now rows h = record {
  free = ground (arith, hits-claim_rows node now id k rows, h.free);
  there = has_id-claim_rows node now id k rows ∙ h.there;
}

pub remove_rows-Held :
    (id k : Str) (rows : List Job)
    → str_eq id k ≡ false
    → Held k rows
    → Held k (remove_rows id rows)
remove_rows-Held id k rows other h = record {
  free = ground (arith, hits-remove_rows id k rows, h.free);
  there = ground (arith, has_id-remove_rows id k rows, h.there);
}

pub requeue_rows-Held :
    (next : ℕ) (id k : Str) (rows : List Job)
    → str_eq id k ≡ false
    → Held k rows
    → Held k (requeue_rows next id rows)
requeue_rows-Held next id k rows other h = record {
  free = hits-requeue_rows next id k rows other ∙ h.free;
  there = has_id-requeue_rows next id k rows ∙ h.there;
}

hits-has_id : (id : Str) (rows : List Job) → hits id rows ≡ 1 → has_id id rows ≡ true
unfolding hits has_id
hits-has_id id [] q = ground arith
hits-has_id id (j ∷ js) q = elim (Bool-cases (str_eq j.id id)) [
  | inl same ↦ rw same refl
  | inr other ↦
      let q' = rw other at q in
      let rest : hits id js ≡ 1 = omega arith in rw (other, hits-has_id id js rest) refl
]

pub claim_rows-claimed :
    (node id : Str) (now : ℕ) (rows : List Job)
    → 1 ≡ hits id rows
    → Held id (claim_rows node now id rows)
claim_rows-claimed node id now rows one = record {
  free = ground (arith, hits-claim_rows node now id id rows, str_eq_refl id);
  there = has_id-claim_rows node now id id rows ∙ hits-has_id id rows (sym one);
}
