-- ===== src/Migrate/Applied.antt =====
-- What a run of the engine leaves in the table of versions.
use mathlib.Core.Path.{subst}
use elgon.Base.{
  ℕ, ◌+◌, ◌≡◌, refl, sym, ap, ◌∙◌, Bool, true, not, ◌↔◌, none, List, [], ◌∷◌, arith, inl, inr,
  Bool-cases, All, All-weaken,
}
use elgon.Base.Int.{ℤ, int_eq_refl}
use elgon.Base.Text.{Str}
use elgon.Base.Result.{ok, Result-cases}
use elgon.Migrate.{
  Migration, done, Run, Adapter, Engine, number, text, is_blank, member, loop, sort_by, insert_by,
  ascending, in_transaction, apply_one, insert_sql, select_sql, create_table_sql, with_applied, up,
}
use elgon.Migrate.Plan.{Outcome-cases}

-- Two lists have the same versions, in whatever order.
abbrev pub SameVersions : List ℤ → List ℤ → Type 0
SameVersions vs ws = (v : ℤ) → member v vs ≡ member v ws

-- What the engine relies on, while no one else writes to the table of versions. `view` is the content
-- of the table, and `seen` what a transaction sees of it. A transaction starts with the content; one
-- that inserts a row sees it; a commit that succeeds leaves what the transaction saw. Creating the
-- table, where it is missing, changes no row, and a SELECT that succeeds returns the rows, in whatever
-- order.
pub record Honest (a : Adapter) (e : Engine) : Type 0 where
  pub view : a.Db → List ℤ
  pub seen : a.Tx → List ℤ
  pub on_begin : (db : a.Db) (tx : a.Tx) → a.begin db ≡ ok tx → SameVersions (seen tx) (view db)
  pub on_insert :
      (v : ℤ) (name : Str) (tx tx' : a.Tx)
      → a.exec_tx (insert_sql a e) (number v ∷ text name ∷ []) tx ≡ ok tx'
      → SameVersions (seen tx') (v ∷ seen tx)
  pub on_commit :
      (tx : a.Tx) (db db' : a.Db) → a.commit tx db ≡ done db' → SameVersions (view db') (seen tx)
  pub on_create :
      (db db' : a.Db)
      → a.exec (create_table_sql a e) db ≡ done db'
      → SameVersions (view db') (view db)
  pub on_select :
      (db : a.Db) (vs : List ℤ) → a.versions (select_sql a e) db ≡ ok vs → SameVersions vs (view db)

-- A script that does not write to the table of versions: a transaction sees the same rows behind it.
abbrev pub Leaves : (a : Adapter) (e : Engine) → Honest a e → Str → Type 0
Leaves a e h script =
    (tx tx' : a.Tx) → a.exec_tx script [] tx ≡ ok tx' → SameVersions (h.seen tx') (h.seen tx)

module _ (P : Migration → Type 0) (before : ℤ → ℤ → Bool) where
  All-insert_by :
      (m : Migration) (ms : List Migration) → (P m × All P ms) ↔ All P (insert_by before m ms)
  unfolding insert_by
  All-insert_by m [] = ((λ h. h), (λ h. h))
  All-insert_by m (n ∷ ns) =
      let (to, from) = All-insert_by m ns in
      elim (Bool-cases (before n.version m.version)) [
        | inl first ↦
            rw first ((λ h. (h.1.0, to (h.0, h.1.1))), λ h. ((from h.1).0, (h.0, (from h.1).1)))
        | inr last ↦ rw last ((λ h. h), (λ h. h))
      ]

  All-sort_by : (ms : List Migration) → All P ms → All P (sort_by before ms)
  unfolding sort_by
  All-sort_by [] h = tt
  All-sort_by (m ∷ ms) h = (All-insert_by m (sort_by before ms)).0 (h.0, All-sort_by ms h.1)

  All-of_sort_by : (ms : List Migration) → All P (sort_by before ms) → All P ms
  unfolding sort_by
  All-of_sort_by [] h = tt
  All-of_sort_by (m ∷ ms) h =
      let (here, later) = (All-insert_by m (sort_by before ms)).1 h in
      (here, All-of_sort_by ms later)

member-head : (v : ℤ) (vs : List ℤ) → member v (v ∷ vs) ≡ true
unfolding member
member-head v vs = rw (int_eq_refl v) refl

member-tail : (v w : ℤ) (vs : List ℤ) → member v vs ≡ true → member v (w ∷ vs) ≡ true
unfolding member
member-tail v w vs h = ground arith

-- A version that is put before lists that agree on another one.
member-cons :
    (v w : ℤ) (vs ws : List ℤ) → member v vs ≡ member v ws → member v (w ∷ vs) ≡ member v (w ∷ ws)
unfolding member
member-cons v w vs ws h = rw h refl

module _ (a : Adapter) (e : Engine) (h : Honest a e) where
  open h use {view, seen, on_begin, on_insert, on_commit, on_create, on_select}

  -- A migration that is applied adds its version.
  apply_one-view :
      (m : Migration) (db db' : a.Db)
      → Leaves a e h m.up_sql
      → apply_one a e m db ≡ done db'
      → SameVersions (view db') (m.version ∷ view db)
  unfolding apply_one in_transaction
  apply_one-view m db db' quiet q = elim (Result-cases (a.begin db)) [
    | inr (f, e0) ↦ let q' = rw (e0, in_transaction) at q in cc
    | inl (t0, e0) ↦ elim (Result-cases (a.exec_tx m.up_sql [] t0)) [
      | inr (f, e1) ↦ let q' = rw (e0, e1, in_transaction) at q in cc
      | inl (t1, e1) ↦
          elim (Result-cases
            (a.exec_tx (insert_sql a e) (number m.version ∷ text m.name ∷ []) t1)) [
              | inr (f, e2) ↦ let q' = rw (e0, e1, e2, in_transaction) at q in cc
              | inl (t2, e2) ↦ λ v.
                  on_commit t2 db db' (rw (e0, e1, e2, in_transaction) at q) v
                  ∙ on_insert m.version m.name t1 t2 e2 v
                  ∙ member-cons v m.version (seen t1) (view db)
                      (quiet t0 t1 e1 v ∙ on_begin db t0 e0 v)
            ]
    ]
  ]

  -- The version of a migration that is applied is in the table, and so are those before it.
  apply_one-has :
      (m : Migration) (db db' : a.Db)
      → Leaves a e h m.up_sql
      → apply_one a e m db ≡ done db'
      → member m.version (view db') ≡ true
  apply_one-has m db db' quiet q =
      apply_one-view m db db' quiet q m.version ∙ member-head m.version (view db)

  apply_one-keeps :
      (m : Migration) (db db' : a.Db) (v : ℤ)
      → Leaves a e h m.up_sql
      → apply_one a e m db ≡ done db'
      → member v (view db) ≡ true
      → member v (view db') ≡ true
  apply_one-keeps m db db' v quiet q hv =
      apply_one-view m db db' quiet q v ∙ member-tail v m.version (view db) hv

  -- The loop of `Up` under the versions that were read at its start.
  abbrev up_loop : List ℤ → ℕ → List Migration → a.Db → Run a.Failure a.Db
  up_loop applied = loop (λ m. not (member m.version applied)) (λ m. m.up_sql) (apply_one a e) 0

  -- A run that reports no error keeps every version that is in the table.
  loop-keeps :
      (applied : List ℤ) (count : ℕ) (ms : List Migration) (db : a.Db) (r : Run a.Failure a.Db)
      (v : ℤ)
      → All (λ m. Leaves a e h m.up_sql) ms
      → up_loop applied count ms db ≡ r
      → r.error ≡ none
      → member v (view db) ≡ true
      → member v (view r.state) ≡ true
  unfolding loop
  loop-keeps applied count [] db r v quiet q no_error hv =
      subst (λ x. member v (view x.state) ≡ true) q hv
  loop-keeps applied count (m ∷ ms) db r v (here, quiet) q no_error hv =
      elim (Bool-cases (member m.version applied)) [
        | inl old ↦ loop-keeps applied count ms db r v quiet (rw (old, loop) at q) no_error hv
        | inr new ↦ elim (Bool-cases (is_blank m.up_sql)) [
          | inl blank ↦ let q' = ap (λ x. x.error) (rw (new, blank, loop) at q) in cc
          | inr full ↦ elim (Outcome-cases (apply_one a e m db)) [
            | inl (db', ran) ↦
                loop-keeps applied (count + 1) ms db' r v quiet (rw (new, full, ran, loop) at q)
                  no_error (apply_one-keeps m db db' v here ran hv)
            | inr (f, db', ran) ↦ let q' = ap (λ x. x.error) (rw (new, full, ran, loop) at q) in cc
          ]
        ]
      ]

  -- A run with no limit that reports no error has applied every migration of the list.
  loop-applies :
      (applied : List ℤ) (count : ℕ) (ms : List Migration) (db : a.Db) (r : Run a.Failure a.Db)
      → All (λ m. Leaves a e h m.up_sql) ms
      → up_loop applied count ms db ≡ r
      → ((v : ℤ) → member v applied ≡ true → member v (view db) ≡ true)
      → r.error ≡ none
      → All (λ m. member m.version (view r.state) ≡ true) ms
  unfolding loop
  loop-applies applied count [] db r quiet q known no_error = tt
  loop-applies applied count (m ∷ ms) db r (here, quiet) q known no_error =
      elim (Bool-cases (member m.version applied)) [
        | inl old ↦
            let q' = rw (old, loop) at q in
            (
              loop-keeps applied count ms db r m.version quiet q' no_error (known m.version old),
              loop-applies applied count ms db r quiet q' known no_error,
            )
        | inr new ↦ elim (Bool-cases (is_blank m.up_sql)) [
          | inl blank ↦ let q' = ap (λ x. x.error) (rw (new, blank, loop) at q) in cc
          | inr full ↦ elim (Outcome-cases (apply_one a e m db)) [
            | inl (db', ran) ↦
                let q' = rw (new, full, ran, loop) at q in
                (
                  loop-keeps applied (count + 1) ms db' r m.version quiet q' no_error
                      (apply_one-has m db db' here ran),
                  loop-applies applied (count + 1) ms db' r quiet q'
                      (λ v hv. apply_one-keeps m db db' v here ran (known v hv)) no_error,
                )
            | inr (f, db', ran) ↦ let q' = ap (λ x. x.error) (rw (new, full, ran, loop) at q) in cc
          ]
        ]
      ]

  loop-idle :
      (applied : List ℤ) (count : ℕ) (ms : List Migration) (db : a.Db)
      → All (λ m. member m.version applied ≡ true) ms
      → up_loop applied count ms db ≡ record { count = count; error = none; state = db }
  unfolding loop
  loop-idle applied count [] db hs = refl
  loop-idle applied count (m ∷ ms) db (old, hs) = rw old (loop-idle applied count ms db hs)

  abbrev up_rest : List Migration → a.Db → List ℤ → Run a.Failure a.Db
  up_rest ms db applied = up_loop applied 0 (sort_by ascending ms) db

  with_applied-success :
      (rest : a.Db → List ℤ → Run a.Failure a.Db) (db : a.Db)
      → (with_applied a e rest db).error ≡ none
      → (db' : a.Db) × (vs : List ℤ) × SameVersions vs (view db')
        × (with_applied a e rest db ≡ rest db' vs)
  unfolding with_applied
  with_applied-success rest db no_error = elim (Outcome-cases (a.exec (create_table_sql a e) db)) [
    | inr (f, db', q) ↦ let q' = rw (q, with_applied) at no_error in cc
    | inl (db', q) ↦ elim (Result-cases (a.versions (select_sql a e) db')) [
      | inr (f, q2) ↦ let q' = rw (q, q2, with_applied) at no_error in cc
      | inl (vs, q2) ↦ (db', vs, on_select db' vs q2, rw (q, q2, with_applied))
    ]
  ]

  -- If `Up` without a limit reports no error, and no script of the list writes to the table of versions,
  -- the table holds the version of every migration of the list.
  pub up-applies-All :
      (ms : List Migration) (db : a.Db)
      → All (λ m. Leaves a e h m.up_sql) ms
      → (up a e ms 0 db).error ≡ none
      → All (λ m. member m.version (view (up a e ms 0 db).state) ≡ true) ms
  unfolding up
  up-applies-All ms db quiet no_error =
      let (db', vs, same, q) = with_applied-success (up_rest ms) db no_error in
      All-of_sort_by _ ascending ms (
        loop-applies vs 0 (sort_by ascending ms) db' (with_applied a e (up_rest ms) db)
          (All-sort_by (λ m. Leaves a e h m.up_sql) ascending ms quiet) (sym q)
          (λ v hv. sym (same v) ∙ hv) no_error)

  up_rest-idle :
      (ms : List Migration) (db : a.Db)
      → All (λ m. member m.version (view db) ≡ true) ms
      → (with_applied a e (up_rest ms) db).count ≡ 0
  unfolding with_applied
  up_rest-idle ms db hs = elim (Outcome-cases (a.exec (create_table_sql a e) db)) [
    | inr (f, db', q) ↦ rw (q, with_applied)
    | inl (db', q) ↦ elim (Result-cases (a.versions (select_sql a e) db')) [
      | inr (f, q2) ↦ rw (q, q2, with_applied)
      | inl (vs, q2) ↦
          let same : SameVersions vs (view db) =
            λ v. on_select db' vs q2 v ∙ on_create db db' q v in
          rw (q, q2, with_applied)
            (ap (λ r. r.count)
              (loop-idle vs 0 (sort_by ascending ms) db' (
                All-sort_by (λ m. member m.version vs ≡ true) ascending ms
                  (All-weaken (λ m hm. same m.version ∙ hm) ms hs))))
    ]
  ]

  -- Running `Up` without a limit again, after a run that reported no error, applies nothing, if no
  -- script of the list writes to the table of versions: it counts 0, also if the database fails.
  pub up-again :
      (ms : List Migration) (db : a.Db)
      → All (λ m. Leaves a e h m.up_sql) ms
      → (up a e ms 0 db).error ≡ none
      → (up a e ms 0 (up a e ms 0 db).state).count ≡ 0
  unfolding up
  up-again ms db quiet no_error =
      up_rest-idle ms _ (unfold up in up-applies-All ms db quiet no_error)
