-- ===== src/Migrate/Plan.antt =====
-- Which migrations a run of the engine executes, and in which order.
use elgon.Base.{
  ℕ, zero, suc, ◌+◌, ◌≤◌, ◌≡◌, refl, Bool, true, false, none, some, List, [], ◌∷◌, arith, ◌⊎◌, inl,
  inr, ltb, leb, Bool-cases, length, if◌then◌else◌,
}
use elgon.Base.Text.{Str}
use elgon.Migrate.{Migration, missing_sql, database, Outcome, done, failed, Run, is_blank, loop}

pub Outcome-cases :
    {E S : Type 0} (o : Outcome E S)
    → ((s : S) × (o ≡ done s)) ⊎ ((e : E) × (s : S) × (o ≡ failed e s))
Outcome-cases (done s) = inl (s, refl)
Outcome-cases (failed e s) = inr (e, s, refl)

module _ {E S : Type 0} (wanted : Migration → Bool) (script : Migration → Str)
    (one : Migration → S → Outcome E S) where
  -- The migrations that a run is asked for, in the order of the list.
  unfoldable pub selected : List Migration → List Migration
  selected [] = []
  selected (m ∷ ms) = let rest = selected ms in if wanted m then m ∷ rest else rest

  abbrev cap : ℕ → List Migration → List Migration
  cap room [] = []
  cap zero (m ∷ ms) = []
  cap (suc room) (m ∷ ms) = m ∷ cap room ms

  -- All of them without a limit, `steps` of them with one.
  abbrev pub capped : ℕ → List Migration → List Migration
  capped zero ms = ms
  capped (suc steps) ms = cap (suc steps) ms

  -- One after another, up to the first one that is missing its script or fails.
  unfoldable pub run_plan : ℕ → List Migration → S → Run E S
  unfolding is_blank
  run_plan count [] s = record { count = count; error = none; state = s }
  run_plan count (m ∷ ms) s =
      let blank : Run E S = record {
        count = count;
        error = some (missing_sql m.version);
        state = s;
      } in
      let next : Run E S = elim (one m s) [
        | done s' ↦ run_plan (count + 1) ms s'
        | failed e s' ↦ record { count = count; error = some (database e); state = s' }
      ] in
      if is_blank (script m) then blank else next

  loop-unlimited :
      (count : ℕ) (ms : List Migration) (s : S)
      → loop wanted script one 0 count ms s ≡ run_plan count (selected ms) s
  unfolding loop selected run_plan
  loop-unlimited count [] s = refl
  loop-unlimited count (m ∷ ms) s = elim (Bool-cases (wanted m)) [
    | inr no_need ↦ rw no_need (loop-unlimited count ms s)
    | inl needed ↦ elim (Bool-cases (is_blank (script m))) [
      | inl blank ↦ rw (needed, blank)
      | inr full ↦ elim (Outcome-cases (one m s)) [
        | inl (s', ran) ↦ rw (needed, full, ran) (loop-unlimited (count + 1) ms s')
        | inr (e, s', ran) ↦ rw (needed, full, ran)
      ]
    ]
  ]

  loop-limited :
      (steps room count : ℕ) (ms : List Migration) (s : S)
      → count + room ≡ suc steps
      → loop wanted script one (suc steps) count ms s ≡ run_plan count (cap room (selected ms)) s
  unfolding loop selected run_plan
  loop-limited steps room count [] s h = refl
  loop-limited steps zero count (m ∷ ms) s h =
      let pos : ltb 0 (suc steps) ≡ true = ground arith in
      let over : leb (suc steps) count ≡ true = ground arith in
      elim (Bool-cases (wanted m)) [
        | inr no_need ↦ rw no_need (loop-limited steps zero count ms s h)
        | inl needed ↦ rw (needed, pos, over)
      ]
  loop-limited steps (suc room) count (m ∷ ms) s h =
      let pos : ltb 0 (suc steps) ≡ true = ground arith in
      let below : leb (suc steps) count ≡ false = ground arith in
      elim (Bool-cases (wanted m)) [
        | inr no_need ↦ rw no_need (loop-limited steps (suc room) count ms s h)
        | inl needed ↦ elim (Bool-cases (is_blank (script m))) [
          | inl blank ↦ rw (needed, pos, below, blank)
          | inr full ↦ elim (Outcome-cases (one m s)) [
            | inl (s', ran) ↦
                rw (needed, pos, below, full, ran)
                  (loop-limited steps room (count + 1) ms s' (omega arith))
            | inr (e, s', ran) ↦ rw (needed, pos, below, full, ran)
          ]
        ]
      ]

  -- A run with a limit (0: none) does what running the selected migrations one after another does,
  -- cut to the limit: it stops at the first one whose script is blank or which fails.
  pub loop-eq-run_plan :
      (steps : ℕ) (ms : List Migration) (s : S)
      → loop wanted script one steps 0 ms s ≡ run_plan 0 (capped steps (selected ms)) s
  loop-eq-run_plan zero ms s = loop-unlimited 0 ms s
  loop-eq-run_plan (suc steps) ms s = loop-limited steps (suc steps) 0 ms s (omega arith)

  count-run_plan :
      (count : ℕ) (ms : List Migration) (s : S)
      → ((run_plan count ms s).error ≡ none → (run_plan count ms s).count ≡ count + length ms)
        × ((run_plan count ms s).count ≤ count + length ms)
  unfolding run_plan
  count-run_plan count [] s = ((λ h. omega arith), omega arith)
  count-run_plan count (m ∷ ms) s = elim (Bool-cases (is_blank (script m))) [
    | inl blank ↦ rw blank ((λ h. cc), omega arith)
    | inr full ↦ elim (Outcome-cases (one m s)) [
      | inl (s', ran) ↦
          rw (full, ran)
            (let (exact, most) = count-run_plan (count + 1) ms s' in
              ((λ h. omega (arith, exact h)), omega (arith, most)))
      | inr (e, s', ran) ↦ rw (full, ran) ((λ h. cc), omega arith)
    ]
  ]

  -- A run that reports no error has executed each of the migrations that it was asked for, and
  -- counts them.
  pub count-loop :
      (steps : ℕ) (ms : List Migration) (s : S)
      → (loop wanted script one steps 0 ms s).error ≡ none
      → (loop wanted script one steps 0 ms s).count ≡ length (capped steps (selected ms))
  count-loop steps ms s h =
      let plan = capped steps (selected ms) in
      let same = loop-eq-run_plan steps ms s in
      rw same (omega (arith, (count-run_plan 0 plan s).0 (rw same at h)))
