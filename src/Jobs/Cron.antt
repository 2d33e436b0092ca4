-- ===== src/Jobs/Cron.antt =====
-- jobs/cron.go: recurring tasks. `time.ParseDuration` is a parameter.
use elgon.Base.{ℕ, zero, suc, Option, none, some, List, [], ◌∷◌, ◌++◌, ◌==◌, if◌then◌else◌}
use elgon.Base.Int.{ℤ, pos, negsuc}
use elgon.Base.Text.{Str, str, has_prefix, trim_space}
use elgon.Base.Result.{Result, ok, err}

-- `scheduleEntry`; the interval in nanoseconds.
pub record ScheduleEntry (Task : Type 0) : Type 0 where
  pub name : Str
  pub interval : ℕ
  pub task : Task

pub data SpecError : Type 0 where
  invalid_schedule not_positive : SpecError

abbrev drop : ℕ → Str → Str
drop zero s = s
drop (suc n) [] = []
drop (suc n) (c ∷ s) = drop n s

-- `strings.TrimPrefix(spec, "@every ")`, with the trims around it.
unfoldable pub duration_text : Str → Str
unfolding has_prefix trim_space
duration_text spec =
    let trimmed = trim_space spec in
    if has_prefix trimmed (str "@every ") then trim_space (drop 7 trimmed) else trimmed

abbrev positive : Option ℤ → Result SpecError ℕ
positive none = err invalid_schedule
positive (some (negsuc n)) = err not_positive
positive (some (pos n)) = if n == 0 then err not_positive else ok n

module _ (parse_duration : Str → Option ℤ) where
  -- `parseSpec`
  unfoldable pub parse_spec : Str → Result SpecError ℕ
  unfolding duration_text
  parse_spec spec = positive (parse_duration (duration_text spec))

  -- `Add`, on the entries of the scheduler.
  unfoldable pub add_schedule :
      {Task : Type 0}
      → (name spec : Str) → Task
      → List (ScheduleEntry Task)
      → Option SpecError × List (ScheduleEntry Task)
  unfolding parse_spec
  add_schedule name spec task entries = elim (parse_spec spec) [
    | err e ↦ (some e, entries)
    | ok interval ↦ (none, entries ++ record { name = name; interval = interval; task = task } ∷ [])
  ]
