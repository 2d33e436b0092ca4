-- ===== src/Config/Tests.antt =====
-- Settings at concrete environments.
use elgon.Base.{ℕ, ◌≡◌, refl, true, Option, none, some, [], arith}
use elgon.Base.Int.{ℤ, pos}
use elgon.Base.Text.Atoi.{atoi, digits_from}
use elgon.Base.Text.{
  Str, str, str_eq, decimal, is_decimal, trim_space, trim, trim_left, trim_right, is_space,
}
use elgon.Config.{
  int, missing_required, signed, text, set_value, Fields, end, leaf, string, raw_text, load_field,
  load_from_env,
}
use elgon.Config.Numbers.{set_value-decimal}

abbrev no_float : Str → Option ℕ
no_float s = none

abbrev no_duration : Str → Option ℤ
no_duration s = none

set_value-decimal_example :
    set_value no_float no_duration (int 16) (str "8080") ≡ some (signed (pos 8080))
unfolding decimal
set_value-decimal_example =
    set_value-decimal no_float no_duration 15 8080 (omega arith) (omega arith)

-- A number that does not fit an int8 is stored without an error.
too_large : set_value no_float no_duration (int 8) (str "300") ≡ some (signed (pos 44))
unfolding set_value atoi digits_from is_decimal
too_large = refl

-- A required variable that is missing ends the loading.
abbrev settings : Fields no_float no_duration
settings =
    leaf
      (record {
        can_set = true;
        kind = string;
        env_tag = str "ADDR";
        default_tag = [];
        required = true;
        value = text [];
      })
      end

missing_fails :
    load_from_env no_float no_duration (λ name. []) settings
    ≡ (some (missing_required (str "ADDR")), settings)
unfolding load_from_env load_field raw_text str_eq trim_space trim trim_left trim_right is_space
missing_fails = refl
