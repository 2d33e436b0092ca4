-- ===== src/Config.antt =====
-- config/config.go: settings from the environment. What the code reads of a struct by reflection is a
-- value; `strconv.ParseFloat` and `time.ParseDuration` are parameters.
pub mod Numbers
mod Tests
use elgon.Base.{
  ℕ, ◌-◌, ◌%◌, ◌^◌, Bool, true, false, not, ◌&&◌, ◌||◌, Option, none, some, List, [], ◌∷◌, ltb,
  if◌then◌else◌,
}
use elgon.Base.Int.{ℤ, pos, negsuc, two_64}
use elgon.Base.Text.Atoi.{atoi, digits_from}
use elgon.Base.Text.{Str, str, str_eq, trim_space}
use elgon.Base.Result.{Result, ok, err}

-- The kinds of fields; an integer with its number of bits.
pub data Kind : Type 0 where
  string bool duration float other : Kind
  int uint : ℕ → Kind

-- The value of a field.
pub data Setting (F : Type 0) : Type 0 where
  text : Str → Setting F
  flag : Bool → Setting F
  signed : ℤ → Setting F
  unsigned : ℕ → Setting F
  floating : F → Setting F

pub data ConfigError : Type 0 where
  missing_required : Str → ConfigError
  bad_value : Str → ConfigError

-- The integer of so many bits whose bits are the low ones of a number: `SetInt` keeps these.
abbrev pub of_bits : ℕ → ℕ → ℤ
of_bits bits low = if ltb low (2 ^ (bits - 1)) then pos low else negsuc (2 ^ bits - 1 - low)

abbrev pub wrap_int : ℕ → ℤ → ℤ
wrap_int bits (pos n) = of_bits bits (n % 2 ^ bits)
wrap_int bits (negsuc n) = of_bits bits (2 ^ bits - 1 - n % 2 ^ bits)

abbrev one_of : Str → List Str → Bool
one_of s [] = false
one_of s (t ∷ ts) = str_eq s t || one_of s ts

-- `strconv.ParseBool`
unfoldable pub parse_bool : Str → Option Bool
unfolding str_eq
parse_bool s =
    if one_of s (str "1" ∷ str "t" ∷ str "T" ∷ str "TRUE" ∷ str "true" ∷ str "True" ∷ [])
    then some true
    else if one_of s (str "0" ∷ str "f" ∷ str "F" ∷ str "FALSE" ∷ str "false" ∷ str "False" ∷ [])
    then some false
    else none

abbrev below_two_64 : Option ℕ → Option ℕ
below_two_64 none = none
below_two_64 (some n) = if ltb n two_64 then some n else none

-- `strconv.ParseUint` to the base 10, for 64 bits.
unfoldable pub parse_uint : Str → Option ℕ
unfolding digits_from
parse_uint [] = none
parse_uint (c ∷ s) = below_two_64 (digits_from 0 (c ∷ s))

module _ {F : Type 0} (parse_float : Str → Option F) (parse_duration : Str → Option ℤ) where
  abbrev as_flag : Option Bool → Option (Setting F)
  as_flag none = none
  as_flag (some b) = some (flag b)

  abbrev pub as_signed : ℕ → Option ℤ → Option (Setting F)
  as_signed bits none = none
  as_signed bits (some v) = some (signed (wrap_int bits v))

  abbrev as_unsigned : ℕ → Option ℕ → Option (Setting F)
  as_unsigned bits none = none
  as_unsigned bits (some v) = some (unsigned (v % 2 ^ bits))

  abbrev as_float : Option F → Option (Setting F)
  as_float none = none
  as_float (some f) = some (floating f)

  -- `setValue`: the value that it stores, or none for an error. A duration has 64 bits.
  unfoldable pub set_value : Kind → Str → Option (Setting F)
  unfolding parse_bool parse_uint atoi
  set_value string raw = some (text raw)
  set_value bool raw = as_flag (parse_bool raw)
  set_value duration raw = as_signed 64 (parse_duration raw)
  set_value (int bits) raw = as_signed bits (atoi raw)
  set_value (uint bits) raw = as_unsigned bits (parse_uint raw)
  set_value float raw = as_float (parse_float raw)
  set_value other raw = none

  -- A field that is no struct, with its tags and its value.
  pub record EnvField : Type 0 where
    pub can_set : Bool
    pub kind : Kind
    pub env_tag : Str
    pub default_tag : Str
    pub required : Bool
    pub value : Setting F

  pub data Fields : Type 0 where
    end : Fields
    leaf : EnvField → Fields → Fields
    nested : (can_set : Bool) → Fields → Fields → Fields

  -- The text for a field: that of the environment, or else the default.
  unfoldable pub raw_text : (Str → Str) → EnvField → Str
  unfolding trim_space str_eq
  raw_text getenv f =
      let raw = trim_space (getenv (trim_space f.env_tag)) in
      if str_eq raw (str "") then trim_space f.default_tag else raw

  abbrev stored : Str → EnvField → Option (Setting F) → Result ConfigError EnvField
  stored key f none = err (bad_value key)
  stored key f (some v) = ok (record f { value = v })

  -- The body of the loop of `loadFromEnv`, for a field that is no struct.
  unfoldable pub load_field : (Str → Str) → EnvField → Result ConfigError EnvField
  unfolding raw_text set_value trim_space str_eq
  load_field getenv f =
      let key = trim_space f.env_tag in
      let raw = raw_text getenv f in
      if not f.can_set || str_eq key (str "")
      then ok f
      else if str_eq raw (str "") && f.required
      then err (missing_required key)
      else if str_eq raw (str "")
      then ok f
      else stored key f (set_value f.kind raw)

  -- `loadFromEnv`: the fields as it leaves them, and the error.
  unfoldable pub load_from_env : (Str → Str) → Fields → Option ConfigError × Fields
  unfolding load_field
  load_from_env getenv end = (none, end)
  load_from_env getenv (leaf f rest) =
      let (failed, rest') = load_from_env getenv rest in
      elim (load_field getenv f) [ err e ↦ (some e, leaf f rest) | ok f' ↦ (failed, leaf f' rest') ]
  load_from_env getenv (nested can_set inner rest) =
      let (inner_failed, inner') = load_from_env getenv inner in
      let (failed, rest') = load_from_env getenv rest in
      if not can_set then (failed, nested can_set inner rest') else elim inner_failed [
        | some e ↦ (some e, nested can_set inner' rest)
        | none ↦ (failed, nested can_set inner' rest')
      ]
