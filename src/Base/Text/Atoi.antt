-- ===== src/Base/Text/Atoi.antt =====
-- `strconv.Atoi`, where int has 64 bits.
use Prim.Native.Nat.{ℕ, ◌+◌, ◌-◌, ◌*◌}
use mathlib.Core.Option.{Option, none, some}
use mathlib.Core.List.{[], ◌∷◌}
use elgon.Base.Tests.{leb, ltb, ◌==◌, if◌then◌else◌}
use elgon.Base.Int.{ℤ, pos, negsuc, two_63}
use elgon.Base.Text.{Str, is_decimal}

unfoldable pub digits_from : ℕ → Str → Option ℕ
unfolding is_decimal
digits_from n [] = some n
digits_from n (c ∷ s) =
    let rest = digits_from (n * 10 + (c - b'0')) s in if is_decimal c then rest else none

abbrev unsigned : Str → Option ℕ
unsigned [] = none
unsigned (c ∷ s) = digits_from 0 (c ∷ s)

abbrev positive : Option ℕ → Option ℤ
positive none = none
positive (some n) = if ltb n two_63 then some (pos n) else none

abbrev negative : Option ℕ → Option ℤ
negative none = none
negative (some n) =
    if n == 0 then some (pos 0) else if leb n two_63 then some (negsuc (n - 1)) else none

-- `strconv.Atoi(s)`
unfoldable pub atoi : Str → Option ℤ
unfolding digits_from
atoi [] = none
atoi (c ∷ s) =
    if c == b'-'
    then negative (unsigned s)
    else if c == b'+'
    then positive (unsigned s)
    else positive (unsigned (c ∷ s))
