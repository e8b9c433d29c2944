-- ===== src/Prelude/Strconv.antt =====
-- `strconv.ParseInt(s, 10, 64)`.
use Prim.Native.Nat.{ℕ, ◌+◌, ◌-◌, ◌*◌}
use mathlib.Core.Bool.{Bool, true, false, ◌&&◌}
use mathlib.Core.Option.{Option, none, some}
use mathlib.Core.List.{[], ◌∷◌}
use xscope_hub.Prelude.Tests.{◌==◌, leb, ltb, if◌then◌else◌}
use xscope_hub.Prelude.Text.{Bytes}
use xscope_hub.Prelude.Int.{ℤ, pos, negsuc}
use xscope_hub.Prelude.Results.{Outcome, ok, err}

abbrev pub is_digit : ℕ → Bool
is_digit c = leb 48 c && leb c 57

-- The number that digits write, `n` being that of the digits before them.
unfoldable pub digits_from : ℕ → Bytes → Option ℕ
digits_from n [] = some n
digits_from n (c ∷ s) =
    let rest = digits_from (n * 10 + (c - 48)) s in if is_digit c then rest else none

unfoldable pub digits : Bytes → Option ℕ
unfolding digits_from
digits [] = none
digits (c ∷ s) = digits_from 0 (c ∷ s)

-- 2^63
abbrev pub int64_cutoff : ℕ
int64_cutoff = 9223372036854775808

abbrev pub negated : ℕ → ℤ
negated n = if n == 0 then pos 0 else negsuc (n - 1)

abbrev pub in_range : Bool → Option ℕ → Outcome ℤ ℤ
in_range neg none = err (pos 0)
in_range true (some n) = if ltb int64_cutoff n then err (negated int64_cutoff) else ok (negated n)
in_range false (some n) = if leb int64_cutoff n then err (pos (int64_cutoff - 1)) else ok (pos n)

-- The number, or with an error the number that Go returns beside it: 0 for a text that is no
-- number, and the nearest bound for a number out of range.
unfoldable pub parse_int : Bytes → Outcome ℤ ℤ
unfolding digits
parse_int [] = err (pos 0)
parse_int (c ∷ s) =
    if c == 45
    then in_range true (digits s)
    else if c == 43
    then in_range false (digits s)
    else in_range false (digits (c ∷ s))
