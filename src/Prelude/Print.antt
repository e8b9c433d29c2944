-- ===== src/Prelude/Print.antt =====
-- `fmt.Sprintf("%d", v)` for a number of at most 64 bits.
pub mod Round
use Prim.Native.Nat.{ℕ, zero, suc, ◌+◌, ◌/◌, ◌%◌}
use mathlib.Core.List.{List, [], ◌∷◌, ◌++◌}
use xscope_hub.Prelude.Tests.{ltb, if◌then◌else◌}
use xscope_hub.Prelude.Text.{Bytes}
use xscope_hub.Prelude.Int.{ℤ, pos, negsuc}

-- The decimal digits of `n` before the text `s`, twenty at most.
unfoldable pub digits_before : ℕ → ℕ → Bytes → Bytes
digits_before zero n s = s
digits_before (suc fuel) n s =
    let more = digits_before fuel (n / 10) ((48 + n % 10) ∷ s) in
    if ltb n 10 then (48 + n) ∷ s else more

abbrev pub max_digits : ℕ
max_digits = 20

unfoldable pub format_nat : ℕ → Bytes
unfolding digits_before
format_nat n = digits_before max_digits n []

unfoldable pub format_int : ℤ → Bytes
unfolding format_nat
format_int (pos n) = format_nat n
format_int (negsuc n) = 45 ∷ format_nat (suc n)
