-- ===== src/Common/Text/Numbers.antt =====
-- Numbers in text: `str(n)` of a number that is not negative, and `int(s)`.
use Prim.Native.Nat.{ℕ, zero, suc, ◌+◌, ◌-◌, ◌*◌, ◌/◌, ◌%◌}
use Prim.Native.Char.{code}
use Prim.Native.String.{String, char_at, [], ◌∷◌}
use mathlib.Core.Path.{◌≡◌, refl}
use mathlib.Core.Bool.{Bool, true, false, ◌&&◌}
use mathlib.Core.Option
use mathlib.Core.Option.{Option, none, some}
use sip_proxy.Common.Tests.{ltb, leb, ◌==◌, if◌then◌else◌}
use sip_proxy.Common.Int.{ℤ, pos, sub_ℕ}
use sip_proxy.Common.Text.{strip}

-- The digits of n before the text `rest`; the fuel n + 1 is enough, since n / 10 < n.
show_onto : ℕ → ℕ → String → String
show_onto zero n rest = rest
show_onto (suc fuel) n rest =
    let longer = char_at "0123456789" (n % 10) ∷ rest in
    let more = show_onto fuel (n / 10) longer in if ltb n 10 then longer else more

unfoldable pub show : ℕ → String
unfolding show_onto
show n = show_onto (suc n) n ""

-- Decimal digits, with single underscores between them; `after_digit` holds behind a digit.
digits : ℕ → Bool → String → Option ℕ
digits n after_digit [] = if after_digit then some n else none
digits n after_digit (c ∷ s) =
    let next = digits (n * 10 + (code c - 48)) true s in
    let skip = digits n false s in
    if leb 48 (code c) && leb (code c) 57
    then next
    else if code c == 95 && after_digit
    then skip
    else none

unsigned : String → Option ℕ
unfolding digits
unsigned s = digits 0 false s

signed : String → Option ℤ
unfolding unsigned
signed [] = none
signed (c ∷ s) =
    if code c == 45
    then Option.map (λ n. sub_ℕ 0 n) (unsigned s)
    else if code c == 43
    then Option.map pos (unsigned s)
    else Option.map pos (unsigned (c ∷ s))

-- `int(s)`; `none` is the `ValueError`
unfoldable pub parse_int : String → Option ℤ
unfolding signed strip
parse_int s = signed (strip s)

show_test : show 6001 ≡ "6001"
unfolding show
show_test = refl

parse_int_test : parse_int " -1_000\n" ≡ some (sub_ℕ 0 1000)
unfolding parse_int
parse_int_test = refl
