-- ===== src/Common/Text/Codes.antt =====
-- Texts of capital letters and the digits 2 to 7, and the methods of `str` on them.
use Prim.Native.Nat.{ℕ}
use Prim.Native.Char.{Char, code}
use Prim.Native.String.{String, [], ◌∷◌}
use mathlib.Core.Path.{◌≡◌, ◌∙◌, refl, ap}
use mathlib.Core.Bool.{Bool, true, false, ◌&&◌, ◌||◌}
use native.Mathlib.Omega.{arith}
use sip_proxy.Common.Tests.{leb, ◌==◌}
use sip_proxy.Common.Text.{is_space, lstrip, push_space, rstrip, strip, upper_char, upper, without}

abbrev pub in_alphabet : Char → Bool
in_alphabet c = (leb 65 (code c) && leb (code c) 90) || (leb 50 (code c) && leb (code c) 55)

abbrev pub Coded : String → Type 0
Coded [] = Unit
Coded (c ∷ s) = (in_alphabet c ≡ true) × Coded s

not_space : (c : Char) → in_alphabet c ≡ true → is_space (code c) ≡ false
unfolding is_space
not_space c h = ground (arith, h)

lstrip-Coded : (s : String) → Coded s → lstrip s ≡ s
unfolding lstrip
lstrip-Coded [] h = refl
lstrip-Coded (c ∷ s) (h, hs) = rw (not_space c h) refl

rstrip-Coded : (s : String) → Coded s → rstrip s ≡ s
unfolding rstrip push_space
rstrip-Coded [] h = refl
rstrip-Coded (c ∷ []) (h, hs) = rw (not_space c h) refl
rstrip-Coded (c ∷ d ∷ s) (h, hs) = ap (push_space c) (rstrip-Coded (d ∷ s) hs)

pub strip-Coded : (s : String) → Coded s → strip s ≡ s
unfolding strip
strip-Coded s h = ap rstrip (lstrip-Coded s h) ∙ rstrip-Coded s h

pub upper-Coded : (s : String) → Coded s → upper s ≡ s
unfolding upper upper_char
upper-Coded [] h = refl
upper-Coded (c ∷ s) (h, hs) =
    let low : (leb 97 (code c) && leb (code c) 122) ≡ false = ground (arith, h) in
    rw (low, upper-Coded s hs) refl

pub without-Coded :
    (n : ℕ) (s : String)
    → ((c : Char) → in_alphabet c ≡ true → (code c == n) ≡ false)
    → Coded s
    → without n s ≡ s
unfolding without
without-Coded n [] out h = refl
without-Coded n (c ∷ s) out (h, hs) = rw (out c h, without-Coded n s out hs) refl
