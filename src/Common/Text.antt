-- ===== src/Common/Text.antt =====
-- The methods of Python's `str` that the program uses, over the native texts. Letters and white
-- space are those of ASCII.
pub mod Membership
pub mod Numbers
pub mod Words
pub mod Codes
pub mod Strip
use Prim.Native.Nat.{ℕ, zero, suc, ◌-◌, Ordering}
use Prim.Native.Char.{Char, code}
use Prim.Native.String
use Prim.Native.String.{String, char_at, [], ◌∷◌}
use mathlib.Core.Path.{◌≡◌, refl}
use mathlib.Core.Bool.{Bool, true, false, ◌&&◌, ◌||◌}
use mathlib.Core.Option.{Option, none, some}
use mathlib.Core.List.{List}
use sip_proxy.Common.Tests.{leb, ◌==◌, str_eq, if◌then◌else◌}

pub is_space : ℕ → Bool
is_space c = c == 32 || (leb 9 c && leb c 13) || (leb 28 c && leb c 31)

lstrip : String → String
lstrip [] = []
lstrip (c ∷ s) = let rest = lstrip s in if is_space (code c) then rest else c ∷ s

push_space : Char → String → String
push_space c [] = if is_space (code c) then [] else c ∷ []
push_space c (d ∷ s) = c ∷ d ∷ s

rstrip : String → String
rstrip [] = []
rstrip (c ∷ s) = push_space c (rstrip s)

-- `s.strip()`
unfoldable pub strip : String → String
unfolding is_space lstrip push_space rstrip
strip s = rstrip (lstrip s)

lower_char : Char → Char
lower_char c =
    if leb 65 (code c) && leb (code c) 90
    then char_at "abcdefghijklmnopqrstuvwxyz" (code c - 65)
    else c

-- `s.lower()`
unfoldable pub lower : String → String
unfolding lower_char
lower [] = []
lower (c ∷ s) = lower_char c ∷ lower s

-- `k in names`
abbrev pub elem : String → List String → Bool
elem k List.[] = false
elem k (List.◌∷◌ x xs) = str_eq k x || elem k xs

insert_text : String → List String → List String
insert_text x List.[] = List.◌∷◌ x List.[]
insert_text x (List.◌∷◌ y ys) =
    let rest = insert_text x ys in
    elim (String.compare x y) [ Ordering.gt ↦ List.◌∷◌ y rest | _ ↦ List.◌∷◌ x (List.◌∷◌ y ys) ]

-- `sorted(names)`
unfoldable pub sorted : List String → List String
unfolding insert_text
sorted List.[] = List.[]
sorted (List.◌∷◌ x xs) = insert_text x (sorted xs)

-- `sep.join(names)`
unfoldable pub join : String → List String → String
join sep List.[] = ""
join sep (List.◌∷◌ x List.[]) = x
join sep (List.◌∷◌ x (List.◌∷◌ y ys)) = String.◌++◌ x (String.◌++◌ sep (join sep (List.◌∷◌ y ys)))

-- `value or ""` for a text that may be missing
abbrev pub or_empty : Option String → String
or_empty none = ""
or_empty (some s) = s

strip_test : strip "  Admin\n" ≡ "Admin"
unfolding strip
strip_test = refl

lower_test : lower "Admin" ≡ "admin"
unfolding lower
lower_test = refl

-- `s[:n]`
unfoldable pub take_text : ℕ → String → String
take_text zero s = []
take_text (suc n) [] = []
take_text (suc n) (c ∷ s) = c ∷ take_text n s

-- the pieces of an f-string
unfoldable pub concat : List String → String
concat List.[] = ""
concat (List.◌∷◌ s ss) = String.◌++◌ s (concat ss)

upper_char : Char → Char
upper_char c =
    if leb 97 (code c) && leb (code c) 122
    then char_at "ABCDEFGHIJKLMNOPQRSTUVWXYZ" (code c - 97)
    else c

-- `s.upper()`
unfoldable pub upper : String → String
unfolding upper_char
upper [] = []
upper (c ∷ s) = upper_char c ∷ upper s

-- `s.replace(c, "")` for one character, by its code
unfoldable pub without : ℕ → String → String
without c [] = []
without c (d ∷ s) = let rest = without c s in if code d == c then rest else d ∷ rest

-- `s.startswith(prefix)`
unfoldable pub starts_with : String → String → Bool
starts_with [] s = true
starts_with (c ∷ prefix) [] = false
starts_with (c ∷ prefix) (d ∷ s) = code c == code d && starts_with prefix s

-- `a <= b` of texts
unfoldable pub text_leb : String → String → Bool
text_leb a b = elim (String.compare a b) [ Ordering.gt ↦ false | _ ↦ true ]
