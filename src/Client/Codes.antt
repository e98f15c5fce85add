-- ===== src/Client/Codes.antt =====
-- The line codes of gfc-platform/control-plane/api/app/line_code.py: bytes as base32 text, without its
-- padding, and back. The payload is given by the bytes of its JSON text, each below 256. `b32encode`
-- and `b32decode` are those of Python's base64: eight digits for five bytes, most significant first.
pub mod Bits
pub mod RoundTrip
use Prim.Native.Char.{Char, code}
use Prim.Native.String.{char_at}
use Prim.Native.String
use sip_proxy.Common.{
  ℕ, zero, suc, ◌+◌, ◌-◌, ◌*◌, ◌/◌, ◌%◌, String, Bool, true, false, not, ◌&&◌, ◌||◌, Option, none,
  some, List, [], ◌∷◌, ◌++◌, leb, ◌==◌, if◌then◌else◌, contains,
}
use sip_proxy.Common.Text.{strip, upper, without}

abbrev pub bit : ℕ → ℕ → Bool
bit weight n = (n / weight) % 2 == 1

abbrev pub weigh : ℕ → Bool → ℕ
weigh weight b = if b then weight else 0

-- The bits of a byte, the highest first.
abbrev pub byte_bits : ℕ → List Bool
byte_bits n =
    bit 128 n ∷ bit 64 n ∷ bit 32 n ∷ bit 16 n ∷ bit 8 n ∷ bit 4 n ∷ bit 2 n ∷ bit 1 n ∷ []

abbrev pub digit_bits : ℕ → List Bool
digit_bits n = bit 16 n ∷ bit 8 n ∷ bit 4 n ∷ bit 2 n ∷ bit 1 n ∷ []

abbrev pub digit_of_bits : Bool → Bool → Bool → Bool → Bool → ℕ
digit_of_bits a b c d e = weigh 16 a + (weigh 8 b + (weigh 4 c + (weigh 2 d + weigh 1 e)))

abbrev pub bytes_bits : List ℕ → List Bool
bytes_bits [] = []
bytes_bits (n ∷ ns) = byte_bits n ++ bytes_bits ns

abbrev pub digits_bits : List ℕ → List Bool
digits_bits [] = []
digits_bits (n ∷ ns) = digit_bits n ++ digits_bits ns

-- The digits of the bits, the last one filled with zeros.
unfoldable pub to_digits : List Bool → List ℕ
to_digits [] = []
to_digits (a ∷ []) = digit_of_bits a false false false false ∷ []
to_digits (a ∷ b ∷ []) = digit_of_bits a b false false false ∷ []
to_digits (a ∷ b ∷ c ∷ []) = digit_of_bits a b c false false ∷ []
to_digits (a ∷ b ∷ c ∷ d ∷ []) = digit_of_bits a b c d false ∷ []
to_digits (a ∷ b ∷ c ∷ d ∷ e ∷ rest) = digit_of_bits a b c d e ∷ to_digits rest

-- The whole bytes of the bits.
unfoldable pub to_bytes : List Bool → List ℕ
to_bytes (a ∷ b ∷ c ∷ d ∷ e ∷ f ∷ g ∷ h ∷ rest) =
    (weigh 128 a
      + (weigh 64 b
          + (weigh 32 c + (weigh 16 d + (weigh 8 e + (weigh 4 f + (weigh 2 g + weigh 1 h)))))))
    ∷ to_bytes rest
to_bytes _ = []

abbrev pub digit_char : ℕ → Char
digit_char n = char_at "ABCDEFGHIJKLMNOPQRSTUVWXYZ234567" n

unfoldable pub char_digit : Char → Option ℕ
char_digit c =
    if leb 65 (code c) && leb (code c) 90
    then some (code c - 65)
    else if leb 50 (code c) && leb (code c) 55
    then some (code c - 50 + 26)
    else none

abbrev pub digits_text : List ℕ → String
digits_text [] = String.[]
digits_text (n ∷ ns) = String.◌∷◌ (digit_char n) (digits_text ns)

unfoldable pub text_digits : String → Option (List ℕ)
unfolding char_digit
text_digits String.[] = some []
text_digits (String.◌∷◌ c s) = elim (char_digit c) [
  | none ↦ none
  | some n ↦ elim (text_digits s) [ none ↦ none | some ns ↦ some (n ∷ ns) ]
]

abbrev pub text_length : String → ℕ
text_length String.[] = 0
text_length (String.◌∷◌ c s) = suc (text_length s)

abbrev pub equals_signs : ℕ → String
equals_signs zero = String.[]
equals_signs (suc n) = String.◌∷◌ (char_at "=" 0) (equals_signs n)

-- `s + "=" * n`
abbrev pub add_padding : String → ℕ → String
add_padding String.[] n = equals_signs n
add_padding (String.◌∷◌ c s) n = String.◌∷◌ c (add_padding s n)

abbrev pub push_equals : Char → String → String
push_equals c String.[] = if code c == 61 then String.[] else String.◌∷◌ c String.[]
push_equals c (String.◌∷◌ d s) = String.◌∷◌ c (String.◌∷◌ d s)

-- `s.rstrip("=")`
unfoldable pub strip_padding : String → String
strip_padding String.[] = String.[]
strip_padding (String.◌∷◌ c s) = push_equals c (strip_padding s)

-- `(-n) % 8`
abbrev pub padding : ℕ → ℕ
padding n = (8 - n % 8) % 8

unfoldable pub b32encode : List ℕ → String
unfolding to_digits
b32encode bytes =
    let text = digits_text (to_digits (bytes_bits bytes)) in
    add_padding text (padding (text_length text))

unfoldable pub encode_line_code : List ℕ → String
unfolding b32encode strip_padding
encode_line_code raw = strip_padding (b32encode raw)

-- `none` is a `binascii.Error`.
unfoldable pub b32decode : String → Option (List ℕ)
unfolding strip_padding text_digits to_bytes
b32decode s =
    let digits = strip_padding s in
    if not (text_length s % 8 == 0)
    then none
    else if not (contains (text_length s - text_length digits) (0 ∷ 1 ∷ 3 ∷ 4 ∷ 6 ∷ []))
    then none
    else elim (text_digits digits) [ none ↦ none | some ns ↦ some (to_bytes (digits_bits ns)) ]

unfoldable pub normalized : String → String
unfolding strip upper without
normalized s = without 45 (without 32 (upper (strip s)))

-- The bytes of the JSON text.
unfoldable pub decode_line_code : String → Option (List ℕ)
unfolding normalized b32decode
decode_line_code s = b32decode (add_padding (normalized s) (padding (text_length (normalized s))))
