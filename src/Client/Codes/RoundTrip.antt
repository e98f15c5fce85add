-- ===== src/Client/Codes/RoundTrip.antt =====
-- Encoding and decoding of a line code, gfc-platform/control-plane/api/app/line_code.py.
use Prim.Native.Char.{code}
use sip_proxy.Common.{
  ℕ, zero, suc, ◌+◌, ◌-◌, ◌%◌, ◌<◌, ◌≡◌, ◌∙◌, refl, ap, String, Bool, true, false, ◌&&◌, Option,
  none, some, List, [], ◌∷◌, arith, All, ◌==◌, ==_iff, contains,
}
use sip_proxy.Common.Text.Codes.{in_alphabet, Coded, strip-Coded, upper-Coded, without-Coded}
use sip_proxy.Client.Codes.{
  bytes_bits, to_digits, digit_char, char_digit, digits_text, text_digits, text_length,
  equals_signs, add_padding, push_equals, strip_padding, padding, b32encode, encode_line_code,
  b32decode, normalized, decode_line_code,
}
use sip_proxy.Client.Codes.Bits.{passes_below, passes_below-each, to_bytes-to_digits}

abbrev IsDigit : ℕ → Type 0
IsDigit n = n < 32

digit_checks : ℕ → Bool
unfolding char_digit
digit_checks n =
    in_alphabet (digit_char n)
    && elim (char_digit (digit_char n)) [ none ↦ false | some m ↦ m == n ]

digits_checked : passes_below 32 digit_checks ≡ true
unfolding passes_below digit_checks
digits_checked = refl

digit_char-in_alphabet : (n : ℕ) → IsDigit n → in_alphabet (digit_char n) ≡ true
unfolding digit_checks
digit_char-in_alphabet n l =
    let h : digit_checks n ≡ true = passes_below-each 32 n digit_checks digits_checked l in
    ground (arith, h)

char_digit-digit_char : (n : ℕ) → IsDigit n → char_digit (digit_char n) ≡ some n
unfolding digit_checks
char_digit-digit_char n l = go (char_digit (digit_char n)) refl
  where
    go : (o : Option ℕ) → char_digit (digit_char n) ≡ o → o ≡ some n
    go none e =
        let h : digit_checks n ≡ true = passes_below-each 32 n digit_checks digits_checked l in
        absurd (let k = rw (e, digit_checks) at h in ground (arith, k))
    go (some m) e =
        let h : digit_checks n ≡ true = passes_below-each 32 n digit_checks digits_checked l in
        let k : (m == n) ≡ true = (let k = rw (e, digit_checks) at h in ground (arith, k)) in
        ap some ((==_iff m n).0 k)

to_digits-IsDigit : (bits : List Bool) → All IsDigit (to_digits bits)
unfolding to_digits
to_digits-IsDigit [] = tt
to_digits-IsDigit (a ∷ []) = (ground arith, tt)
to_digits-IsDigit (a ∷ b ∷ []) = (ground arith, tt)
to_digits-IsDigit (a ∷ b ∷ c ∷ []) = (ground arith, tt)
to_digits-IsDigit (a ∷ b ∷ c ∷ d ∷ []) = (ground arith, tt)
to_digits-IsDigit (a ∷ b ∷ c ∷ d ∷ e ∷ rest) = (ground arith, to_digits-IsDigit rest)

digits_text-Coded : (digits : List ℕ) → All IsDigit digits → Coded (digits_text digits)
digits_text-Coded [] h = tt
digits_text-Coded (n ∷ ns) (h, hs) = (digit_char-in_alphabet n h, digits_text-Coded ns hs)

text_digits-digits_text :
    (digits : List ℕ) → All IsDigit digits → text_digits (digits_text digits) ≡ some digits
unfolding text_digits
text_digits-digits_text [] h = refl
text_digits-digits_text (n ∷ ns) (h, hs) =
    rw (char_digit-digit_char n h, text_digits-digits_text ns hs, text_digits) refl

strip_padding-equals_signs : (n : ℕ) → strip_padding (equals_signs n) ≡ String.[]
unfolding strip_padding
strip_padding-equals_signs zero = refl
strip_padding-equals_signs (suc n) = rw (strip_padding-equals_signs n) refl

strip_padding-add_padding : (s : String) (n : ℕ) → Coded s → strip_padding (add_padding s n) ≡ s
unfolding strip_padding
strip_padding-add_padding String.[] n h = strip_padding-equals_signs n
strip_padding-add_padding (String.◌∷◌ c String.[]) n (h, hs) =
    let no_sign : (code c == 61) ≡ false = ground (arith, h) in
    rw (strip_padding-equals_signs n) (rw no_sign refl)
strip_padding-add_padding (String.◌∷◌ c (String.◌∷◌ d s)) n (h, hs) =
    ap (push_equals c) (strip_padding-add_padding (String.◌∷◌ d s) n hs)

text_length-equals_signs : (n : ℕ) → text_length (equals_signs n) ≡ n
text_length-equals_signs zero = refl
text_length-equals_signs (suc n) = ap suc (text_length-equals_signs n)

text_length-add_padding : (s : String) (n : ℕ) → text_length (add_padding s n) ≡ text_length s + n
text_length-add_padding String.[] n = omega (arith, text_length-equals_signs n)
text_length-add_padding (String.◌∷◌ c s) n = omega (arith, text_length-add_padding s n)

normalized-Coded : (s : String) → Coded s → normalized s ≡ s
unfolding normalized
normalized-Coded s h = rw (strip-Coded s h) (
    rw (upper-Coded s h) (
      rw (without-Coded 32 s (λ c i. ground (arith, i)) h)
        (without-Coded 45 s (λ c i. ground (arith, i)) h)))

abbrev is_padding : ℕ → Bool
is_padding n = contains n (0 ∷ 1 ∷ 3 ∷ 4 ∷ 6 ∷ [])

abbrev code_text : List ℕ → String
code_text bytes = digits_text (to_digits (bytes_bits bytes))

padding_eight : (k : ℕ) → padding (suc (suc (suc (suc (suc (suc (suc (suc k)))))))) ≡ padding k
padding_eight k = omega arith

-- The length of a code lacks a padding that the decoder takes.
padding-code_text : (bytes : List ℕ) → is_padding (padding (text_length (code_text bytes))) ≡ true
unfolding to_digits
padding-code_text [] = refl
padding-code_text (a ∷ []) = refl
padding-code_text (a ∷ b ∷ []) = refl
padding-code_text (a ∷ b ∷ c ∷ []) = refl
padding-code_text (a ∷ b ∷ c ∷ d ∷ []) = refl
padding-code_text (a ∷ b ∷ c ∷ d ∷ e ∷ rest) =
    ap is_padding (padding_eight (text_length (code_text rest))) ∙ padding-code_text rest

encode_line_code-text :
    (bytes : List ℕ) → Coded (code_text bytes) → encode_line_code bytes ≡ code_text bytes
unfolding encode_line_code b32encode
encode_line_code-text bytes h =
    strip_padding-add_padding (code_text bytes) (padding (text_length (code_text bytes))) h

whole : (k : ℕ) → ((k + padding k) % 8 == 0) ≡ true
whole k = (==_iff ((k + padding k) % 8) 0).1 (omega arith)

b32decode-code_text :
    (bytes : List ℕ)
    → All (λ n. n < 256) bytes
    → b32decode (add_padding (code_text bytes) (padding (text_length (code_text bytes))))
      ≡ some bytes
unfolding b32decode
b32decode-code_text bytes h =
    let digits : List ℕ = to_digits (bytes_bits bytes) in
    let d : All IsDigit digits = to_digits-IsDigit (bytes_bits bytes) in
    let text : String = digits_text digits in
    let k : ℕ = text_length text in
    let stripped = strip_padding-add_padding text (padding k) (digits_text-Coded digits d) in
    let counted = text_length-add_padding text (padding k) in
    let left : k + padding k - k ≡ padding k = omega arith in
    rw (stripped, counted, whole k, left, padding-code_text bytes, text_digits-digits_text digits d)
      (ap some (to_bytes-to_digits bytes h))

-- For any bytes, the line code of the bytes decodes to them; so does every text that the decoder's
-- trims, capitals and removal of spaces and dashes turn into that code.
pub decode_line_code-encode_line_code :
    (raw : List ℕ) (typed : String)
    → All (λ n. n < 256) raw
    → normalized typed ≡ encode_line_code raw
    → (decode_line_code (encode_line_code raw) ≡ some raw) × (decode_line_code typed ≡ some raw)
unfolding decode_line_code
decode_line_code-encode_line_code raw typed h e =
    let coded : Coded (code_text raw) =
      digits_text-Coded (to_digits (bytes_bits raw)) (to_digits-IsDigit (bytes_bits raw)) in
    let same : encode_line_code raw ≡ code_text raw = encode_line_code-text raw coded in
    (
      rw (same, normalized-Coded (code_text raw) coded) (b32decode-code_text raw h),
      rw (e, same) (b32decode-code_text raw h),
    )
