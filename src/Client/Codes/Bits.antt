-- ===== src/Client/Codes/Bits.antt =====
-- Bytes and base32 digits of gfc-platform/control-plane/api/app/line_code.py as bits.
use sip_proxy.Common.{
  ℕ, zero, suc, ◌+◌, ◌<◌, ◌≡◌, ◌∙◌, refl, ap, Bool, true, false, ◌&&◌, List, [], ◌∷◌, ◌++◌, arith,
  inl, inr, Bool-cases, All, ◌==◌, ==_iff,
}
use sip_proxy.Client.Codes.{
  bit, weigh, digit_bits, digit_of_bits, bytes_bits, digits_bits, to_digits, to_bytes,
}

-- A test that passes for every number below a bound.
unfoldable pub passes_below : ℕ → (ℕ → Bool) → Bool
passes_below zero p = true
passes_below (suc n) p = p n && passes_below n p

pub passes_below-each : (n k : ℕ) (p : ℕ → Bool) → passes_below n p ≡ true → k < n → p k ≡ true
unfolding passes_below
passes_below-each zero k p h l = absurd (omega (arith, l))
passes_below-each (suc n) k p h l = elim (Bool-cases (k == n)) [
  | inl same ↦ let e : k ≡ n = (==_iff k n).0 same in rw e (ground (arith, h))
  | inr other ↦ passes_below-each n k p (ground (arith, h)) (ground (arith, l, other))
]

abbrev byte_of : ℕ → ℕ
byte_of n =
    weigh 128 (bit 128 n)
    + (weigh 64 (bit 64 n)
        + (weigh 32 (bit 32 n)
            + (weigh 16 (bit 16 n)
                + (weigh 8 (bit 8 n)
                    + (weigh 4 (bit 4 n) + (weigh 2 (bit 2 n) + weigh 1 (bit 1 n)))))))

bytes_checked : passes_below 256 (λ n. byte_of n == n) ≡ true
unfolding passes_below
bytes_checked = refl

byte_of-byte : (n : ℕ) → n < 256 → byte_of n ≡ n
byte_of-byte n l =
    (==_iff (byte_of n) n).0 (passes_below-each 256 n (λ n. byte_of n == n) bytes_checked l)

-- The bits that fill up the last digit.
filling : List Bool → List Bool
filling [] = []
filling (a ∷ []) = false ∷ false ∷ false ∷ false ∷ []
filling (a ∷ b ∷ []) = false ∷ false ∷ false ∷ []
filling (a ∷ b ∷ c ∷ []) = false ∷ false ∷ []
filling (a ∷ b ∷ c ∷ d ∷ []) = false ∷ []
filling (a ∷ b ∷ c ∷ d ∷ e ∷ rest) = filling rest

digit_bits-digit :
    (a b c d e : Bool) → digit_bits (digit_of_bits a b c d e) ≡ (a ∷ b ∷ c ∷ d ∷ e ∷ [])
digit_bits-digit a b c d e = ground arith

digits_bits-to_digits : (bits : List Bool) → digits_bits (to_digits bits) ≡ bits ++ filling bits
unfolding to_digits filling
digits_bits-to_digits [] = refl
digits_bits-to_digits (a ∷ []) = digit_bits-digit a false false false false
digits_bits-to_digits (a ∷ b ∷ []) = digit_bits-digit a b false false false
digits_bits-to_digits (a ∷ b ∷ c ∷ []) = digit_bits-digit a b c false false
digits_bits-to_digits (a ∷ b ∷ c ∷ d ∷ []) = digit_bits-digit a b c d false
digits_bits-to_digits (a ∷ b ∷ c ∷ d ∷ e ∷ rest) =
    ap (λ (l : List Bool). l ++ digits_bits (to_digits rest)) (digit_bits-digit a b c d e)
    ∙ ap (λ (l : List Bool). a ∷ b ∷ c ∷ d ∷ e ∷ l) (digits_bits-to_digits rest)

to_bytes-filling : (bits : List Bool) → to_bytes (filling bits) ≡ []
unfolding to_bytes filling
to_bytes-filling [] = refl
to_bytes-filling (a ∷ []) = refl
to_bytes-filling (a ∷ b ∷ []) = refl
to_bytes-filling (a ∷ b ∷ c ∷ []) = refl
to_bytes-filling (a ∷ b ∷ c ∷ d ∷ []) = refl
to_bytes-filling (a ∷ b ∷ c ∷ d ∷ e ∷ rest) = to_bytes-filling rest

to_bytes-bytes_bits :
    (bytes : List ℕ) (more : List Bool)
    → All (λ n. n < 256) bytes
    → to_bytes more ≡ []
    → to_bytes (bytes_bits bytes ++ more) ≡ bytes
unfolding to_bytes
to_bytes-bytes_bits [] more h e = e
to_bytes-bytes_bits (n ∷ ns) more (h, hs) e =
    rw (to_bytes-bytes_bits ns more hs e) (ap (λ m. m ∷ ns) (byte_of-byte n h))

-- The digits of bytes give the bytes back.
pub to_bytes-to_digits :
    (bytes : List ℕ)
    → All (λ n. n < 256) bytes
    → to_bytes (digits_bits (to_digits (bytes_bits bytes))) ≡ bytes
to_bytes-to_digits bytes h =
    rw (digits_bits-to_digits (bytes_bits bytes)) (
      to_bytes-bytes_bits bytes (filling (bytes_bits bytes)) h
        (to_bytes-filling (bytes_bits bytes)))
