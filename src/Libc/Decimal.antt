-- ===== src/Libc/Decimal.antt =====
-- Decimal numbers are read back from their print.
use vader_langue.Prelude.{
  ℕ, suc, zero, ◌+◌, ◌*◌, ◌/◌, ◌%◌, ◌≡◌, ◌≤◌, ◌<◌, refl, ap, ◌∙◌, ltb→lt, false, [], ◌∷◌, ◌++◌,
  append_assoc, Bytes, ℤ, pos, negsuc, arith, ltb, inl, inr, Bool-cases,
}
use vader_langue.Libc.{
  is_digit, digits_fuel, digits, print_int, scan_digits, skip_space, read_signed, atoll, negate,
}

-- The text does not go on with a digit.
abbrev pub NoDigit : Bytes → Type 0
NoDigit [] = Unit
NoDigit (c ∷ s) = is_digit c ≡ false

scan_digit :
    (acc d : ℕ) (s : Bytes) → d < 10 → scan_digits acc ((48 + d) ∷ s) ≡ scan_digits (acc * 10 + d) s
unfolding scan_digits
scan_digit acc d s h = ground arith

scan_stop : (acc : ℕ) (s : Bytes) → NoDigit s → scan_digits acc s ≡ acc
unfolding scan_digits
scan_stop acc [] h = refl
scan_stop acc (c ∷ s) h = rw h

scan-digits_fuel :
    (f n : ℕ) (s : Bytes) → n ≤ f → scan_digits 0 (digits_fuel f n ++ s) ≡ scan_digits n s
unfolding digits_fuel
scan-digits_fuel zero n s h =
    scan_digit 0 (n % 10) s (omega arith) ∙ ap (λ k. scan_digits k s) (omega arith)
scan-digits_fuel (suc f) n s h = elim (Bool-cases (ltb n 10)) [
  | inl e ↦ rw e (scan_digit 0 n s (ltb→lt n 10 e) ∙ ap (λ k. scan_digits k s) (omega arith))
  | inr e ↦
      rw (e, append_assoc)
        (scan-digits_fuel f (n / 10) ((48 + n % 10) ∷ s) (ground arith)
          ∙ scan_digit (n / 10) (n % 10) s (omega arith)
          ∙ ap (λ k. scan_digits k s) (omega arith))
]

-- Reading stops exactly at the end of the printed number.
pub scan-digits : (n : ℕ) (s : Bytes) → NoDigit s → scan_digits 0 (digits n ++ s) ≡ n
unfolding digits
scan-digits n s h = scan-digits_fuel n n s (omega arith) ∙ scan_stop n s h

-- A printed number begins with a digit.
pub digits_first : (f n : ℕ) → (d : ℕ) × (r : Bytes) × (d < 10) × (digits_fuel f n ≡ (48 + d) ∷ r)
unfolding digits_fuel
digits_first zero n = (n % 10, [], omega arith, refl)
digits_first (suc f) n = elim (Bool-cases (ltb n 10)) [
  | inl e ↦ (n, [], ltb→lt n 10 e, rw e)
  | inr e ↦ let (d, r, h, q) = digits_first f (n / 10) in (d, r ++ (48 + n % 10) ∷ [], h, rw (e, q))
]

read_digit :
    (d : ℕ) (s : Bytes)
    → d < 10
    → read_signed (skip_space ((48 + d) ∷ s)) ≡ pos (scan_digits 0 ((48 + d) ∷ s))
unfolding skip_space
read_digit d s h = ground arith

signed_digits : (n : ℕ) (s : Bytes) → atoll (digits n ++ s) ≡ pos (scan_digits 0 (digits n ++ s))
unfolding atoll digits
signed_digits n s = let (d, r, l, q) = digits_first n n in rw q (read_digit d (r ++ s) l)

signed_minus : (x : Bytes) → atoll (b'-' ∷ x) ≡ negate (scan_digits 0 x)
unfolding atoll
signed_minus x = refl

-- `atoll` reads back what `%lld` prints, whatever follows that is not a digit.
pub atoll-print_int : (i : ℤ) (s : Bytes) → NoDigit s → atoll (print_int i ++ s) ≡ i
atoll-print_int (pos n) s h = unfold print_int in signed_digits n s ∙ ap pos (scan-digits n s h)
atoll-print_int (negsuc n) s h =
    unfold print_int in signed_minus (digits (suc n) ++ s) ∙ ap negate (scan-digits (suc n) s h)
