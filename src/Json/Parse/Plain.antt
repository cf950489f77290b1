-- ===== src/Json/Parse/Plain.antt =====
-- runtime/vader_json.c: the values that parsing can give back, and what their prints begin with.
use vader_langue.Prelude.{
  ℕ, suc, zero, ◌+◌, ◌/◌, ◌%◌, ltb, ltb→lt, ◌^◌, ◌≡◌, ◌≤◌, ◌<◌, refl, true, false, ◌||◌, [], ◌∷◌,
  ◌++◌, some, Bytes, ℤ, pos, negsuc, arith, inl, inr, Bool-cases, length, length-append,
  drop-length-append, ◌==◌, leb,
}
use vader_langue.Libc.{print_int, digits, digits_fuel, is_digit}
use vader_langue.Libc.Decimal.{digits_first}
use vader_langue.Json.{
  JVal, Items, Fields, Doubles, j_null, j_bool, j_int, j_dbl, j_str, j_arr, j_obj, nil, cons, end,
  field,
}
use vader_langue.Json.Encode.{json_str}
use vader_langue.Json.Parse.{jskip, is_int_span, advance, peek}
use vader_langue.Json.Parse.Strings.{NoNul}

-- Integers that a double holds exactly.
abbrev pub Small : ℤ → Type 0
Small (pos n) = n ≤ 2 ^ 53
Small (negsuc n) = suc n ≤ 2 ^ 53

-- The text is at its end, or goes on with a comma or a closing bracket.
abbrev pub Ends : Bytes → Type 0
Ends [] = Unit
Ends (c ∷ s) = ((c == b',') || ((c == b']') || (c == b'}'))) ≡ true

-- `strtod` reads a decimal integer up to 2^53 exactly, to its last digit; the conversions between such
-- integers and doubles are exact.
pub record Exact (d : Doubles) : Type 0 where
  pub reads :
      (i : ℤ) (rest : Bytes)
      → Small i
      → Ends rest
      → d.strtod (print_int i ++ rest) ≡ (d.of_ll i, length (print_int i))
  pub back : (i : ℤ) → Small i → d.to_ll (d.of_ll i) ≡ i

-- A value that parsing can give back: no doubles, integers up to 2^53, C strings, and 0 or 1 for a
-- boolean.
abbrev mutual
  pub Plain : {D : Type 0} → JVal D → Type 0
  Plain j_null = Unit
  Plain (j_bool b) = b ≤ 1
  Plain (j_int i) = Small i
  Plain (j_dbl x) = ⊥
  Plain (j_str s) = NoNul s
  Plain (j_arr xs) = PlainItems xs
  Plain (j_obj fs) = PlainFields fs

  pub PlainItems : {D : Type 0} → Items D → Type 0
  PlainItems nil = Unit
  PlainItems (cons v xs) = Plain v × PlainItems xs

  pub PlainFields : {D : Type 0} → Fields D → Type 0
  PlainFields end = Unit
  PlainFields (field k v fs) = NoNul k × Plain v × PlainFields fs

-- The depth of calls that a value takes.
abbrev mutual
  pub need : {D : Type 0} → JVal D → ℕ
  need j_null = 1
  need (j_bool b) = 1
  need (j_int i) = 1
  need (j_dbl x) = 1
  need (j_str s) = 1
  need (j_arr xs) = suc (need_items xs)
  need (j_obj fs) = suc (need_fields fs)

  pub need_items : {D : Type 0} → Items D → ℕ
  need_items nil = 0
  need_items (cons v xs) = suc (need v + need_items xs)

  pub need_fields : {D : Type 0} → Fields D → ℕ
  need_fields end = 0
  need_fields (field k v fs) = suc (need v + need_fields fs)

pub advance-append : (p s : Bytes) → advance (length p) (p ++ s) ≡ some s
advance-append p s =
    let e : leb (length p) (length (p ++ s)) ≡ true = ground (arith, length-append p s) in
    rw (e, drop-length-append p s)

-- A number's print is a minus sign or a digit, then digits.
abbrev pub StartsNumber : ℕ → Type 0
StartsNumber c = ((c == b'-') || is_digit c) ≡ true

pub print_int_first : (i : ℤ) → (c : ℕ) × (s : Bytes) × StartsNumber c × (print_int i ≡ c ∷ s)
unfolding print_int digits
print_int_first (pos n) = let (k, r, h, e) = digits_first n n in (48 + k, r, ground arith, e)
print_int_first (negsuc n) = (b'-', digits (suc n), refl, refl)

pub is_int_span-append :
    (s t : Bytes) → is_int_span s ≡ true → is_int_span t ≡ true → is_int_span (s ++ t) ≡ true
unfolding is_int_span
is_int_span-append [] t h k = k
is_int_span-append (c ∷ s) t h k = ground (arith, is_int_span-append s t)

pub is_int_span_digit : (k : ℕ) → k < 10 → is_int_span ((48 + k) ∷ []) ≡ true
unfolding is_int_span
is_int_span_digit k h = ground arith

pub is_int_span-digits : (f n : ℕ) → is_int_span (digits_fuel f n) ≡ true
unfolding digits_fuel
is_int_span-digits zero n = is_int_span_digit (n % 10) (omega arith)
is_int_span-digits (suc f) n = elim (Bool-cases (ltb n 10)) [
  | inl e ↦ rw e (is_int_span_digit n (ltb→lt n 10 e))
  | inr e ↦ rw e (
      is_int_span-append (digits_fuel f (n / 10)) ((48 + n % 10) ∷ [])
        (is_int_span-digits f (n / 10)) (is_int_span_digit (n % 10) (omega arith)))
]

pub is_int_span-print_int : (i : ℤ) → is_int_span (print_int i) ≡ true
is_int_span-print_int (pos n) = unfold print_int digits in is_int_span-digits n n
is_int_span-print_int (negsuc n) =
    unfold print_int digits is_int_span in is_int_span-digits (suc n) (suc n)

-- What a value's print begins with: no white space, and no closing bracket.
abbrev pub Opens : Bytes → Type 0
Opens [] = ⊥
Opens (c ∷ s) =
    ((c == b' ') || ((c == 9) || ((c == 10) || ((c == 13) || ((c == b']') || (c == b'}'))))))
    ≡ false

pub jskip_bracket : (t : Bytes) → jskip (b'[' ∷ t) ≡ b'[' ∷ t
unfolding jskip
jskip_bracket t = refl

pub jskip_str : (k t : Bytes) → jskip (json_str k ++ t) ≡ json_str k ++ t
unfolding jskip json_str
jskip_str k t = refl

pub jskip_colon : (t : Bytes) → jskip (b':' ∷ t) ≡ b':' ∷ t
unfolding jskip
jskip_colon t = refl

pub need_pos : {D : Type 0} (v : JVal D) → 1 ≤ need v
need_pos j_null = omega arith
need_pos (j_bool b) = omega arith
need_pos (j_int i) = omega arith
need_pos (j_dbl x) = omega arith
need_pos (j_str s) = omega arith
need_pos (j_arr xs) = omega arith
need_pos (j_obj fs) = omega arith

pub jskip-Opens : (s : Bytes) → Opens s → (jskip s ≡ s) × ((peek s == b']') ≡ false)
unfolding jskip
jskip-Opens [] h = absurd h
jskip-Opens (c ∷ s) h = ground arith
