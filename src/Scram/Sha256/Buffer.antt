-- ===== src/Scram/Sha256/Buffer.antt =====
-- runtime/vader_scram.c: the stores of sha256_final into the 64 bytes of the context's buffer.
use vader_langue.Prelude.{
  ℕ, suc, zero, ◌+◌, ◌%◌, ◌≡◌, ◌≤◌, ◌<◌, refl, ap, ◌∙◌, sym, arith, [], ◌∷◌, ◌++◌, append_assoc,
  append-nil, Bytes, length, length-set, set, take, drop, replicate, take-append-drop,
}
use vader_langue.Scram.Sha256.{zero_to, put_length, shr}

-- The number behind a padded message, in 8 bytes, the highest first.
abbrev pub length_bytes : ℕ → Bytes
length_bytes n =
    shr n 56 % 256
    ∷ shr n 48 % 256
    ∷ shr n 40 % 256
    ∷ shr n 32 % 256
    ∷ shr n 24 % 256
    ∷ shr n 16 % 256
    ∷ shr n 8 % 256
    ∷ n % 256
    ∷ []

drop-all : (n : ℕ) (xs : Bytes) → length xs ≤ n → drop n xs ≡ []
drop-all zero [] h = refl
drop-all zero (x ∷ xs) h = absurd (omega arith)
drop-all (suc n) [] h = refl
drop-all (suc n) (x ∷ xs) h = drop-all n xs (omega arith)

pub take-set :
    (xs : Bytes) (i v : ℕ) → i < length xs → take (suc i) (set xs i v) ≡ take i xs ++ v ∷ []
take-set [] i v h = absurd (omega arith)
take-set (x ∷ xs) zero v h = refl
take-set (x ∷ xs) (suc i) v h = ap (λ l. x ∷ l) (take-set xs i v (omega arith))

take-set_above : (xs : Bytes) (n i v : ℕ) → n ≤ i → take n (set xs i v) ≡ take n xs
take-set_above [] n i v h = refl
take-set_above (x ∷ xs) zero i v h = refl
take-set_above (x ∷ xs) (suc n) zero v h = absurd (omega arith)
take-set_above (x ∷ xs) (suc n) (suc i) v h =
    ap (λ l. x ∷ l) (take-set_above xs n i v (omega arith))

drop-set : (xs : Bytes) (i v : ℕ) → i < length xs → drop i (set xs i v) ≡ v ∷ drop (suc i) xs
drop-set [] i v h = absurd (omega arith)
drop-set (x ∷ xs) zero v h = refl
drop-set (x ∷ xs) (suc i) v h = drop-set xs i v (omega arith)

plus_zero : (i : ℕ) → i + 0 ≡ i
plus_zero i = omega arith

plus_one : (i : ℕ) → i + 1 ≡ suc i
plus_one i = omega arith

plus_suc : (i n : ℕ) → i + suc n ≡ i + 1 + n
plus_suc i n = omega arith

pub length-zero_to : (n i : ℕ) (xs : Bytes) → length (zero_to n i xs) ≡ length xs
unfolding zero_to
length-zero_to zero i xs = refl
length-zero_to (suc n) i xs = length-zero_to n (i + 1) (set xs i 0) ∙ length-set xs i 0

-- The loop that fills up with zeros leaves what stands before its start.
pub take-zero_to :
    (n i : ℕ) (xs : Bytes)
    → i + n ≤ length xs
    → take (i + n) (zero_to n i xs) ≡ take i xs ++ replicate n 0
unfolding zero_to
take-zero_to zero i xs h = ap (λ k. take k xs) (plus_zero i) ∙ sym (append-nil (take i xs))
take-zero_to (suc n) i xs h =
    ap (λ k. take k (zero_to n (i + 1) (set xs i 0))) (plus_suc i n)
    ∙ take-zero_to n (i + 1) (set xs i 0) (omega (arith, length-set xs i 0))
    ∙ ap (λ l. l ++ replicate n 0)
        (ap (λ k. take k (set xs i 0)) (plus_one i) ∙ take-set xs i 0 (omega arith))
    ∙ append_assoc (take i xs) (0 ∷ []) (replicate n 0)

-- Storing a byte below a known end: the end grows by that byte, and the front stays.
store_below :
    (xs : Bytes) (i v : ℕ) (t : Bytes)
    → length xs ≡ 64
    → 56 ≤ i
    → i < 64
    → drop (suc i) xs ≡ t
    → (length (set xs i v) ≡ 64)
      × (take 56 (set xs i v) ≡ take 56 xs)
      × (drop i (set xs i v) ≡ v ∷ t)
store_below xs i v t h l u e = (
  length-set xs i v ∙ h,
  take-set_above xs 56 i v l,
  drop-set xs i v (omega arith) ∙ ap (λ r. v ∷ r) e,
)

pub put_length_lem :
    (xs : Bytes) (n : ℕ) → length xs ≡ 64 → put_length xs n ≡ take 56 xs ++ length_bytes n
unfolding put_length
put_length_lem xs n h =
    let s1 =
      store_below xs 63 (n % 256) [] h (omega arith) (omega arith) (drop-all 64 xs (omega arith)) in
    let s2 = store_below _ 62 (shr n 8 % 256) _ s1.0 (omega arith) (omega arith) s1.2 in
    let s3 = store_below _ 61 (shr n 16 % 256) _ s2.0 (omega arith) (omega arith) s2.2 in
    let s4 = store_below _ 60 (shr n 24 % 256) _ s3.0 (omega arith) (omega arith) s3.2 in
    let s5 = store_below _ 59 (shr n 32 % 256) _ s4.0 (omega arith) (omega arith) s4.2 in
    let s6 = store_below _ 58 (shr n 40 % 256) _ s5.0 (omega arith) (omega arith) s5.2 in
    let s7 = store_below _ 57 (shr n 48 % 256) _ s6.0 (omega arith) (omega arith) s6.2 in
    let s8 = store_below _ 56 (shr n 56 % 256) _ s7.0 (omega arith) (omega arith) s7.2 in
    sym (take-append-drop 56 (put_length xs n))
    ∙ ap (λ l. l ++ drop 56 (put_length xs n))
        (s8.1 ∙ s7.1 ∙ s6.1 ∙ s5.1 ∙ s4.1 ∙ s3.1 ∙ s2.1 ∙ s1.1)
    ∙ ap (λ l. take 56 xs ++ l) s8.2
