-- ===== src/Scram/Base64/RoundTrip.antt =====
-- runtime/vader_scram.c: vader_scram_b64decode undoes vader_scram_b64encode.
use vader_langue.Prelude.{
  ℕ, suc, zero, ◌+◌, ◌-◌, ◌*◌, ◌/◌, ◌%◌, ◌^◌, ◌≡◌, ◌<◌, refl, ap, ◌∙◌, arith, Bool, true, false,
  ◌&&◌, inl, inr, Option, none, some, [], ◌∷◌, Bytes, ◌==◌, get_or, All, if◌then◌else◌, leb, ==_iff,
  Bool-cases,
}
use vader_langue.Scram.Base64.{b64, digit, b64encode, b64_val, decode_from, b64decode}

-- The digit of a value is read back: a check of the 64 values.
abbrev reads_back : ℕ → Bool
reads_back v = elim (b64_val (get_or b64 v 0)) [ none ↦ false | some w ↦ w == v ]

abbrev all_below : ℕ → Bool
all_below zero = true
all_below (suc n) = reads_back n && all_below n

all_64 : all_below 64 ≡ true
unfolding b64_val
all_64 = refl

and_true : (a b : Bool) → (a && b) ≡ true → (a ≡ true) × (b ≡ true)
and_true a b h = ground arith

not_last : (n v : ℕ) → v < suc n → (v == n) ≡ false → v < n
not_last n v h e = ground arith

reads_back-below : (n v : ℕ) → all_below n ≡ true → v < n → reads_back v ≡ true
reads_back-below zero v h l = absurd (omega arith)
reads_back-below (suc n) v h l =
    let both = and_true (reads_back n) (all_below n) h in
    elim (Bool-cases (v == n)) [
      | inl e ↦ rw ((==_iff v n).0 e) both.0
      | inr e ↦ reads_back-below n v both.1 (not_last n v l e)
    ]

b64_val-digit : (v : ℕ) → v < 64 → b64_val (get_or b64 v 0) ≡ some v
b64_val-digit v h = reads (b64_val (get_or b64 v 0)) (reads_back-below 64 v all_64 h)
  where
    reads : (o : Option ℕ) → (elim o [ none ↦ false | some w ↦ w == v ]) ≡ true → o ≡ some v
    reads none e = cc e
    reads (some w) e = ap some ((==_iff w v).0 e)

abbrev push : ℕ → ℕ → ℕ
push acc v = (acc * 2 ^ 6 + v) % 2 ^ 32

decode-some :
    (bits acc c v : ℕ) (s : Bytes)
    → b64_val c ≡ some v
    → decode_from bits acc (c ∷ s) ≡ (
        if leb 8 (bits + 6)
        then push acc v / 2 ^ (bits + 6 - 8) % 256 ∷ decode_from (bits + 6 - 8) (push acc v) s
        else decode_from (bits + 6) (push acc v) s)
unfolding decode_from
decode-some bits acc c v s h =
    ap
      (λ o. elim o [
        | none ↦ decode_from bits acc s
        | some v ↦
            if leb 8 (bits + 6)
            then push acc v / 2 ^ (bits + 6 - 8) % 256 ∷ decode_from (bits + 6 - 8) (push acc v) s
            else decode_from (bits + 6) (push acc v) s
      ])
      h

step_0 :
    (acc v : ℕ) (s : Bytes)
    → v < 64
    → decode_from 0 acc (get_or b64 v 0 ∷ s) ≡ decode_from 6 (push acc v) s
step_0 acc v s h = decode-some 0 acc (get_or b64 v 0) v s (b64_val-digit v h)

step_6 :
    (acc v : ℕ) (s : Bytes)
    → v < 64
    → decode_from 6 acc (get_or b64 v 0 ∷ s)
      ≡ push acc v / 2 ^ 4 % 256 ∷ decode_from 4 (push acc v) s
step_6 acc v s h = decode-some 6 acc (get_or b64 v 0) v s (b64_val-digit v h)

step_4 :
    (acc v : ℕ) (s : Bytes)
    → v < 64
    → decode_from 4 acc (get_or b64 v 0 ∷ s)
      ≡ push acc v / 2 ^ 2 % 256 ∷ decode_from 2 (push acc v) s
step_4 acc v s h = decode-some 4 acc (get_or b64 v 0) v s (b64_val-digit v h)

step_2 :
    (acc v : ℕ) (s : Bytes)
    → v < 64
    → decode_from 2 acc (get_or b64 v 0 ∷ s) ≡ push acc v / 1 % 256 ∷ decode_from 0 (push acc v) s
step_2 acc v s h = decode-some 2 acc (get_or b64 v 0) v s (b64_val-digit v h)

step_pad : (bits acc : ℕ) (s : Bytes) → decode_from bits acc (b'=' ∷ s) ≡ decode_from bits acc s
unfolding decode_from b64_val
step_pad bits acc s = refl

-- What the low bits of the accumulator are, whatever stands above them.
low_12 : (acc v w : ℕ) → v < 64 → w < 64 → push (push acc v) w % 2 ^ 12 ≡ v * 64 + w
low_12 acc v w h k = omega arith

low_14 : (a acc w : ℕ) → acc % 2 ^ 8 ≡ a → w < 64 → push acc w % 2 ^ 14 ≡ a * 64 + w
low_14 a acc w h k = omega arith

-- The four digits of a group, put back together.
group_bytes :
    (acc x y z : ℕ)
    → x < 256
    → y < 256
    → z < 256
    → let n = x * 2 ^ 16 + y * 2 ^ 8 + z in
      let a2 = push (push acc (n / 2 ^ 18 % 64)) (n / 2 ^ 12 % 64) in
      let a3 = push a2 (n / 2 ^ 6 % 64) in
      (a2 / 2 ^ 4 % 256 ≡ x) × (a3 / 2 ^ 2 % 256 ≡ y) × (push a3 (n / 2 ^ 0 % 64) / 1 % 256 ≡ z)
group_bytes acc x y z hx hy hz = (omega arith, omega arith, omega arith)

pair_bytes :
    (acc x y : ℕ)
    → x < 256
    → y < 256
    → let n = x * 2 ^ 16 + y * 2 ^ 8 in
      let a2 = push (push acc (n / 2 ^ 18 % 64)) (n / 2 ^ 12 % 64) in
      (a2 / 2 ^ 4 % 256 ≡ x) × (push a2 (n / 2 ^ 6 % 64) / 2 ^ 2 % 256 ≡ y)
pair_bytes acc x y hx hy = (omega arith, omega arith)

one_byte :
    (acc x : ℕ)
    → x < 256
    → let n = x * 2 ^ 16 in push (push acc (n / 2 ^ 18 % 64)) (n / 2 ^ 12 % 64) / 2 ^ 4 % 256 ≡ x
one_byte acc x hx = omega arith

-- A digit is one of the 64.
digit_below : (n k : ℕ) → n / 2 ^ k % 64 < 64
digit_below n k = omega arith

-- Two digits give a byte, with or without padding behind them.
first_two :
    (acc n : ℕ) (s : Bytes)
    → decode_from 0 acc (digit n 18 ∷ digit n 12 ∷ s)
      ≡ push (push acc (n / 2 ^ 18 % 64)) (n / 2 ^ 12 % 64) / 2 ^ 4 % 256
        ∷ decode_from 4 (push (push acc (n / 2 ^ 18 % 64)) (n / 2 ^ 12 % 64)) s
first_two acc n s =
    step_0 acc (n / 2 ^ 18 % 64) (digit n 12 ∷ s) (digit_below n 18)
    ∙ step_6 (push acc (n / 2 ^ 18 % 64)) (n / 2 ^ 12 % 64) s (digit_below n 12)

decode_end : (bits acc : ℕ) → decode_from bits acc [] ≡ []
unfolding decode_from
decode_end bits acc = refl

decode_from-b64encode :
    (s : Bytes) (acc : ℕ) → All (λ c. c < 256) s → decode_from 0 acc (b64encode s) ≡ s
unfolding b64encode
decode_from-b64encode [] acc h = decode_end 0 acc
decode_from-b64encode (x ∷ []) acc h =
    let n = x * 2 ^ 16 in
    let a2 = push (push acc (n / 2 ^ 18 % 64)) (n / 2 ^ 12 % 64) in
    rw (
      first_two acc n (b'=' ∷ b'=' ∷ []),
      one_byte acc x h.0,
      step_pad 4 a2 (b'=' ∷ []),
      step_pad 4 a2 [],
      decode_end 4 a2,
    )
decode_from-b64encode (x ∷ y ∷ []) acc h =
    let n = x * 2 ^ 16 + y * 2 ^ 8 in
    let a2 = push (push acc (n / 2 ^ 18 % 64)) (n / 2 ^ 12 % 64) in
    let a3 = push a2 (n / 2 ^ 6 % 64) in
    rw (
      first_two acc n (digit n 6 ∷ b'=' ∷ []),
      step_4 a2 (n / 2 ^ 6 % 64) (b'=' ∷ []) (digit_below n 6),
      (pair_bytes acc x y h.0 h.1.0).0,
      (pair_bytes acc x y h.0 h.1.0).1,
      step_pad 2 a3 [],
      decode_end 2 a3,
    )
decode_from-b64encode (x ∷ y ∷ z ∷ s) acc h =
    let n = x * 2 ^ 16 + y * 2 ^ 8 + z in
    let a2 = push (push acc (n / 2 ^ 18 % 64)) (n / 2 ^ 12 % 64) in
    let a3 = push a2 (n / 2 ^ 6 % 64) in
    let b = group_bytes acc x y z h.0 h.1.0 h.1.1.0 in
    rw (
      first_two acc n (digit n 6 ∷ digit n 0 ∷ b64encode s),
      step_4 a2 (n / 2 ^ 6 % 64) (digit n 0 ∷ b64encode s) (digit_below n 6),
      step_2 a3 (n / 2 ^ 0 % 64) (b64encode s) (digit_below n 0),
      b.0,
      b.1,
      b.2,
      decode_from-b64encode s (push a3 (n / 2 ^ 0 % 64)) h.1.1.1,
    )

-- Decoding what encoding gave returns the bytes that were encoded, for bytes below 256.
pub b64decode-b64encode : (s : Bytes) → All (λ c. c < 256) s → b64decode (b64encode s) ≡ s
b64decode-b64encode s h = unfold b64decode in decode_from-b64encode s 0 h
