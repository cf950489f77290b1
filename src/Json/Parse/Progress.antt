-- ===== src/Json/Parse/Progress.antt =====
-- runtime/vader_json.c: no part of the parser moves the cursor back.
use vader_langue.Prelude.{
  ℕ, suc, zero, ◌≡◌, ◌≤◌, ◌<◌, refl, Bool, true, false, Bool-cases, inl, inr, Option, none, some,
  [], ◌∷◌, ◌++◌, Bytes, length, length-drop, drop, arith, ◌==◌, ltb, leb, if◌then◌else◌,
}
use vader_langue.Json.Parse.{
  Cursor, Parsed, parsed, fault, starved, bind, advance, jskip, str_loop, escaped, jparse_str, peek,
  jskip_cursor, pass,
}

-- A cursor with at most `n` bytes before the NUL, or past it.
abbrev pub Near : ℕ → Cursor → Type 0
Near n none = Unit
Near n (some s) = length s ≤ n

-- A result that did not run out of fuel and whose cursor did not move back.
abbrev pub Ends : {A : Type 0} → ℕ → Parsed A → Type 0
Ends n (parsed a c) = Near n c
Ends n fault = Unit
Ends n starved = ⊥

pub jskip-length : (s : Bytes) → length (jskip s) ≤ length s
unfolding jskip
jskip-length [] = omega arith
jskip-length (c ∷ s) = ground (arith, jskip-length s)

pub advance-Near : (k : ℕ) (s : Bytes) (n : ℕ) → length s ≤ n → Near n (advance k s)
advance-Near k s n h = elim (Bool-cases (leb k (length s))) [
  | inl e ↦ rw e (omega (arith, length-drop k s))
  | inr e ↦ rw e _
]

pub drop_less : (k : ℕ) (s : Bytes) (n : ℕ) → length s ≤ n → length (drop k s) ≤ n
drop_less k s n h = omega (arith, length-drop k s)

pub Ends-bind :
    {A B : Type 0} (n : ℕ) (r : Parsed A) (f : A → Cursor → Parsed B)
    → Ends n r
    → ((a : A) (c : Cursor) → Near n c → Ends n (f a c))
    → Ends n (bind r f)
Ends-bind n (parsed a c) f h k = k a c h
Ends-bind n fault f h k = _
Ends-bind n starved f h k = absurd h

pub Ends-weaken : {A : Type 0} (m n : ℕ) (r : Parsed A) → m ≤ n → Ends m r → Ends n r
Ends-weaken m n (parsed a none) l h = _
Ends-weaken m n (parsed a (some s)) l h = omega arith
Ends-weaken m n fault l h = _
Ends-weaken m n starved l h = h

abbrev pub NearAll : ℕ → Option (Bytes × Cursor) → Type 0
NearAll n none = Unit
NearAll n (some r) = Near n r.1

pub escaped-NearAll : (s : Bytes) (n : ℕ) → length s ≤ n → NearAll n (escaped s)
unfolding escaped
escaped-NearAll [] n h = _
escaped-NearAll (e ∷ s) n h = elim (Bool-cases (e == b'u')) [
  | inl u ↦ elim (Bool-cases (ltb (length s) 3)) [
    | inl l ↦ rw (u, l) _
    | inr l ↦ rw (u, l) (advance-Near 4 s n (omega arith))
  ]
  | inr u ↦ rw u (omega arith)
]

pub behind-Ends :
    (n : ℕ) (o : Option (Bytes × Cursor)) (g : Bytes → Cursor → Parsed Bytes)
    → NearAll n o
    → ((b : Bytes) (c : Cursor) → Near n c → Ends n (g b c))
    → Ends n (elim o as (λ x. Parsed Bytes) [ none ↦ fault | some r ↦ g r.0 r.1 ])
behind-Ends n none g h k = _
behind-Ends n (some r) g h k = k r.0 r.1 h

pub if-Ends :
    {A : Type 0} (n : ℕ) (b : Bool) (x y : Parsed A)
    → (b ≡ true → Ends n x)
    → (b ≡ false → Ends n y)
    → Ends n (if b then x else y)
if-Ends n true x y h k = h refl
if-Ends n false x y h k = k refl

-- Every round of the loop passes a byte.
pub str_loop-Ends :
    (f : ℕ) (out : Bytes) (c : Cursor) (n : ℕ) → Near n c → n < f → Ends n (str_loop f out c)
unfolding str_loop
str_loop-Ends zero out c n h l = absurd (omega arith)
str_loop-Ends (suc f) out none n h l = _
str_loop-Ends (suc f) out (some []) n h l = h
str_loop-Ends (suc f) out (some (c ∷ s)) zero h l = absurd (omega arith)
str_loop-Ends (suc f) out (some (c ∷ s)) (suc n) h l =
    if-Ends (suc n) (c == b'"') _ _ (λ e. omega arith)
      (λ e.
        if-Ends (suc n) (c == b'\\') _ _
          (λ k. Ends-weaken n (suc n) _ (omega arith) (
            behind-Ends n (escaped s) (λ o c'. str_loop f (out ++ o) c')
              (escaped-NearAll s n (omega arith))
              (λ b c' m. str_loop-Ends f (out ++ b) c' n m (omega arith))))
          (λ k.
            Ends-weaken n (suc n) _ (omega arith)
              (str_loop-Ends f (out ++ c ∷ []) (some s) n (omega arith) (omega arith))))

pub jparse_str-Ends : (c : Cursor) (n : ℕ) → Near (suc n) c → Ends n (jparse_str c)
unfolding jparse_str
jparse_str-Ends none n h = _
jparse_str-Ends (some []) n h = _
jparse_str-Ends (some (c ∷ s)) n h =
    Ends-weaken (length s) n (str_loop (suc (length s)) [] (some s)) (omega arith)
      (str_loop-Ends (suc (length s)) [] (some s) (length s) (omega arith) (omega arith))

pub pass-Near : (b : ℕ) (c : Cursor) (n : ℕ) → Near n c → Near n (pass b c)
pass-Near b none n h = _
pass-Near b (some s) n h = elim (Bool-cases (peek s == b)) [
  | inl e ↦ rw e (drop_less 1 s n h)
  | inr e ↦ rw e h
]

pub jskip-Near : (c : Cursor) (n : ℕ) → Near n c → Near n (jskip_cursor c)
jskip-Near none n h = _
jskip-Near (some s) n h = omega (arith, jskip-length s)

-- A byte that is not the NUL is passed.
pub drop_one :
    (s : Bytes) (c n : ℕ) → (peek s == suc c) ≡ true → length s ≤ suc n → length (drop 1 s) ≤ n
drop_one [] c n e h = ground arith
drop_one (x ∷ s) c n e h = omega arith

pub some_byte : (s : Bytes) (c : ℕ) → (peek s == suc c) ≡ true → 1 ≤ length s
some_byte [] c e = ground arith
some_byte (x ∷ s) c e = omega arith

pub near_zero : (s : Bytes) (c : ℕ) → (peek s == suc c) ≡ true → length s ≤ 0 → ⊥
near_zero s c e h = omega (arith, some_byte s c e)
