-- ===== src/Json/Parse/Strings.antt =====
-- JSON strings of runtime/vader_json.c: what is escaped is read back.
use vader_langue.Prelude.{
  ℕ, suc, zero, ◌≡◌, ◌≢◌, ◌≤◌, ◌<◌, refl, ap, ◌∙◌, [], ◌∷◌, ◌++◌, append_assoc, append-nil, some,
  Bytes, arith, length, length-append, All, ne→==,
}
use vader_langue.Json.Encode.{esc, esc_all, json_str}
use vader_langue.Json.Parse.{parsed, str_loop, jparse_str, escaped, until_nul}

-- A C string: no byte of it is NUL.
abbrev pub NoNul : Bytes → Type 0
NoNul = All (λ c. c ≢ 0)

pub until_nul_lem : (s : Bytes) → NoNul s → until_nul s ≡ s
unfolding until_nul
until_nul_lem [] h = refl
until_nul_lem (c ∷ s) h = rw (ne→== c 0 h.0) (ap (λ l. c ∷ l) (until_nul_lem s h.1))

-- The loop passes over what one byte was escaped to, in one round.
str_loop-esc :
    (f c : ℕ) (out rest : Bytes)
    → str_loop (suc f) out (some (esc c ++ rest)) ≡ str_loop f (out ++ c ∷ []) (some rest)
unfolding str_loop esc escaped
str_loop-esc f c out rest = ground arith

str_loop_end :
    (f : ℕ) (out rest : Bytes)
    → str_loop (suc f) out (some (b'"' ∷ rest)) ≡ parsed (until_nul out) (some rest)
unfolding str_loop
str_loop_end f out rest = refl

until_nul_self : (out : Bytes) → NoNul (out ++ []) → until_nul out ≡ out ++ []
until_nul_self out n = rw append-nil (until_nul_lem out (rw append-nil at n))

str_loop-esc_all :
    (f : ℕ) (s out rest : Bytes)
    → length s < f
    → NoNul (out ++ s)
    → str_loop f out (some (esc_all s ++ b'"' ∷ rest)) ≡ parsed (out ++ s) (some rest)
unfolding esc_all
str_loop-esc_all zero s out rest h n = absurd (omega arith)
str_loop-esc_all (suc f) [] out rest h n =
    str_loop_end f out rest ∙ ap (λ l. parsed l (some rest)) (until_nul_self out n)
str_loop-esc_all (suc f) (c ∷ s) out rest h n =
    rw
      (
        append_assoc (esc c) (esc_all s) (b'"' ∷ rest),
        str_loop-esc f c out (esc_all s ++ b'"' ∷ rest),
        str_loop-esc_all f s (out ++ c ∷ []) rest (omega arith)
            (rw (append_assoc out (c ∷ []) s) n),
      )
      (ap (λ l. parsed l (some rest)) (append_assoc out (c ∷ []) s))

length-esc : (c : ℕ) → 1 ≤ length (esc c)
unfolding esc
length-esc c = ground arith

pub length-esc_all : (s : Bytes) → length s ≤ length (esc_all s)
unfolding esc_all
length-esc_all [] = omega arith
length-esc_all (c ∷ s) =
    omega (arith, length-append (esc c) (esc_all s), length-esc c, length-esc_all s)

-- A string without NUL is read back from its print, whatever follows.
pub jparse_str-json_str :
    (s rest : Bytes) → NoNul s → jparse_str (some (json_str s ++ rest)) ≡ parsed s (some rest)
unfolding jparse_str json_str
jparse_str-json_str s rest h =
    let all = esc_all s ++ b'"' ∷ rest in
    rw (append_assoc (esc_all s) (b'"' ∷ []) rest) (
      str_loop-esc_all (suc (length all)) s [] rest
        (omega (arith, length-append (esc_all s) (b'"' ∷ rest), length-esc_all s)) h)
