-- ===== src/Json/Parse/Faults.antt =====
-- runtime/vader_json.c: texts on which vader_json_parse reads past the NUL at their end.
use vader_langue.Prelude.{
  ℕ, suc, zero, ◌≡◌, ◌<◌, refl, true, false, ◌||◌, some, [], ◌∷◌, ◌++◌, Bytes, length,
  length-append, ◌∙◌, arith, ◌==◌, All,
}
use vader_langue.Json.{Doubles}
use vader_langue.Json.Parse.{
  fault, jskip, jparse_val, jparse_fields, jparse_str, json_parse, twice, str_loop, escaped,
}

-- What `jskip` passes over.
abbrev pub White : ℕ → Type 0
White c = ((c == b' ') || ((c == 9) || ((c == 10) || (c == 13)))) ≡ true

-- A byte of a string that the loop copies.
abbrev pub Copied : ℕ → Type 0
Copied c = ((c == b'"') || (c == b'\\')) ≡ false

jskip-White : (ws : Bytes) → All White ws → jskip ws ≡ []
unfolding jskip
jskip-White [] h = refl
jskip-White (c ∷ ws) h = ground (arith, jskip-White ws h.1)

module _ (d : Doubles) where
  fields-end : (f : ℕ) → jparse_fields d (suc f) (some []) ≡ fault
  unfolding jparse_fields jskip jparse_str
  fields-end f = refl

  -- An object that is opened and never begun, with nothing but white space behind its brace, makes
  -- parsing read past the end of the text.
  pub json_parse_brace : (ws : Bytes) → All White ws → json_parse d (b'{' ∷ ws) ≡ fault
  json_parse_brace ws h =
      unfold json_parse jparse_val jskip in rw (jskip-White ws h, fields-end (suc (twice ws)))

str_loop_end : (f : ℕ) (out : Bytes) → str_loop (suc (suc f)) out (some (b'\\' ∷ [])) ≡ fault
unfolding str_loop escaped
str_loop_end f out = refl

str_loop-Copied :
    (f c : ℕ) (s out : Bytes)
    → Copied c
    → str_loop (suc f) out (some (c ∷ s)) ≡ str_loop f (out ++ c ∷ []) (some s)
unfolding str_loop
str_loop-Copied f c s out h = ground arith

str_loop-backslash :
    (s out : Bytes) (f : ℕ)
    → All Copied s
    → length s < f
    → str_loop (suc f) out (some (s ++ b'\\' ∷ [])) ≡ fault
str_loop-backslash s out zero h l = absurd (omega arith)
str_loop-backslash [] out (suc f) h l = str_loop_end f out
str_loop-backslash (c ∷ s) out (suc f) h l =
    str_loop-Copied (suc f) c (s ++ b'\\' ∷ []) out h.0
    ∙ str_loop-backslash s (out ++ c ∷ []) f h.1 (omega arith)

module _ (d : Doubles) where
  -- A string that is not closed and whose last byte is a backslash, with no other backslash and no
  -- quote in it, makes parsing read past the end of the text.
  pub json_parse_backslash :
      (s : Bytes) → All Copied s → json_parse d (b'"' ∷ (s ++ b'\\' ∷ [])) ≡ fault
  json_parse_backslash s h =
      unfold json_parse jparse_val jskip jparse_str in
      rw (
        str_loop-backslash s [] (length (s ++ b'\\' ∷ [])) h
          (omega (arith, length-append s (b'\\' ∷ []))))
