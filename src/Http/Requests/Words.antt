-- ===== src/Http/Requests/Words.antt =====
-- runtime/vader_http.c: the words of a request line.
use vader_langue.Prelude.{
  ℕ, suc, zero, ◌≡◌, ◌≢◌, ◌<◌, ◌≤◌, refl, ap, arith, false, [], ◌∷◌, ◌++◌, All, Bytes, length,
  drop-length-append,
}
use vader_langue.Libc.{is_space, skip_space}
use vader_langue.Http.{word_of, scan_word}

-- Text without white space, control characters and colons.
abbrev pub Solid : Bytes → Type 0
Solid = All (λ x. (32 < x) × (x ≢ b':'))

-- A word of the request line.
abbrev pub IsWord : ℕ → Bytes → Type 0
IsWord n s = Solid s × (0 < length s) × (length s ≤ n)

solid_is_space : (x : ℕ) → 32 < x → is_space x ≡ false
solid_is_space x h = ground arith

word_of-append : (n : ℕ) (s rest : Bytes) → Solid s → length s ≤ n → word_of n (s ++ 32 ∷ rest) ≡ s
word_of-append zero [] rest h l = refl
word_of-append (suc n) [] rest h l = refl
word_of-append zero (x ∷ s) rest h l = absurd (omega arith)
word_of-append (suc n) (x ∷ s) rest h l =
    rw (solid_is_space x h.0.0) (ap (λ t. x ∷ t) (word_of-append n s rest h.1 (omega arith)))

skip_space-word : (s rest : Bytes) → Solid s → 0 < length s → skip_space (s ++ rest) ≡ s ++ rest
unfolding skip_space
skip_space-word [] rest h l = absurd (omega arith)
skip_space-word (x ∷ s) rest h l = rw (solid_is_space x h.0.0) refl

pub scan_word-append :
    (n : ℕ) (s rest : Bytes) → IsWord n s → scan_word n (s ++ 32 ∷ rest) ≡ (s, 32 ∷ rest)
scan_word-append n s rest (h, p, l) =
    rw (skip_space-word s (32 ∷ rest) h p, word_of-append n s rest h l)
      (ap (λ t. (s, t)) (drop-length-append s (32 ∷ rest)))

pub scan_word-blank : (n : ℕ) (s : Bytes) → scan_word n (32 ∷ s) ≡ scan_word n s
unfolding skip_space
scan_word-blank n s = refl
