-- ===== src/Http/Requests/Heads.antt =====
-- runtime/vader_http.c: the head of a request in the buffer of the server that reads it.
use vader_langue.Prelude.{
  ℕ, suc, zero, ◌+◌, ◌≡◌, ◌<◌, refl, ap, sym, ◌∙◌, arith, false, some, none, [], ◌∷◌, ◌++◌,
  append-nil, Bytes, ne→==, length, take,
}
use vader_langue.Libc.{is_prefix, strstr}
use vader_langue.Libc.Search.{strstr-none_cons, strstr_later, not_prefix, empty_none}
use vader_langue.Net.Dsn.Parts.{Without}
use vader_langue.Http.{crlf}
use vader_langue.Http.Responses.{Printable, blank_line}

-- A text whose blank line ends it and is its first, whatever follows.
pub record IsWhole (h : Bytes) : Type 0 where
  pub size : ℕ
  pub long : length h ≡ size + 4
  pub no_nul : Without 0 h
  pub found : (t : Bytes) → strstr (h ++ t) blank_line ≡ some size
  pub unfinished : (n : ℕ) → n < length h → strstr (take n h) blank_line ≡ none

blank_line-unfinished : (n : ℕ) → n < 4 → strstr (take n blank_line) blank_line ≡ none
unfolding strstr is_prefix
blank_line-unfinished zero h = refl
blank_line-unfinished (suc zero) h = refl
blank_line-unfinished (suc (suc zero)) h = refl
blank_line-unfinished (suc (suc (suc zero))) h = refl
blank_line-unfinished (suc (suc (suc (suc n)))) h = absurd (omega arith)

pub blank_line-IsWhole : IsWhole blank_line
blank_line-IsWhole = record {
  size = 0;
  long = refl;
  no_nul = ground arith;
  found = λ t. unfold strstr is_prefix in refl;
  unfinished = blank_line-unfinished;
}

byte-unfinished :
    (c : ℕ) (h : Bytes)
    → is_prefix blank_line (c ∷ h) ≡ false
    → ((n : ℕ) → n < length h → strstr (take n h) blank_line ≡ none)
    → (n : ℕ) → n < suc (length h)
    → strstr (take n (c ∷ h)) blank_line ≡ none
byte-unfinished c h q u zero l = empty_none blank_line (λ e. cc e)
byte-unfinished c h q u (suc n) l =
    strstr-none_cons c (take n h) blank_line (not_prefix c h blank_line n q) (u n (omega arith))

byte-IsWhole :
    (c : ℕ) (h : Bytes)
    → 0 < c
    → ((t : Bytes) → is_prefix blank_line (c ∷ (h ++ t)) ≡ false)
    → IsWhole h
    → IsWhole (c ∷ h)
byte-IsWhole c h p q w = record {
  size = suc w.size;
  long = omega (arith, w.long);
  no_nul = ((λ e. omega arith), w.no_nul);
  found = λ t. strstr_later c (h ++ t) blank_line w.size (q t) (w.found t);
  unfinished =
      byte-unfinished c h (sym (ap (λ l. is_prefix blank_line (c ∷ l)) (append-nil h)) ∙ q [])
        w.unfinished;
}

pub Printable-IsWhole : (a h : Bytes) → Printable a → IsWhole h → IsWhole (a ++ h)
Printable-IsWhole [] h p w = w
Printable-IsWhole (c ∷ a) h p w =
    byte-IsWhole c (a ++ h) (omega (arith, p.0))
      (λ t. unfold is_prefix in rw (ne→== 13 c (λ q. omega (arith, p.0))) refl)
      (Printable-IsWhole a h p.1 w)

-- A line that is not empty, behind its CRLF.
pub line-IsWhole :
    (c : ℕ) (a h : Bytes) → Printable (c ∷ a) → IsWhole h → IsWhole (crlf ++ ((c ∷ a) ++ h))
line-IsWhole c a h p w =
    byte-IsWhole 13 (10 ∷ ((c ∷ a) ++ h)) (omega arith)
      (λ t. unfold is_prefix in rw (ne→== 13 c (λ q. omega (arith, p.0))) refl)
      (byte-IsWhole 10 ((c ∷ a) ++ h) (omega arith) (λ t. unfold is_prefix in refl)
        (Printable-IsWhole (c ∷ a) h p w))
