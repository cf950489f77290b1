-- ===== src/Mysql/Rows/Results/Cells.antt =====
-- The cells of a row as the protocol writes them.
use vader_langue.Prelude.{
  ℕ, suc, ◌+◌, ◌^◌, ◌≡◌, ◌≤◌, ◌<◌, ◌≢◌, refl, ap, sym, ◌∙◌, arith, Bool-cases, inl, inr, Option,
  none, some, List, [], ◌∷◌, ◌++◌, map, append_assoc, Bytes, ne→==, ltb, le→ltb, ltb→le, ltb→lt,
  ◌>>=◌, length, length-append, take-length-append, drop-length-append,
}
use vader_langue.Mysql.Packet.{lenenc_int}
use vader_langue.Mysql.Packet.Lengths.{lenenc, lenenc_int-lenenc}
use vader_langue.Net.{low_bytes}
use vader_langue.Mysql.Rows.{counted, parse_cell, parse_row}

-- A cell, `none` for NULL, and what the client makes of it.
unfoldable pub cell_bytes : Option Bytes → Bytes
cell_bytes none = 0xfb ∷ []
cell_bytes (some s) = lenenc (length s) ++ s

abbrev pub value : Option Bytes → Bytes
value none = []
value (some s) = s

unfoldable pub row_bytes : List (Option Bytes) → Bytes
row_bytes [] = []
row_bytes (c ∷ cs) = cell_bytes c ++ row_bytes cs

-- A text that begins with a byte for which `P` holds.
abbrev pub Head : (ℕ → Type 0) → Bytes → Type 0
Head P s = (b : ℕ) × (t : Bytes) × (s ≡ b ∷ t) × P b

-- What the first byte of a number is not.
abbrev pub Number : ℕ → ℕ → Type 0
Number n b = (b ≢ 0xfb) × (b ≢ 0xff) × (n < 2 ^ 24 → b ≢ 0xfe) × (1 ≤ n → b ≢ 0)

pub lenenc-Head : (n : ℕ) → Head (Number n) (lenenc n)
unfolding lenenc
lenenc-Head n = elim (Bool-cases (ltb n 0xfb)) [
  | inl a ↦
      let l = ltb→lt n 0xfb a in
      (
        n,
        [],
        rw a refl,
        ((λ e. omega arith), (λ e. omega arith), (λ _ e. omega arith), (λ h e. omega arith)),
      )
  | inr a ↦ elim (Bool-cases (ltb n (2 ^ 16))) [
    | inl b ↦ (
      0xfc,
      low_bytes 2 n,
      rw (a, b) refl,
      ((λ e. omega arith), (λ e. omega arith), (λ _ e. omega arith), (λ _ e. omega arith)),
    )
    | inr b ↦ elim (Bool-cases (ltb n (2 ^ 24))) [
      | inl c ↦ (
        0xfd,
        low_bytes 3 n,
        rw (a, b, c) refl,
        ((λ e. omega arith), (λ e. omega arith), (λ _ e. omega arith), (λ _ e. omega arith)),
      )
      | inr c ↦ (
        0xfe,
        low_bytes 8 n,
        rw (a, b, c) refl,
        (
          (λ e. omega arith),
          (λ e. omega arith),
          (λ h e. omega (arith, ltb→le n (2 ^ 24) c)),
          (λ _ e. omega arith),
        ),
      )
    ]
  ]
]

parse_cell-number :
    (b : ℕ) (p : Bytes) → b ≢ 0xfb → parse_cell (b ∷ p) ≡ (lenenc_int (b ∷ p) >>= counted)
unfolding parse_cell
parse_cell-number b p h = rw (ne→== b 0xfb h) refl

counted-append : (s rest : Bytes) → counted (length s, s ++ rest) ≡ some (s, rest)
counted-append s rest =
    rw
      (
        le→ltb (length (s ++ rest)) (length s) (omega (arith, length-append s rest)),
        take-length-append s rest,
        drop-length-append s rest,
      )
      refl

-- A cell is read back, and what follows it is left.
parse_cell-cell_bytes :
    (c : Option Bytes) (rest : Bytes)
    → length (value c) < 2 ^ 64
    → parse_cell (cell_bytes c ++ rest) ≡ some (value c, rest)
parse_cell-cell_bytes none rest h = unfold parse_cell in unfold cell_bytes in refl
parse_cell-cell_bytes (some s) rest h =
    let (b, t, e, number) = lenenc-Head (length s) in
    let starts : lenenc (length s) ++ (s ++ rest) ≡ b ∷ (t ++ (s ++ rest)) =
      ap (λ l. l ++ (s ++ rest)) e in
    let whole : cell_bytes (some s) ++ rest ≡ lenenc (length s) ++ (s ++ rest) =
      unfold cell_bytes in append_assoc (lenenc (length s)) s rest in
    ap parse_cell (whole ∙ starts)
    ∙ parse_cell-number b (t ++ (s ++ rest)) number.0
    ∙ ap (λ l. lenenc_int l >>= counted) (sym starts)
    ∙ ap (λ o. o >>= counted) (lenenc_int-lenenc (length s) (s ++ rest) h)
    ∙ counted-append s rest

parse_row_step :
    (n : ℕ) (p v q : Bytes) (vs : List Bytes)
    → parse_cell p ≡ some (v, q)
    → parse_row n q ≡ some vs
    → parse_row (suc n) p ≡ some (v ∷ vs)
unfolding parse_row
parse_row_step n p v q vs h e = rw (h, e) refl

row_bytes-∷ :
    (c : Option Bytes) (cs : List (Option Bytes))
    → row_bytes (c ∷ cs) ≡ cell_bytes c ++ row_bytes cs
unfolding row_bytes
row_bytes-∷ c cs = refl

cell_bytes-some : (s : Bytes) → cell_bytes (some s) ≡ lenenc (length s) ++ s
unfolding cell_bytes
cell_bytes-some s = refl

length-row_bytes :
    (c : Option Bytes) (cs : List (Option Bytes))
    → length (value c) + length (row_bytes cs) ≤ length (row_bytes (c ∷ cs))
unfolding row_bytes cell_bytes
length-row_bytes none cs = omega arith
length-row_bytes (some s) cs = omega (
  arith,
  length-append (lenenc (length s) ++ s) (row_bytes cs),
  length-append (lenenc (length s)) s,
)

-- All cells of a row are read back.
pub parse_row-row_bytes :
    (cs : List (Option Bytes)) (rest : Bytes)
    → length (row_bytes cs) < 2 ^ 24
    → parse_row (length cs) (row_bytes cs ++ rest) ≡ some (map value cs)
parse_row-row_bytes [] rest h = unfold parse_row in refl
parse_row-row_bytes (c ∷ cs) rest h =
    let small = length-row_bytes c cs in
    let first : row_bytes (c ∷ cs) ++ rest ≡ cell_bytes c ++ (row_bytes cs ++ rest) =
      ap (λ l. l ++ rest) (row_bytes-∷ c cs) ∙ append_assoc (cell_bytes c) (row_bytes cs) rest in
    parse_row_step (length cs) (row_bytes (c ∷ cs) ++ rest) (value c) (row_bytes cs ++ rest)
      (map value cs)
      (ap parse_cell first ∙ parse_cell-cell_bytes c (row_bytes cs ++ rest) (omega arith))
      (parse_row-row_bytes cs rest (omega arith))

-- No row can be taken for an EOF.
pub row_bytes-Head :
    (cs : List (Option Bytes))
    → 1 ≤ length cs
    → length (row_bytes cs) < 2 ^ 24
    → Head (λ b. b ≢ 0xfe) (row_bytes cs)
unfolding row_bytes
row_bytes-Head [] h hl = absurd (omega arith)
row_bytes-Head (none ∷ cs) h hl =
    (0xfb, row_bytes cs, (unfold cell_bytes in refl), (λ e. omega arith))
row_bytes-Head (some s ∷ cs) h hl =
    let small = length-row_bytes (some s) cs in
    let (b, t, e, number) = lenenc-Head (length s) in
    (
      b,
      (t ++ s) ++ row_bytes cs,
      ap (λ l. l ++ row_bytes cs) (cell_bytes-some s ∙ ap (λ l. l ++ s) e),
      number.2 (omega arith),
    )
