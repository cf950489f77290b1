-- ===== src/Pg/Rows/Results/Cells.antt =====
-- Cells and rows as a server of PostgreSQL writes them, and as runtime/vader_pg.c reads them.
use vader_langue.Prelude.{
  ℕ, suc, ◌%◌, ◌/◌, ◌^◌, ◌≡◌, ◌≤◌, ◌<◌, refl, ap, ◌∙◌, arith, false, Option, none, some, List, [],
  ◌∷◌, ◌++◌, append_assoc, Bytes, le→ltb, leb, length, length-append, All, drop, take-length-append,
  drop-length-append,
}
use vader_langue.Pg.Message.{put32, get32}
use vader_langue.Pg.Message.Frames.{get32-put32}
use vader_langue.Pg.Rows.{pg_cell, pg_cells}

-- Cells and rows as the protocol writes them.
unfoldable pub cell_bytes : Option Bytes → Bytes
cell_bytes none = put32 0xffffffff
cell_bytes (some s) = put32 (length s) ++ s

unfoldable pub row_bytes : List (Option Bytes) → Bytes
row_bytes [] = []
row_bytes (c ∷ cs) = cell_bytes c ++ row_bytes cs

abbrev pub put16 : ℕ → Bytes
put16 n = n / 2 ^ 8 ∷ n % 2 ^ 8 ∷ []

abbrev pub row_body : List (Option Bytes) → Bytes
row_body cs = put16 (length cs) ++ row_bytes cs

pg_cells_step :
    (n : ℕ) (p q : Bytes) (c : Option Bytes) (row : List (Option Bytes))
    → 4 ≤ length p
    → pg_cell (get32 p) (drop 4 p) ≡ some (c, q)
    → pg_cells n q ≡ some row
    → pg_cells (suc n) p ≡ some (c ∷ row)
unfolding pg_cells
pg_cells_step n p q c row h e r = rw (le→ltb (length p) 4 h, e, r) refl

pg_cell-bytes :
    (s rest : Bytes) → length s < 2 ^ 31 → pg_cell (length s) (s ++ rest) ≡ some (some s, rest)
pg_cell-bytes s rest h =
    let small : leb (2 ^ 31) (length s) ≡ false = ground arith in
    rw
      (
        small,
        le→ltb (length (s ++ rest)) (length s) (omega (arith, length-append s rest)),
        take-length-append s rest,
        drop-length-append s rest,
      )
      refl

-- A cell fits into a message.
abbrev pub Small : Option Bytes → Type 0
Small none = Unit
Small (some s) = length s < 2 ^ 31

drop-put32 : (n : ℕ) (rest : Bytes) → drop 4 (put32 n ++ rest) ≡ rest
unfolding put32
drop-put32 n rest = refl

cell_bytes-some : (s rest : Bytes) → cell_bytes (some s) ++ rest ≡ put32 (length s) ++ (s ++ rest)
unfolding cell_bytes
cell_bytes-some s rest = append_assoc (put32 (length s)) s rest

null_cell :
    (rest : Bytes)
    → pg_cell (get32 (cell_bytes none ++ rest)) (drop 4 (cell_bytes none ++ rest))
      ≡ some (none, rest)
unfolding cell_bytes put32 get32
null_cell rest = refl

length-cell_bytes : (c : Option Bytes) (rest : Bytes) → 4 ≤ length (cell_bytes c ++ rest)
unfolding cell_bytes put32
length-cell_bytes none rest = omega arith
length-cell_bytes (some s) rest = omega arith

pg_cell-cell_bytes :
    (c : Option Bytes) (rest : Bytes)
    → Small c
    → pg_cell (get32 (cell_bytes c ++ rest)) (drop 4 (cell_bytes c ++ rest)) ≡ some (c, rest)
pg_cell-cell_bytes none rest h = null_cell rest
pg_cell-cell_bytes (some s) rest h =
    ap (λ t. pg_cell (get32 t) (drop 4 t)) (cell_bytes-some s rest)
    ∙ ap (λ n. pg_cell n (drop 4 (put32 (length s) ++ (s ++ rest))))
        (get32-put32 (length s) (s ++ rest) (omega arith))
    ∙ ap (pg_cell (length s)) (drop-put32 (length s) (s ++ rest))
    ∙ pg_cell-bytes s rest h

pub pg_cells-row_bytes :
    (cs : List (Option Bytes)) (rest : Bytes)
    → All Small cs
    → pg_cells (length cs) (row_bytes cs ++ rest) ≡ some cs
pg_cells-row_bytes [] rest h = unfold pg_cells in refl
pg_cells-row_bytes (c ∷ cs) rest h =
    let first : row_bytes (c ∷ cs) ++ rest ≡ cell_bytes c ++ (row_bytes cs ++ rest) =
      unfold row_bytes in append_assoc (cell_bytes c) (row_bytes cs) rest in
    ap (pg_cells (suc (length cs))) first
    ∙ pg_cells_step (length cs) (cell_bytes c ++ (row_bytes cs ++ rest)) (row_bytes cs ++ rest) c cs
        (length-cell_bytes c (row_bytes cs ++ rest))
        (pg_cell-cell_bytes c (row_bytes cs ++ rest) h.0) (pg_cells-row_bytes cs rest h.1)
