-- ===== src/Mysql/Rows.antt =====
-- runtime/vader_mysql.c: queries and their results. `none` where the code reads outside a packet.
pub mod Sequence
pub mod Results
use vader_langue.Prelude.{
  ℕ, suc, zero, ◌+◌, ◌*◌, ◌-◌, ◌%◌, ◌^◌, Bool, true, false, not, ◌&&◌, ◌||◌, Option, none, some,
  List, [], ◌∷◌, ◌++◌, Bytes, codes, ◌==◌, ltb, leb, if◌then◌else◌, ◌>>=◌, length, get_or,
  get_elem?, take, drop, ℤ, pos, negsuc, succ,
}
use vader_langue.Net.{Wire, to_nul}
use vader_langue.Net.Transfer.{flat}
use vader_langue.Mysql.Packet.{read_packet, write_packet, lenenc_int}

-- `MyConn`; `fd` is `none` for -1.
pub record MyConn : Type 0 where
  pub fd : Option Wire
  pub err : Bytes

-- `MyRows`, `nrows` being the length of `cells`. A cell is its buffer without the NUL behind it.
pub record MyRows : Type 0 where
  pub ncols : ℕ
  pub cur : ℤ
  pub cells : List (List Bytes)

-- `(int)` of the number of columns; a negative one counts as 0 wherever it is used.
abbrev pub to_count : ℕ → ℕ
to_count v = let n = v % 2 ^ 32 in if ltb n (2 ^ 31) then n else 0

-- The first `l` of the bytes that follow the length `l`, and the others.
abbrev pub counted : ℕ × Bytes → Option (Bytes × Bytes)
counted (l, p) = if ltb (length p) l then none else some (take l p, drop l p)

-- One cell, with what follows it.
unfoldable pub parse_cell : Bytes → Option (Bytes × Bytes)
parse_cell [] = none
parse_cell (b ∷ p) = if b == 0xfb then some ([], p) else lenenc_int (b ∷ p) >>= counted

-- The cells of a row packet.
unfoldable pub parse_row : ℕ → Bytes → Option (List Bytes)
parse_row zero p = some []
parse_row (suc n) p = parse_cell p >>= (λ r. parse_row n r.1 >>= (λ cells. some (r.0 ∷ cells)))

-- Packets that are read and thrown away.
unfoldable pub skip_packets : ℕ → Wire → Wire
skip_packets zero w = w
skip_packets (suc n) w = skip_packets n (read_packet w).1

-- `(unsigned char)pkt[0] == 0xfe && len < 9`
abbrev pub is_eof : ℕ → Bytes → Bool
is_eof b p = (b == 0xfe) && ltb (length p) 9

pub data RowReply : Type 0 where
  finished : RowReply
  outside : RowReply
  cells_of : List Bytes → RowReply

-- What the loop over the rows does with a packet: none, or an EOF, ends it.
unfoldable pub row_reply : ℕ → Option (ℕ × Bytes) → RowReply
row_reply ncols none = finished
row_reply ncols (some (seq, [])) = outside
row_reply ncols (some (seq, b ∷ p)) =
    if is_eof b (b ∷ p)
    then finished
    else elim (parse_row ncols (b ∷ p)) [ none ↦ outside | some row ↦ cells_of row ]

abbrev pub add_row :
    List Bytes → Option (List (List Bytes) × Wire) → Option (List (List Bytes) × Wire)
add_row row none = none
add_row row (some (cells, w)) = some (row ∷ cells, w)

-- What the loop gives, after its first packet, for the rows behind that.
abbrev pub rows_from :
    Wire → Option (List (List Bytes) × Wire) → RowReply → Option (List (List Bytes) × Wire)
rows_from w rest finished = some ([], w)
rows_from w rest outside = none
rows_from w rest (cells_of row) = add_row row rest

-- The loop over the rows, for at most `fuel` packets.
unfoldable pub read_rows : ℕ → ℕ → Wire → Option (List (List Bytes) × Wire)
read_rows zero ncols w = none
read_rows (suc fuel) ncols w =
    let rest = read_rows fuel ncols (read_packet w).1 in
    rows_from (read_packet w).1 rest (row_reply ncols (read_packet w).0)

-- `MyRows` as `calloc` leaves it, but for `cur`.
unfoldable pub no_rows : MyRows
no_rows = record { ncols = 0; cur = negsuc 0; cells = [] }

-- The rows of a result, or those that were read so far, and `*errout`.
abbrev pub Answer : Type 0
Answer = MyRows × Option Bytes × Wire

abbrev pub with_rows : ℕ → Option (List (List Bytes) × Wire) → Option Answer
with_rows n none = none
with_rows n (some (cells, w)) = some (record { ncols = n; cur = negsuc 0; cells = cells }, none, w)

-- The column definitions, the EOF behind them, and the rows. Each packet takes a byte at least.
unfoldable pub result_set : ℕ → Wire → Option Answer
result_set n w =
    let w1 = (read_packet (skip_packets n w)).1 in
    with_rows n (read_rows (suc (length (flat w1.incoming))) n w1)

-- The first packet of the server's reply.
unfoldable pub first_reply : Option (ℕ × Bytes) → Wire → Option Answer
first_reply none w = some (no_rows, some (codes "connection dropped"), w)
first_reply (some (seq, [])) w = none
first_reply (some (seq, b ∷ p)) w =
    if b == 0xff
    then some (no_rows, some (codes "SQL error in MySQL"), w)
    else if b == 0
    then some (no_rows, none, w)
    else lenenc_int (b ∷ p) >>= (λ r. result_set (to_count r.0) w)

-- `my_run` on an open connection.
unfoldable pub run_open : Wire → Bytes → Option Answer
run_open w sql =
    let w1 = (write_packet w (0x03 ∷ sql) 0).1 in first_reply (read_packet w1).0 (read_packet w1).1

-- `my_run`; `none` for a NULL connection or NULL rows.
pub record Run : Type 0 where
  pub rows : Option MyRows
  pub errout : Option Bytes
  pub conn : Option MyConn

abbrev pub invalid : Option MyConn → Run
invalid c = record { rows = none; errout = some (codes "invalid connection"); conn = c }

abbrev pub answered : MyConn → Option Answer → Option Run
answered c none = none
answered c (some (rows, err, w)) =
    some (record { rows = some rows; errout = err; conn = some (record c { fd = some w }) })

unfoldable pub my_run : Option MyConn → Bytes → Option Run
my_run none sql = some (invalid none)
my_run (some c) sql = elim c.fd [
  | none ↦ some (invalid (some c))
  | some w ↦ answered c (run_open w sql)
]

abbrev pub my_exec : Option MyConn → Bytes → Option (Option Bytes × Option MyConn)
my_exec c sql = my_run c sql >>= (λ r. some (r.errout, r.conn))

abbrev pub my_query : Option MyConn → Bytes → Option (Option MyRows × Option MyConn)
my_query c sql = my_run c sql >>= (λ r. some (r.rows, r.conn))

-- `r->cur < r->nrows`
abbrev pub before_end : ℤ → ℕ → Bool
before_end (pos k) n = ltb k n
before_end (negsuc k) n = true

abbrev pub my_next : Option MyRows → Bool × Option MyRows
my_next none = (false, none)
my_next (some r) =
    let cur = succ r.cur in (before_end cur (length r.cells), some (record r { cur = cur }))

-- The text of a column from 0.
unfoldable pub text_at : ℤ → ℕ → MyRows → Bytes
text_at (negsuc k) col r = []
text_at (pos k) col r =
    if leb (length r.cells) k || leb r.ncols col
    then []
    else to_nul (get_or (get_or r.cells k []) col [])

abbrev pub my_text : Option MyRows → ℕ → Bytes
my_text none col = []
my_text (some r) col = text_at r.cur col r

-- `vader_my_close`, and what the server has got.
unfoldable pub my_close : Option MyConn → Option MyConn × Option Wire
my_close none = (none, none)
my_close (some c) = elim c.fd [
  | none ↦ (some c, none)
  | some w ↦ (some (record c { fd = none }), some (write_packet w (0x01 ∷ []) 0).1)
]
