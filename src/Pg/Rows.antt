-- ===== src/Pg/Rows.antt =====
-- runtime/vader_pg.c: queries and their results.
pub mod Results
use vader_langue.Prelude.{
  ℕ, suc, zero, ◌+◌, ◌-◌, ◌*◌, ◌^◌, Bool, true, false, ◌||◌, Option, none, some, List, [], ◌∷◌,
  ◌++◌, Bytes, codes, ◌==◌, ltb, leb, if◌then◌else◌, ◌>>=◌, length, get_or, take, drop, ℤ, pos,
  negsuc, succ,
}
use vader_langue.Libc.{strchr}
use vader_langue.Net.{Wire, to_nul}
use vader_langue.Net.Transfer.{flat}
use vader_langue.Pg.Message.{Message, io_write, get32, pg_read_msg, pg_send}

-- `PgConn`; `fd` is `none` for -1.
pub record PgConn : Type 0 where
  pub fd : Option Wire
  pub err : Bytes

-- `PgRows`, `nrows` being the length of `cells`. A cell is its buffer without the NUL behind it, and `none`
-- for a null pointer.
pub record PgRows : Type 0 where
  pub ncols : ℕ
  pub cur : ℤ
  pub cells : List (List (Option Bytes))

-- `(p[0] << 8) | p[1]`, with what follows; `none` where the body ends before.
abbrev pub get16 : Bytes → Option (ℕ × Bytes)
get16 [] = none
get16 (hi ∷ []) = none
get16 (hi ∷ lo ∷ p) = some (hi * 2 ^ 8 + lo, p)

-- A cell of `len` bytes, or the null of a negative one, with what follows it.
abbrev pub pg_cell : ℕ → Bytes → Option (Option Bytes × Bytes)
pg_cell len p =
    if leb (2 ^ 31) len
    then some (none, p)
    else if ltb (length p) len
    then none
    else some (some (take len p), drop len p)

unfoldable pub pg_cells : ℕ → Bytes → Option (List (Option Bytes))
pg_cells zero p = some []
pg_cells (suc n) p =
    if ltb (length p) 4
    then none
    else pg_cell (get32 p) (drop 4 p) >>= (λ r. pg_cells n r.1 >>= (λ row. some (r.0 ∷ row)))

-- The loop of `pg_error_text` for at most `fuel` fields; `none` where it reads outside the body.
unfoldable pub error_fields : ℕ → Bytes → Option Bytes
error_fields zero p = none
error_fields (suc fuel) [] = some (codes "Postgres error")
error_fields (suc fuel) (field ∷ p) =
    if field == 0 then some (codes "Postgres error") else elim (strchr p 0) [
      | none ↦ none
      | some k ↦ if field == b'M' then some (take k p) else error_fields fuel (drop (suc k) p)
    ]

-- A field is two bytes at least.
unfoldable pub pg_error_text : Bytes → Option Bytes
pg_error_text body = error_fields (suc (length body)) body

-- What the loop of `pg_run` does with a message: it goes on with these columns and rows, returns with an
-- error or without, first reads on until ReadyForQuery, or reads outside the body.
pub data PgStep : Type 0 where
  go_on : ℕ → List (List (Option Bytes)) → PgStep
  stop : Option Bytes → PgStep
  drain : Bytes → PgStep
  outside : PgStep

abbrev pub described : List (List (Option Bytes)) → Option (ℕ × Bytes) → PgStep
described cells none = outside
described cells (some (n, p)) = go_on n cells

abbrev pub with_row : ℕ → List (List (Option Bytes)) → Option (List (Option Bytes)) → PgStep
with_row ncols cells none = outside
with_row ncols cells (some row) = go_on ncols (cells ++ row ∷ [])

abbrev pub refused : Option Bytes → PgStep
refused none = outside
refused (some err) = drain err

unfoldable pub msg_step : ℕ → List (List (Option Bytes)) → Option Message → PgStep
msg_step ncols cells none = stop (some (codes "connection dropped during the query"))
msg_step ncols cells (some (type, body)) =
    if type == b'T'
    then described cells (get16 body)
    else if type == b'D'
    then with_row ncols cells (get16 body >>= (λ r. pg_cells r.0 r.1))
    else if type == b'E'
    then refused (pg_error_text body)
    else if type == b'Z'
    then stop none
    else go_on ncols cells

-- The loop that drains until ReadyForQuery, for at most `fuel` messages.
abbrev pub is_ready : Option Message → Bool
is_ready none = true
is_ready (some (type, body)) = type == b'Z'

unfoldable pub drain_wire : ℕ → Wire → Option Wire
drain_wire zero w = none
drain_wire (suc fuel) w =
    let rest = drain_wire fuel (pg_read_msg w).1 in
    if is_ready (pg_read_msg w).0 then some (pg_read_msg w).1 else rest

-- How the loop ended; `tired` where `fuel` messages were not enough.
pub data PgReply : Type 0 where
  answered : PgRows → Option Bytes → Wire → PgReply
  outside_body : PgReply
  tired : PgReply

abbrev pub ready : ℕ → List (List (Option Bytes)) → PgRows
ready ncols cells = record { ncols = ncols; cur = negsuc 0; cells = cells }

abbrev pub drained : PgRows → Bytes → Option Wire → PgReply
drained rows err none = tired
drained rows err (some w) = answered rows (some err) w

abbrev pub after_step :
    ℕ
    → List (List (Option Bytes))
    → Wire
    → (ℕ → List (List (Option Bytes)) → PgReply)
    → Option Wire
    → PgStep
    → PgReply
after_step ncols cells w loop left (go_on n rows) = loop n rows
after_step ncols cells w loop left (stop err) = answered (ready ncols cells) err w
after_step ncols cells w loop left (drain err) = drained (ready ncols cells) err left
after_step ncols cells w loop left outside = outside_body

-- The loop of `pg_run`.
unfoldable pub pg_loop : ℕ → ℕ → List (List (Option Bytes)) → Wire → PgReply
pg_loop zero ncols cells w = tired
pg_loop (suc fuel) ncols cells w =
    let w1 = (pg_read_msg w).1 in
    after_step ncols cells w1 (λ n rows. pg_loop fuel n rows w1) (drain_wire fuel w1)
      (msg_step ncols cells (pg_read_msg w).0)

-- `pg_run` on an open connection. Each message takes five bytes at least.
unfoldable pub pg_run_open : Wire → Bytes → PgReply
pg_run_open w sql =
    let w1 = (pg_send w b'Q' (sql ++ 0 ∷ [])).1 in
    pg_loop (suc (suc (length (flat w1.incoming)))) 0 [] w1

-- `pg_run`; `none` for a null connection or null rows.
pub record PgRun : Type 0 where
  pub rows : Option PgRows
  pub errout : Option Bytes
  pub conn : Option PgConn

abbrev pub invalid : Option PgConn → PgRun
invalid c = record { rows = none; errout = some (codes "invalid connection"); conn = c }

abbrev pub returned : PgConn → PgReply → Option PgRun
returned c (answered rows err w) =
    some (record { rows = some rows; errout = err; conn = some (record c { fd = some w }) })
returned c outside_body = none
returned c tired = none

unfoldable pub pg_run : Option PgConn → Bytes → Option PgRun
pg_run none sql = some (invalid none)
pg_run (some c) sql = elim c.fd [
  | none ↦ some (invalid (some c))
  | some w ↦ returned c (pg_run_open w sql)
]

abbrev pub pg_exec : Option PgConn → Bytes → Option (Option Bytes × Option PgConn)
pg_exec c sql = pg_run c sql >>= (λ r. some (r.errout, r.conn))

abbrev pub pg_query : Option PgConn → Bytes → Option (Option PgRows × Option PgConn)
pg_query c sql = pg_run c sql >>= (λ r. some (r.rows, r.conn))

-- `r->cur < r->nrows`
abbrev pub pg_before_end : ℤ → ℕ → Bool
pg_before_end (pos k) n = ltb k n
pg_before_end (negsuc k) n = true

abbrev pub pg_next : Option PgRows → Bool × Option PgRows
pg_next none = (false, none)
pg_next (some r) =
    let cur = succ r.cur in (pg_before_end cur (length r.cells), some (record r { cur = cur }))

abbrev pub cell_text : Option Bytes → Bytes
cell_text none = []
cell_text (some s) = to_nul s

-- The text of a column from 0 that the row has.
unfoldable pub pg_text_at : ℤ → ℕ → PgRows → Bytes
pg_text_at (negsuc k) col r = []
pg_text_at (pos k) col r =
    if leb (length r.cells) k || leb r.ncols col
    then []
    else cell_text (get_or (get_or r.cells k []) col none)

abbrev pub pg_text : Option PgRows → ℕ → Bytes
pg_text none col = []
pg_text (some r) col = pg_text_at r.cur col r

-- `vader_pg_close`, and what the server has got.
unfoldable pub pg_close : Option PgConn → Option PgConn × Option Wire
pg_close none = (none, none)
pg_close (some c) = elim c.fd [
  | none ↦ (some c, none)
  | some w ↦ (some (record c { fd = none }), some (io_write (b'X' ∷ 0 ∷ 0 ∷ 0 ∷ 4 ∷ []) w).1)
]

-- `vader_pg_error`, `none` for NULL.
abbrev pub pg_error : Option PgConn → Option Bytes
pg_error none = none
pg_error (some c) = elim c.fd [
  | none ↦ if length c.err == 0 then none else some c.err
  | some w ↦ none
]
