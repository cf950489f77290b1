-- ===== src/Db/Objects/Pg.antt =====
-- runtime/vader_pg.c as a driver of runtime/vader_db.c: a query and the scan of its rows.
use vader_langue.Prelude.{
  ℕ, ◌+◌, ◌^◌, ◌≡◌, ◌<◌, refl, ap, sym, ◌∙◌, arith, true, false, Option, none, some, List, [], ◌∷◌,
  ◌++◌, append_assoc, append-nil, map, All, Bytes, ℤ, pos, negsuc, succ, ltb, lt→ltb, le→ltb,
  length, length-append, length-map, get_or, get_elem?,
}
use vader_langue.Net.{Wire}
use vader_langue.Net.Transfer.{flat, Flows}
use vader_langue.Pg.Rows.{
  PgConn, PgRows, answered, pg_exec, pg_query, pg_next, pg_text, pg_close, pg_text_at,
  pg_before_end, pg_run, pg_run_open, cell_text,
}
use vader_langue.Pg.Rows.Results.Cells.{put16}
use vader_langue.Pg.Rows.Results.{messages, data_row, closing, Fitting, pg_run_open-reply}
use vader_langue.Pg.Login.{PgLogin, Chance, returned, outside_body, tired, pg_connect}
use vader_langue.Pg.Login.Negotiate.{Tls}
use vader_langue.Db.{pg}
use vader_langue.Db.Driver.{Remote, Sqlite, Handle, db_query}
use vader_langue.Db.Objects.{Library, Objects, Pointer, remote, State}
use vader_langue.Db.Objects.Scan.{lt→leb, get_or-middle, get_or-map, Walks, Scans, db_query-Scans}

abbrev pub pg_logged_in : Option PgLogin → Option (Option PgConn)
pg_logged_in none = some none
pg_logged_in (some (returned c)) = some (some c)
pg_logged_in (some outside_body) = none
pg_logged_in (some tired) = none

abbrev pub pg_library : Tls → Chance → (Bytes → ℤ → Option Wire) → Library PgConn PgRows
pg_library tls x dial = record {
  connect = λ dsn. pg_logged_in (pg_connect tls x dial dsn);
  exec = pg_exec;
  query = pg_query;
  next = pg_next;
  text = pg_text;
  close = λ c. (pg_close c).0;
}

next-row :
    (ncols : ℕ) (cur : ℤ) (before rows cells : List (List (Option Bytes)))
    (row : List (Option Bytes))
    → succ cur ≡ pos (length before)
    → cells ≡ before ++ row ∷ rows
    → pg_next (some (record { ncols = ncols; cur = cur; cells = cells }))
      ≡ (true, some (record { ncols = ncols; cur = pos (length before); cells = cells }))
next-row ncols cur before rows cells row hc he =
    let long = length-append before (row ∷ rows) in
    let inside : ltb (length before) (length cells) ≡ true =
      lt→ltb (length before) (length cells) (omega (arith, long, ap length he)) in
    ap
      (λ c.
        (pg_before_end c (length cells), some (record { ncols = ncols; cur = c; cells = cells })))
      hc
    ∙ ap (λ b. (b, some (record { ncols = ncols; cur = pos (length before); cells = cells })))
        inside

next-end :
    (ncols : ℕ) (cur : ℤ) (before cells : List (List (Option Bytes)))
    → succ cur ≡ pos (length before)
    → cells ≡ before
    → (pg_next (some (record { ncols = ncols; cur = cur; cells = cells }))).0 ≡ false
next-end ncols cur before cells hc he =
    ap (λ c. pg_before_end c (length cells)) hc
    ∙ le→ltb (length before) (length cells) (omega (arith, ap length he))

text-row :
    (ncols : ℕ) (before rows cells : List (List (Option Bytes))) (row : List (Option Bytes))
    (col : ℕ)
    → cells ≡ before ++ row ∷ rows
    → col < ncols
    → pg_text (some (record { ncols = ncols; cur = pos (length before); cells = cells })) col
      ≡ cell_text (get_or row col none)
unfolding pg_text_at
text-row ncols before rows cells row col he hc =
    let long = length-append before (row ∷ rows) in
    rw
      (
        lt→leb (length before) (length cells) (omega (arith, long, ap length he)),
        lt→leb col ncols hc,
        he,
        get_or-middle before rows row [],
      )
      refl

-- The rows of a result give their texts, from behind those that were read before.
rows-Walks :
    (tls : Tls) (x : Chance) (dial : Bytes → ℤ → Option Wire) (ncols : ℕ)
    (rows before cells : List (List (Option Bytes))) (cur : ℤ)
    → succ cur ≡ pos (length before)
    → cells ≡ before ++ rows
    → All (λ row. length row ≡ ncols) rows
    → Walks
        (pg_library tls x dial)
        (record { ncols = ncols; cur = cur; cells = cells })
        (map (map cell_text) rows)
rows-Walks tls x dial ncols [] before cells cur hc he hr =
    next-end ncols cur before cells hc (he ∙ append-nil before)
rows-Walks tls x dial ncols (row ∷ rows) before cells cur hc he hr = (
  record { ncols = ncols; cur = pos (length before); cells = cells },
  next-row ncols cur before rows cells row hc he,
  λ col l.
      text-row ncols before rows cells row col he (omega (arith, hr.0, length-map cell_text row))
      ∙ sym (get_or-map cell_text row col none),
  rows-Walks tls x dial ncols rows (before ++ row ∷ []) cells (pos (length before))
      (ap pos (omega (arith, length-append before (row ∷ []))))
      (he ∙ sym (append_assoc before (row ∷ []) rows)) hr.1,
)

-- The texts of cells, up to their NUL and empty for NULL.
abbrev pub pg_texts : List (List (Option Bytes)) → List (List Bytes)
pg_texts rows = map (map cell_text) rows

pg_query-rows :
    (c : PgConn) (w after : Wire) (sql : Bytes) (rows : PgRows)
    → c.fd ≡ some w
    → pg_run_open w sql ≡ answered rows none after
    → pg_query (some c) sql ≡ some (some rows, some (record c { fd = some after }))
unfolding pg_run
pg_query-rows c w after sql rows h e = rw (h, e) refl

-- When the server answers a query with rows of as many cells as it describes columns, as in
-- `pg_run_open-reply`, a query on a handle of PostgreSQL through `vader_db_query` gives rows of which
-- `vader_db_next` and `vader_db_col_text` give each row in its order, with the text of each cell,
-- and then the end.
pub db_query-pg_reply :
    (tls : Tls) (x : Chance) (dial : Bytes → ℤ → Option Wire)
    (my_driver : Remote (State (pg_library tls x dial)) Pointer Pointer)
    (lite : Sqlite (State (pg_library tls x dial)) Pointer Pointer) (o : Objects PgConn PgRows)
    (i : ℕ) (c : PgConn) (w : Wire) (sql : Bytes) (n : ℕ) (fields : Bytes)
    (rows : List (List (Option Bytes))) (tag status more : Bytes)
    → get_elem? o.conns i ≡ some c
    → c.fd ≡ some w
    → n < 2 ^ 16
    → length (put16 n ++ fields) + 4 < 2 ^ 31
    → All Fitting rows
    → All (λ row. length row ≡ n) rows
    → length tag + 4 < 2 ^ 31
    → length status + 4 < 2 ^ 31
    → Flows w.incoming
    → flat w.incoming
      ≡ messages ((b'T', put16 n ++ fields) ∷ map data_row rows ++ closing tag status) ++ more
    → (r : Handle Pointer) × (v : State (pg_library tls x dial)) × (db_query
          (remote (pg_library tls x dial))
          my_driver
          lite
          (some (record { kind = pg; h = some i }))
          sql
          (some o)
        ≡ (some r, v))
      × Scans (remote (pg_library tls x dial)) my_driver lite r v (pg_texts rows)
db_query-pg_reply tls x dial my_driver lite o i c w sql n fields rows tag status more hi hw hn hd hr
      hl ht hs hf e =
    let lib = pg_library tls x dial in
    let a = pg_run_open-reply w sql n fields rows tag status more hn hd hr ht hs hf e in
    let table : PgRows = record { ncols = n; cur = negsuc 0; cells = rows } in
    db_query-Scans lib (remote lib) my_driver lite pg (λ p sql w. refl) (λ p w. refl)
      (λ p col w. refl) (pg_texts rows) o i c (record c { fd = some a.after }) table sql hi
      (pg_query-rows c w a.after sql table hw a.got)
      (rows-Walks tls x dial n rows [] rows (negsuc 0) refl refl hl)
