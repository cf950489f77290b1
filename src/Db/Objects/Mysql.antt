-- ===== src/Db/Objects/Mysql.antt =====
-- runtime/vader_mysql.c as a driver of runtime/vader_db.c: a query and the scan of its rows.
use vader_langue.Prelude.{
  ℕ, ◌^◌, ◌≡◌, ◌<◌, ◌≤◌, refl, ap, sym, ◌∙◌, arith, true, false, Option, none, some, List, [], ◌∷◌,
  ◌++◌, append_assoc, append-nil, map, All, Bytes, ℤ, pos, negsuc, succ, ltb, lt→ltb, le→ltb,
  length, length-append, length-map, get_or, get_elem?,
}
use vader_langue.Net.{Wire, to_nul}
use vader_langue.Net.Transfer.{flat, Flows}
use vader_langue.Mysql.Rows.{
  MyConn, MyRows, my_exec, my_query, my_next, my_text, my_close, text_at, before_end, my_run,
  run_open,
}
use vader_langue.Mysql.Rows.Sequence.{frames, Short}
use vader_langue.Mysql.Rows.Results.{reply, Eof, Fitting, run_open-reply}
use vader_langue.Mysql.Rows.Results.Cells.{value}
use vader_langue.Mysql.Login.{Login, returned, outside_packet, tired, my_connect}
use vader_langue.Mysql.Login.Full.{Tls}
use vader_langue.Db.{mysql}
use vader_langue.Db.Driver.{Remote, Sqlite, Handle, db_query}
use vader_langue.Db.Objects.{Library, Objects, Pointer, remote, State}
use vader_langue.Db.Objects.Scan.{lt→leb, get_or-middle, get_or-map, Walks, Scans, db_query-Scans}

abbrev pub logged_in : Option Login → Option (Option MyConn)
logged_in none = some none
logged_in (some (returned c)) = some (some c)
logged_in (some outside_packet) = none
logged_in (some tired) = none

abbrev pub my_library : Tls → Bytes → (Bytes → ℤ → Option Wire) → Library MyConn MyRows
my_library tls garbage dial = record {
  connect = λ dsn. logged_in (my_connect tls garbage dial dsn);
  exec = my_exec;
  query = my_query;
  next = my_next;
  text = my_text;
  close = λ c. (my_close c).0;
}

next-row :
    (ncols : ℕ) (cur : ℤ) (before rows cells : List (List Bytes)) (row : List Bytes)
    → succ cur ≡ pos (length before)
    → cells ≡ before ++ row ∷ rows
    → my_next (some (record { ncols = ncols; cur = cur; cells = cells }))
      ≡ (true, some (record { ncols = ncols; cur = pos (length before); cells = cells }))
next-row ncols cur before rows cells row hc he =
    let long = length-append before (row ∷ rows) in
    let inside : ltb (length before) (length cells) ≡ true =
      lt→ltb (length before) (length cells) (omega (arith, long, ap length he)) in
    ap (λ c. (before_end c (length cells), some (record { ncols = ncols; cur = c; cells = cells })))
      hc
    ∙ ap (λ b. (b, some (record { ncols = ncols; cur = pos (length before); cells = cells })))
        inside

next-end :
    (ncols : ℕ) (cur : ℤ) (before cells : List (List Bytes))
    → succ cur ≡ pos (length before)
    → cells ≡ before
    → (my_next (some (record { ncols = ncols; cur = cur; cells = cells }))).0 ≡ false
next-end ncols cur before cells hc he =
    ap (λ c. before_end c (length cells)) hc
    ∙ le→ltb (length before) (length cells) (omega (arith, ap length he))

text-row :
    (ncols : ℕ) (before rows cells : List (List Bytes)) (row : List Bytes) (col : ℕ)
    → cells ≡ before ++ row ∷ rows
    → col < ncols
    → my_text (some (record { ncols = ncols; cur = pos (length before); cells = cells })) col
      ≡ to_nul (get_or row col [])
unfolding text_at
text-row ncols before rows cells row col he hc =
    let long = length-append before (row ∷ rows) in
    rw
      (
        lt→leb (length before) (length cells) (omega (arith, long, ap length he)),
        lt→leb col ncols hc,
        he,
        get_or-middle before rows row [],
      )
      refl

-- The rows of a result give their texts, from behind those that were read before.
rows-Walks :
    (tls : Tls) (garbage : Bytes) (dial : Bytes → ℤ → Option Wire) (ncols : ℕ)
    (rows before cells : List (List Bytes)) (cur : ℤ)
    → succ cur ≡ pos (length before)
    → cells ≡ before ++ rows
    → All (λ row. length row ≡ ncols) rows
    → Walks
        (my_library tls garbage dial)
        (record { ncols = ncols; cur = cur; cells = cells })
        (map (map to_nul) rows)
rows-Walks tls garbage dial ncols [] before cells cur hc he hr =
    next-end ncols cur before cells hc (he ∙ append-nil before)
rows-Walks tls garbage dial ncols (row ∷ rows) before cells cur hc he hr = (
  record { ncols = ncols; cur = pos (length before); cells = cells },
  next-row ncols cur before rows cells row hc he,
  λ col l.
      text-row ncols before rows cells row col he (omega (arith, hr.0, length-map to_nul row))
      ∙ sym (get_or-map to_nul row col []),
  rows-Walks tls garbage dial ncols rows (before ++ row ∷ []) cells (pos (length before))
      (ap pos (omega (arith, length-append before (row ∷ []))))
      (he ∙ sym (append_assoc before (row ∷ []) rows)) hr.1,
)

Fitting-columns :
    (n : ℕ) (rows : List (List (Option Bytes)))
    → All (Fitting n) rows
    → All (λ row. length row ≡ n) (map (map value) rows)
Fitting-columns n [] h = tt
Fitting-columns n (row ∷ rows) h = (length-map value row ∙ h.0.0, Fitting-columns n rows h.1)

-- The texts of cells, up to their NUL and empty for NULL.
abbrev pub texts : List (List (Option Bytes)) → List (List Bytes)
texts rows = map (map to_nul) (map (map value) rows)

my_query-rows :
    (c : MyConn) (w after : Wire) (sql : Bytes) (rows : MyRows)
    → c.fd ≡ some w
    → run_open w sql ≡ some (rows, none, after)
    → my_query (some c) sql ≡ some (some rows, some (record c { fd = some after }))
unfolding my_run
my_query-rows c w after sql rows h e = rw (h, e) refl

-- When the server answers a query with a result set, as in `run_open-reply`, a query on a handle of
-- MySQL through `vader_db_query` gives rows of which `vader_db_next` and `vader_db_col_text` give
-- each row in its order, with the text of each cell, and then the end.
pub db_query-reply :
    (tls : Tls) (garbage : Bytes) (dial : Bytes → ℤ → Option Wire)
    (pg_driver : Remote (State (my_library tls garbage dial)) Pointer Pointer)
    (lite : Sqlite (State (my_library tls garbage dial)) Pointer Pointer)
    (o : Objects MyConn MyRows) (i : ℕ) (c : MyConn) (w : Wire) (sql : Bytes) (defs : List Bytes)
    (mid : Bytes) (rows : List (List (Option Bytes))) (eof more : Bytes)
    → get_elem? o.conns i ≡ some c
    → c.fd ≡ some w
    → 1 ≤ length defs
    → length defs < 2 ^ 31
    → All Short defs
    → Short mid
    → All (Fitting (length defs)) rows
    → Eof eof
    → Flows w.incoming
    → flat w.incoming ≡ frames 1 (reply defs mid rows eof) ++ more
    → (r : Handle Pointer) × (v : State (my_library tls garbage dial)) × (db_query pg_driver
          (remote (my_library tls garbage dial))
          lite
          (some (record { kind = mysql; h = some i }))
          sql
          (some o)
        ≡ (some r, v))
      × Scans pg_driver (remote (my_library tls garbage dial)) lite r v (texts rows)
db_query-reply tls garbage dial pg_driver lite o i c w sql defs mid rows eof more hi hw hn hc hd hm
      hr he hf e =
    let lib = my_library tls garbage dial in
    let a = run_open-reply w sql defs mid rows eof more hn hc hd hm hr he hf e in
    let table : MyRows = record {
      ncols = length defs;
      cur = negsuc 0;
      cells = map (map value) rows;
    } in
    db_query-Scans lib pg_driver (remote lib) lite mysql (λ p sql w. refl) (λ p w. refl)
      (λ p col w. refl) (texts rows) o i c (record c { fd = some a.after }) table sql hi
      (my_query-rows c w a.after sql table hw a.got)
      (rows-Walks tls garbage dial (length defs) (map (map value) rows) [] (map (map value) rows)
        (negsuc 0) refl refl (Fitting-columns (length defs) rows hr))
