-- ===== src/Db/Objects/Tests.antt =====
-- Queries through runtime/vader_db.c on connections of MySQL and of PostgreSQL.
use vader_langue.Prelude.{
  ◌≡◌, refl, arith, false, Option, none, some, List, [], ◌∷◌, ◌++◌, Bytes, codes, map, pos, inr,
}
use vader_langue.Net.{Wire}
use vader_langue.Net.Transfer.{flat}
use vader_langue.Mysql.Packet.{packet_header}
use vader_langue.Mysql.Packet.Frames.{frame}
use vader_langue.Mysql.Packet.Lengths.{lenenc}
use vader_langue.Mysql.Rows.{MyConn, MyRows}
use vader_langue.Mysql.Rows.Sequence.{frames}
use vader_langue.Mysql.Rows.Results.{reply}
use vader_langue.Mysql.Rows.Results.Cells as Mysql_cells
use vader_langue.Pg.Message.{put32, msg_header}
use vader_langue.Pg.Message.Frames.{message}
use vader_langue.Pg.Rows.{PgConn, PgRows}
use vader_langue.Pg.Rows.Results.Cells as Pg_cells
use vader_langue.Pg.Rows.Results.Cells.{put16}
use vader_langue.Pg.Rows.Results.{messages, data_row, closing}
use vader_langue.Pg.Login.{Chance}
use vader_langue.Db.{mysql, pg}
use vader_langue.Db.Driver.{Sqlite, Handle, db_query}
use vader_langue.Db.Objects.{Library, Objects, Pointer, remote, State}
use vader_langue.Db.Objects.Scan.{Scans}
use vader_langue.Db.Objects.Mysql.{my_library, texts, db_query-reply}
use vader_langue.Db.Objects.Pg.{pg_library, pg_texts, db_query-pg_reply}

-- SQLite as a library that opens nothing.
abbrev no_lite : {W : Type 0} → Sqlite W Pointer Pointer
no_lite = record {
  open_db = λ dsn w. (inr none, w);
  exec = λ c sql w. (false, none, w);
  prepare = λ c sql w. (false, none, w);
  step = λ r w. (false, w);
  finalize = λ r w. w;
  column_int64 = λ r col w. (pos 0, w);
  column_text = λ r col w. (none, w);
  close = λ c w. w;
}

abbrev rows : List (List (Option Bytes))
rows = (some (codes "1") ∷ some (codes "Ada") ∷ []) ∷ (some (codes "2") ∷ none ∷ []) ∷ []

abbrev defs : List Bytes
defs = codes "id" ∷ codes "name" ∷ []

abbrev eof : Bytes
eof = 0xfe ∷ 0 ∷ 0 ∷ 2 ∷ 0 ∷ []

abbrev my_wire : Wire
my_wire = record { incoming = frames 1 (reply defs eof rows eof) ∷ []; accepts = []; sent = [] }

abbrev my_conn : MyConn
my_conn = record { fd = some my_wire; err = [] }

abbrev my_lib : Library MyConn MyRows
my_lib = my_library none [] (λ host port. none)

abbrev my_objects : Objects MyConn MyRows
my_objects = record { conns = my_conn ∷ []; tables = [] }

db_query-reply_example :
    (r : Handle Pointer) × (v : State my_lib) × (db_query
        (remote my_lib)
        (remote my_lib)
        no_lite
        (some (record { kind = mysql; h = some 0 }))
        (codes "SELECT")
        (some my_objects)
      ≡ (some r, v))
    × Scans (remote my_lib) (remote my_lib) no_lite r v (texts rows)
unfolding flat frames frame packet_header Mysql_cells.row_bytes Mysql_cells.cell_bytes lenenc
db_query-reply_example =
    db_query-reply none [] (λ host port. none) (remote my_lib) no_lite my_objects 0 my_conn my_wire
      (codes "SELECT") defs eof rows eof [] refl refl (omega arith) (omega arith)
      (omega arith, (omega arith, tt)) (omega arith)
      ((refl, omega arith), ((refl, omega arith), tt))
      ((0xfe, 0 ∷ 0 ∷ 2 ∷ 0 ∷ [], refl, refl), omega arith) (omega arith, tt) refl

abbrev pg_wire : Wire
pg_wire = record {
  incoming =
      messages ((b'T', put16 2 ++ []) ∷ map data_row rows ++ closing (codes "SELECT") (b'I' ∷ []))
      ∷ [];
  accepts = [];
  sent = [];
}

abbrev pg_conn : PgConn
pg_conn = record { fd = some pg_wire; err = [] }

abbrev no_chance : Chance
no_chance = record { garbage = []; garbage1 = []; raw = none }

abbrev pg_lib : Library PgConn PgRows
pg_lib = pg_library none no_chance (λ host port. none)

abbrev pg_objects : Objects PgConn PgRows
pg_objects = record { conns = pg_conn ∷ []; tables = [] }

db_query-pg_reply_example :
    (r : Handle Pointer) × (v : State pg_lib) × (db_query
        (remote pg_lib)
        (remote pg_lib)
        no_lite
        (some (record { kind = pg; h = some 0 }))
        (codes "SELECT")
        (some pg_objects)
      ≡ (some r, v))
    × Scans (remote pg_lib) (remote pg_lib) no_lite r v (pg_texts rows)
unfolding flat messages message msg_header put32 Pg_cells.row_bytes Pg_cells.cell_bytes
db_query-pg_reply_example =
    db_query-pg_reply none no_chance (λ host port. none) (remote pg_lib) no_lite pg_objects 0
      pg_conn pg_wire (codes "SELECT") 2 [] rows (codes "SELECT") (b'I' ∷ []) [] refl refl
      (omega arith) (omega arith)
      (
        (omega arith, omega arith, (omega arith, (omega arith, tt))),
        ((omega arith, omega arith, (omega arith, (tt, tt))), tt),
      )
      (refl, (refl, tt)) (omega arith) (omega arith) (omega arith, tt) refl
