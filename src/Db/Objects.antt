-- ===== src/Db/Objects.antt =====
-- runtime/vader_mysql.c and vader_pg.c behind the calls that runtime/vader_db.c makes of them: the
-- connections and rows that pointers lead to.
pub mod Scan
pub mod Mysql
pub mod Pg
mod Tests
use vader_langue.Prelude.{
  ℕ, suc, Bool, true, false, Option, none, some, List, [], ◌∷◌, ◌++◌, Bytes, ℤ, pos, negsuc, length,
  get_elem?, set,
}
use vader_langue.Db.Driver.{Remote}

-- A driver's functions on what the pointers lead to, `none` for NULL. A result of `none` is a crash.
pub record Library (A B : Type 0) : Type 0 where
  pub connect : Bytes → Option (Option A)
  pub exec : Option A → Bytes → Option (Option Bytes × Option A)
  pub query : Option A → Bytes → Option (Option B × Option A)
  pub next : Option B → Bool × Option B
  pub text : Option B → ℕ → Bytes
  pub close : Option A → Option A

-- What `calloc` has given so far, as connections and as rows. A pointer is a place, or NULL.
pub record Objects (A B : Type 0) : Type 0 where
  pub conns : List A
  pub tables : List B

abbrev pub Pointer : Type 0
Pointer = Option ℕ

module _ {X : Type 0} where
  abbrev pub deref : List X → Pointer → Option X
  deref xs none = none
  deref xs (some i) = get_elem? xs i

  abbrev pub write_back : List X → Pointer → Option X → List X
  write_back xs none x = xs
  write_back xs (some i) none = xs
  write_back xs (some i) (some x) = set xs i x

  abbrev pub allocated : List X → Option X → Pointer × List X
  allocated xs none = (none, xs)
  allocated xs (some x) = (some (length xs), xs ++ x ∷ [])

module _ {A B : Type 0} (lib : Library A B) where
  -- The state, `none` behind a crash.
  abbrev pub State : Type 0
  State = Option (Objects A B)

  abbrev pub new_conn : Objects A B → Pointer × List A → Pointer × State
  new_conn o (p, conns) = (p, some (record o { conns = conns }))

  abbrev pub conn_made : Objects A B → Option (Option A) → Pointer × State
  conn_made o none = (none, none)
  conn_made o (some c) = new_conn o (allocated o.conns c)

  abbrev pub connect_at : Bytes → State → Pointer × State
  connect_at dsn none = (none, none)
  connect_at dsn (some o) = conn_made o (lib.connect dsn)

  abbrev pub exec_done :
      Objects A B → Pointer → Option (Option Bytes × Option A) → Option Bytes × State
  exec_done o p none = (none, none)
  exec_done o p (some (err, c)) = (err, some (record o { conns = write_back o.conns p c }))

  abbrev pub exec_at : Pointer → Bytes → State → Option Bytes × State
  exec_at p sql none = (none, none)
  exec_at p sql (some o) = exec_done o p (lib.exec (deref o.conns p) sql)

  abbrev pub new_table : Objects A B → Pointer × List B → Pointer × State
  new_table o (p, tables) = (p, some (record o { tables = tables }))

  abbrev pub query_done : Objects A B → Pointer → Option (Option B × Option A) → Pointer × State
  query_done o p none = (none, none)
  query_done o p (some (r, c)) =
      new_table (record o { conns = write_back o.conns p c }) (allocated o.tables r)

  abbrev pub query_at : Pointer → Bytes → State → Pointer × State
  query_at p sql none = (none, none)
  query_at p sql (some o) = query_done o p (lib.query (deref o.conns p) sql)

  abbrev pub next_done : Objects A B → Pointer → Bool × Option B → Bool × State
  next_done o p (more, r) = (more, some (record o { tables = write_back o.tables p r }))

  abbrev pub next_at : Pointer → State → Bool × State
  next_at p none = (false, none)
  next_at p (some o) = next_done o p (lib.next (deref o.tables p))

  -- A negative column of rows is taken for a read outside a row.
  abbrev pub text_at : Pointer → ℤ → State → Bytes × State
  text_at p col none = ([], none)
  text_at none (negsuc k) (some o) = ([], some o)
  text_at (some i) (negsuc k) (some o) = ([], none)
  text_at p (pos k) (some o) = (lib.text (deref o.tables p) k, some o)

  abbrev pub close_at : Pointer → State → State
  close_at p none = none
  close_at p (some o) =
      some (record o { conns = write_back o.conns p (lib.close (deref o.conns p)) })

  -- The driver as `vader_db.c` knows it.
  abbrev pub remote : Remote State Pointer Pointer
  remote = record {
    connect = connect_at;
    exec = exec_at;
    query = query_at;
    next = next_at;
    text = text_at;
    close = close_at;
  }
