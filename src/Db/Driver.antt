-- ===== src/Db/Driver.antt =====
-- runtime/vader_db.c: the calls on a connection and on rows, passed on to the driver of their kind. The
-- drivers and SQLite are arguments; `W` is the state of the world that they change.
pub mod Kinds
use vader_langue.Prelude.{
  ℕ, Bool, true, false, Option, none, some, List, [], ◌∷◌, Bytes, codes, ℤ, pos, ◌⊎◌, inl, inr,
}
use vader_langue.Libc.{atoll}
use vader_langue.Db.{Kind, pg, mysql, sqlite, kind_of}

-- vader_pg.c or vader_mysql.c, with its connections `C` and rows `R`. A call of `exec` answers with a
-- message, or with nothing if it succeeded.
pub record Remote (W C R : Type 0) : Type 0 where
  pub connect : Bytes → W → C × W
  pub exec : C → Bytes → W → Option Bytes × W
  pub query : C → Bytes → W → R × W
  pub next : R → W → Bool × W
  pub text : R → ℤ → W → Bytes × W
  pub close : C → W → W

-- The functions of SQLite that are called; a Boolean is whether the call gave SQLITE_OK, or SQLITE_ROW
-- for `step`. `open_db` gives a handle, or what a failure left, which is to be closed.
pub record Sqlite (W C R : Type 0) : Type 0 where
  pub open_db : Bytes → W → (C ⊎ Option C) × W
  pub exec : C → Bytes → W → Bool × Option Bytes × W
  pub prepare : C → Bytes → W → Bool × R × W
  pub step : R → W → Bool × W
  pub finalize : R → W → W
  pub column_int64 : R → ℤ → W → ℤ × W
  pub column_text : R → ℤ → W → Option Bytes × W
  pub close : C → W → W

-- `VDB` and `VRows`
pub record Handle (H : Type 0) : Type 0 where
  pub kind : Kind
  pub h : H

-- How vader_db_must ends.
pub data Ended : Type 0 where
  returned : Ended
  exited : Bytes → Ended

module _ {W C R : Type 0} (pg_driver my_driver : Remote W C R) (lite : Sqlite W C R) where
  abbrev pub close_left : Option C → W → W
  close_left none w = w
  close_left (some c) w = lite.close c w

  abbrev pub opened : (C ⊎ Option C) × W → Option (Handle C) × W
  opened (inl c, w) = (some (record { kind = sqlite; h = c }), w)
  opened (inr left, w) = (none, close_left left w)

  abbrev pub connected : Kind → C × W → Option (Handle C) × W
  connected k (c, w) = (some (record { kind = k; h = c }), w)

  abbrev pub open_as : Kind → Bytes → W → Option (Handle C) × W
  open_as pg dsn w = connected pg (pg_driver.connect dsn w)
  open_as mysql dsn w = connected mysql (my_driver.connect dsn w)
  open_as sqlite dsn w = opened (lite.open_db dsn w)

  -- `vader_db_open`
  unfoldable pub db_open : Bytes → W → Option (Handle C) × W
  db_open dsn w = open_as (kind_of dsn) dsn w

  abbrev pub message : Bool × Option Bytes × W → Option Bytes × W
  message (true, e, w) = (none, w)
  message (false, some e, w) = (some e, w)
  message (false, none, w) = (some (codes "unknown SQL error"), w)

  abbrev pub exec_as : Kind → C → Bytes → W → Option Bytes × W
  exec_as pg c sql w = pg_driver.exec c sql w
  exec_as mysql c sql w = my_driver.exec c sql w
  exec_as sqlite c sql w = message (lite.exec c sql w)

  -- `vader_db_exec`
  unfoldable pub db_exec : Option (Handle C) → Bytes → W → Option Bytes × W
  db_exec none sql w = (some (codes "null connection"), w)
  db_exec (some d) sql w = exec_as d.kind d.h sql w

  abbrev pub rows_of : Kind → R × W → Option (Handle R) × W
  rows_of k (r, w) = (some (record { kind = k; h = r }), w)

  abbrev pub prepared : Bool × R × W → Option (Handle R) × W
  prepared (true, r, w) = (some (record { kind = sqlite; h = r }), w)
  prepared (false, r, w) = (none, w)

  abbrev pub query_as : Kind → C → Bytes → W → Option (Handle R) × W
  query_as pg c sql w = rows_of pg (pg_driver.query c sql w)
  query_as mysql c sql w = rows_of mysql (my_driver.query c sql w)
  query_as sqlite c sql w = prepared (lite.prepare c sql w)

  -- `vader_db_query`
  unfoldable pub db_query : Option (Handle C) → Bytes → W → Option (Handle R) × W
  db_query none sql w = (none, w)
  db_query (some d) sql w = query_as d.kind d.h sql w

  abbrev pub stepped : R → Bool × W → Bool × W
  stepped r (true, w) = (true, w)
  stepped r (false, w) = (false, lite.finalize r w)

  abbrev pub next_as : Kind → R → W → Bool × W
  next_as pg r w = pg_driver.next r w
  next_as mysql r w = my_driver.next r w
  next_as sqlite r w = stepped r (lite.step r w)

  -- `vader_db_next`
  unfoldable pub db_next : Option (Handle R) → W → Bool × W
  db_next none w = (false, w)
  db_next (some r) w = next_as r.kind r.h w

  abbrev pub number_in : Bytes × W → ℤ × W
  number_in (s, w) = (atoll s, w)

  abbrev pub int_as : Kind → R → ℤ → W → ℤ × W
  int_as pg r col w = number_in (pg_driver.text r col w)
  int_as mysql r col w = number_in (my_driver.text r col w)
  int_as sqlite r col w = lite.column_int64 r col w

  -- `vader_db_col_int`
  unfoldable pub col_int : Option (Handle R) → ℤ → W → ℤ × W
  col_int none col w = (pos 0, w)
  col_int (some r) col w = int_as r.kind r.h col w

  abbrev pub text_or_empty : Option Bytes × W → Bytes × W
  text_or_empty (none, w) = ([], w)
  text_or_empty (some s, w) = (s, w)

  abbrev pub text_as : Kind → R → ℤ → W → Bytes × W
  text_as pg r col w = pg_driver.text r col w
  text_as mysql r col w = my_driver.text r col w
  text_as sqlite r col w = text_or_empty (lite.column_text r col w)

  -- `vader_db_col_text`
  unfoldable pub col_text : Option (Handle R) → ℤ → W → Bytes × W
  col_text none col w = ([], w)
  col_text (some r) col w = text_as r.kind r.h col w

  abbrev pub must_end : Option Bytes × W → Ended × W
  must_end (none, w) = (returned, w)
  must_end (some e, w) = (exited e, w)

  -- `vader_db_must`
  unfoldable pub db_must : Option (Handle C) → Bytes → W → Ended × W
  unfolding db_exec
  db_must d sql w = must_end (db_exec d sql w)

  abbrev pub close_as : Kind → C → W → W
  close_as pg c w = pg_driver.close c w
  close_as mysql c w = my_driver.close c w
  close_as sqlite c w = lite.close c w

  -- `vader_db_close`
  unfoldable pub db_close : Option (Handle C) → W → W
  db_close none w = w
  db_close (some d) w = close_as d.kind d.h w
