-- ===== src/Db/Floats.antt =====
-- runtime/vader_db.c: the calls on doubles. Doubles, `strtod`, `%.17g` and the column of SQLite are arguments.
use vader_langue.Prelude.{Option, none, some, Bytes, ℕ, ℤ, take}
use vader_langue.Str.{to_float}
use vader_langue.Db.{Kind, pg, mysql, sqlite, Stmt, push}
use vader_langue.Db.Driver.{Remote, Handle}

module _ {D : Type 0} (zero_double : D) (strtod : Bytes → D × ℕ) where
  abbrev pub float_in : {W : Type 0} → Bytes × W → D × W
  float_in (s, w) = (to_float strtod s, w)

  module _ {W C R : Type 0} (pg_driver my_driver : Remote W C R)
      (column_double : R → ℤ → W → D × W) where
    abbrev pub float_as : Kind → R → ℤ → W → D × W
    float_as pg r col w = float_in (pg_driver.text r col w)
    float_as mysql r col w = float_in (my_driver.text r col w)
    float_as sqlite r col w = column_double r col w

    -- `vader_db_col_float`
    unfoldable pub col_float : Option (Handle R) → ℤ → W → D × W
    col_float none col w = (zero_double, w)
    col_float (some r) col w = float_as r.kind r.h col w

-- `vader_db_bind_float`; `print_17g` is what `%.17g` prints, and the array has 32 bytes.
abbrev pub bind_float : {D H : Type 0} → (D → Bytes) → Stmt H → D → Stmt H
bind_float print_17g st v = push st (take 31 (print_17g v))
