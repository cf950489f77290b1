-- ===== src/Db.antt =====
-- runtime/vader_db.c: the choice of a driver by its address, and statements with `?` and bound values.
-- What runs a statement is an argument.
pub mod Objects
pub mod Literal
pub mod Build
pub mod Driver
pub mod Floats
mod Tests
use vader_langue.Prelude.{
  ℕ, suc, zero, ◌+◌, ◌*◌, ◌^◌, ◌≡◌, Option, none, some, ltb, Bool, true, false, ◌&&◌, ◌||◌, List,
  [], ◌∷◌, ◌++◌, Bytes, codes, ◌==◌, if◌then◌else◌, length, ℤ,
}
use vader_langue.Libc.{is_prefix, print_int}

pub data Kind : Type 0 where
  sqlite : Kind
  pg : Kind
  mysql : Kind

unfoldable pub is_pg : Bytes → Bool
is_pg dsn = is_prefix (codes "postgres://") dsn || is_prefix (codes "postgresql://") dsn

unfoldable pub is_mysql : Bytes → Bool
is_mysql dsn = is_prefix (codes "mysql://") dsn || is_prefix (codes "mariadb://") dsn

-- The driver that `vader_db_open` takes.
unfoldable pub kind_of : Bytes → Kind
unfolding is_pg is_mysql
kind_of dsn = if is_pg dsn then pg else if is_mysql dsn then mysql else sqlite

-- `VStmt`, its values as many as `nvals`. `H` is the type of connections.
pub record Stmt (H : Type 0) : Type 0 where
  pub db : H
  pub sql : Bytes
  pub vals : List Bytes

abbrev pub prepare : {H : Type 0} → H → Bytes → Stmt H
prepare db sql = record { db = db; sql = sql; vals = [] }

-- `stmt_push`
abbrev pub push : {H : Type 0} → Stmt H → Bytes → Stmt H
push st v = record st { vals = st.vals ++ v ∷ [] }

-- The loop of `vader_db_bind_str`.
unfoldable pub quoted : Bytes → Bytes
quoted [] = []
quoted (c ∷ s) = if c == b'\'' then b'\'' ∷ c ∷ quoted s else c ∷ quoted s

-- The literal of `vader_db_bind_str`, for which it allocates `len * 2 + 3` bytes.
unfoldable pub literal : Bytes → Bytes
unfolding quoted
literal s = b'\'' ∷ (quoted s ++ b'\'' ∷ [])

abbrev pub bind_str : {H : Type 0} → Stmt H → Bytes → Stmt H
bind_str st v = push st (literal v)

abbrev pub bind_int : {H : Type 0} → Stmt H → ℤ → Stmt H
bind_int st v = push st (print_int v)

-- The loop of `stmt_build`: a `?` with a value left is that value, any other byte is itself.
unfoldable pub substitute : Bytes → List Bytes → Bytes
substitute [] vals = []
substitute (c ∷ s) [] = c ∷ substitute s []
substitute (c ∷ s) (v ∷ vals) =
    let hit = v ++ substitute s vals in
    let miss = c ∷ substitute s (v ∷ vals) in if c == b'?' then hit else miss

-- The loop over the values' lengths.
unfoldable pub total_bytes : Bytes → List Bytes → ℕ
total_bytes sql [] = length sql + 1
total_bytes sql (v ∷ vals) = length v + total_bytes sql vals

-- `total`, for which `stmt_build` allocates one byte more. Only grown, it overflows an `int` just where
-- the sum does, which C leaves undefined.
unfoldable pub build_total : Bytes → List Bytes → Option ℕ
build_total sql vals =
    let total = total_bytes sql vals in if ltb total (2 ^ 31) then some total else none

unfoldable pub stmt_build : {H : Type 0} → Stmt H → Bytes
unfolding substitute
stmt_build st = substitute st.sql st.vals

-- `vader_db_run` and `vader_db_query_stmt`, where `exec` is vader_db_exec or vader_db_query.
abbrev pub run {ℓ} : {H : Type 0} {A : Type ℓ} → (H → Bytes → A) → Stmt H → A
run exec st = exec st.db (stmt_build st)
