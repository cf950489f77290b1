-- ===== src/Db/Tests.antt =====
-- runtime/vader_db.c: a statement with two values.
use vader_langue.Prelude.{
  ℕ, ◌+◌, ◌≡◌, refl, [], ◌∷◌, ◌++◌, codes, Bytes, List, negsuc, some, none, true, false, inl,
}
use vader_langue.Libc.{is_prefix, print_int}
use vader_langue.Db.{
  kind_of, is_pg, is_mysql, mysql, sqlite, prepare, bind_str, bind_int, run, stmt_build, substitute,
  literal, quoted,
}
use vader_langue.Db.Literal.{read_quoted, read_quoted-literal}
use vader_langue.Db.Build.{substitute-marked, marked, given, values}
use vader_langue.Db.Driver.{Remote, Sqlite}

choose_mysql : kind_of (codes "mariadb://host/db") ≡ mysql
unfolding kind_of is_pg is_mysql is_prefix
choose_mysql = refl

choose_sqlite : kind_of (codes "postgres:/x") ≡ sqlite
unfolding kind_of is_pg is_mysql is_prefix
choose_sqlite = refl

run_two :
    run {H = ℕ}
      (λ h sql. sql)
      (bind_int
        (bind_str (prepare 7 (codes "select * from t where a = ? and b < ?")) (codes "O'x"))
        (negsuc 4))
    ≡ codes "select * from t where a = 'O''x' and b < -5"
unfolding stmt_build literal quoted print_int
run_two = refl

read_quoted-literal_example :
    (t : Bytes) × (literal (codes "it's") ++ codes " or" ≡ b'\'' ∷ t)
    × (read_quoted t ≡ some (codes "it's", codes " or"))
read_quoted-literal_example = read_quoted-literal (codes "it's") (codes " or") refl

abbrev two : List (Bytes × Bytes)
two = (codes "'?'", codes " and b=") ∷ (codes "2", []) ∷ []

substitute-marked_example :
    substitute (marked (codes "a=") two) (values two) ≡ given (codes "a=") two
substitute-marked_example =
    substitute-marked (codes "a=") two
      ((refl, (refl, _)), ((refl, (refl, (refl, (refl, (refl, (refl, (refl, _))))))), _))

-- Drivers over a counter of calls.
abbrev counting : Remote ℕ ℕ ℕ
counting = record {
  connect = λ dsn w. (w, w + 1);
  exec = λ c sql w. (none, w + 1);
  query = λ c sql w. (c, w + 1);
  next = λ r w. (false, w + 1);
  text = λ r col w. ([], w + 1);
  close = λ c w. w + 1;
}

abbrev one_table : Sqlite ℕ ℕ ℕ
one_table = record {
  open_db = λ dsn w. (inl w, w + 1);
  exec = λ c sql w. (true, none, w + 1);
  prepare = λ c sql w. (true, c, w + 1);
  step = λ r w. (false, w + 1);
  finalize = λ r w. w + 1;
  column_int64 = λ r col w. (col, w + 1);
  column_text = λ r col w. (none, w + 1);
  close = λ c w. w + 1;
}
