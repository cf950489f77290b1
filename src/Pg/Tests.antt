-- ===== src/Pg/Tests.antt =====
-- runtime/vader_pg.c: a message, a result of two columns and two rows, a login.
use vader_langue.Prelude.{
  ◌≡◌, ◌≢◌, refl, arith, Option, some, none, List, [], ◌∷◌, ◌++◌, Bytes, codes, pos, replicate, map,
}
use vader_langue.Net.{Wire}
use vader_langue.Net.Transfer.{flat}
use vader_langue.Net.Dsn.{Dsn}
use vader_langue.Digest.Rfc1321.{md5_of, hex_text}
use vader_langue.Pg.Message.{put32, msg_header}
use vader_langue.Pg.Message.Frames.{message}
use vader_langue.Pg.Rows.{pg_run_open, tired, pg_error_text, error_fields}
use vader_langue.Libc.{strchr}
use vader_langue.Pg.Rows.Results.Cells.{put16, row_bytes, cell_bytes}
use vader_langue.Pg.Rows.Results.{Answers, messages, data_row, closing, pg_run_open-reply}
use vader_langue.Pg.Rows.Results.Ends.{pg_run_open-ends}
use vader_langue.Pg.Scram.{First}
use vader_langue.Pg.Login.{Chance, md5_response, pg_connect}
use vader_langue.Pg.Login
use vader_langue.Pg.Login.Password.{md5_response-standard}
use vader_langue.Pg.Login.Loop.{pg_connect-ends}
use vader_langue.Pg.Login.Negotiate.{secured}

abbrev quiet : Bytes → Wire
quiet s = record { incoming = s ∷ []; accepts = []; sent = [] }

abbrev writer : Wire
writer = record { incoming = []; accepts = 2 ∷ 9 ∷ 9 ∷ []; sent = [] }

abbrev rows : List (List (Option Bytes))
rows = (some (codes "1") ∷ some (codes "Ada") ∷ []) ∷ (some (codes "2") ∷ none ∷ []) ∷ []

abbrev answer : Wire
answer =
    quiet
      (messages ((b'T', put16 2 ++ []) ∷ map data_row rows ++ closing (codes "SELECT") (b'I' ∷ [])))

pg_run_open-reply_example : Answers (pg_run_open answer (codes "SELECT")) 2 rows []
unfolding flat messages message msg_header put32 row_bytes cell_bytes
pg_run_open-reply_example =
    pg_run_open-reply answer (codes "SELECT") 2 [] rows (codes "SELECT") (b'I' ∷ []) []
      (omega arith) (omega arith)
      (
        (omega arith, omega arith, (omega arith, (omega arith, tt))),
        ((omega arith, omega arith, (omega arith, (tt, tt))), tt),
      )
      (omega arith) (omega arith) (omega arith, tt) refl

pg_run_open-ends_example : pg_run_open answer (codes "SELECT") ≢ tired
pg_run_open-ends_example = pg_run_open-ends answer (codes "SELECT")

-- The text of an ErrorResponse is its field M.
error_text_of_m :
    pg_error_text (codes "SERROR" ++ 0 ∷ (codes "Mno" ++ 0 ∷ 0 ∷ [])) ≡ some (codes "no")
unfolding pg_error_text error_fields strchr
error_text_of_m = refl

abbrev chance : Chance
chance = record { garbage = replicate 64 7; garbage1 = replicate 64 9; raw = none }

abbrev nobody : Dsn
nobody = record { user = codes "u"; pass = []; host = []; port = pos 0; db = codes "u" }

-- A server that says `S`, and a handshake that leaves the rest of the connection.
pg_connect-ends_example :
    pg_connect (some secured) chance (λ host port. some answer) (codes "postgres://u:p@h/d")
    ≢ some Login.tired
pg_connect-ends_example =
    pg_connect-ends (some secured) chance (λ host port. some answer) (codes "postgres://u:p@h/d")

md5_response-standard_example :
    md5_response (replicate 64 7) (replicate 64 9) (codes "u") (codes "p") (1 ∷ 2 ∷ 3 ∷ 4 ∷ [])
    ≡ codes "md5"
      ++ (hex_text (md5_of (hex_text (md5_of (codes "p" ++ codes "u")) ++ 1 ∷ 2 ∷ 3 ∷ 4 ∷ []))
          ++ 0 ∷ [])
md5_response-standard_example =
    md5_response-standard (replicate 64 7) (replicate 64 9) (codes "u") (codes "p")
      (1 ∷ 2 ∷ 3 ∷ 4 ∷ []) refl refl

abbrev first : First
first = record { rnonce = codes "abc"; salt = 1 ∷ 2 ∷ []; iter = 1 }
