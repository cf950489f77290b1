-- ===== src/Mysql/Tests.antt =====
-- runtime/vader_mysql.c: a result set of two columns and two rows, a name, a login.
use vader_langue.Prelude.{
  ◌≡◌, ◌≢◌, refl, arith, Option, some, none, List, [], ◌∷◌, ◌++◌, Bytes, codes, pos, negsuc,
  replicate,
}
use vader_langue.Net.{Wire, write_all, send}
use vader_langue.Net.Transfer.{flat}
use vader_langue.Net.Dsn.{dsn_parts}
use vader_langue.Net.Dsn.Parts.{name, dsn_parts_lem}
use vader_langue.Mysql.Sha1.{sha1}
use vader_langue.Mysql.Packet.{write_packet, packet_header}
use vader_langue.Mysql.Packet.Frames.{frame, Reads, read_packet-write_packet}
use vader_langue.Mysql.Packet.Lengths.{lenenc}
use vader_langue.Mysql.Rows.{run_open, my_next, my_text, text_at}
use vader_langue.Mysql.Rows.Sequence.{frames}
use vader_langue.Mysql.Rows.Results.{Answers, reply, run_open-reply}
use vader_langue.Mysql.Rows.Results.Cells.{row_bytes, cell_bytes}
use vader_langue.Mysql.Login.{my_connect, tired}
use vader_langue.Mysql.Login.Full.{xored, sealed, xored-decrypt}
use vader_langue.Mysql.Login.Loop.{my_connect-ends}
use vader_langue.Mysql.Login.Scramble.{native_scramble}
use vader_langue.Mysql.Login.Scramble.Server.{NativeAccepts, native_scramble-NativeAccepts}

abbrev quiet : Bytes → Wire
quiet s = record { incoming = s ∷ []; accepts = []; sent = [] }

abbrev writer : Wire
writer = record { incoming = []; accepts = 2 ∷ 2 ∷ 9 ∷ []; sent = [] }

-- A payload that is written in three parts, and arrives with two bytes behind it.
read_packet-write_packet_example :
    Reads (quiet (3 ∷ 0 ∷ 0 ∷ 7 ∷ 65 ∷ 66 ∷ 67 ∷ 1 ∷ 2 ∷ [])) (codes "ABC") 7 (1 ∷ 2 ∷ [])
unfolding write_packet packet_header send write_all flat
read_packet-write_packet_example =
    read_packet-write_packet writer (quiet (3 ∷ 0 ∷ 0 ∷ 7 ∷ 65 ∷ 66 ∷ 67 ∷ 1 ∷ 2 ∷ []))
      (codes "ABC") 7 (1 ∷ 2 ∷ []) (omega arith) (omega arith) refl refl (omega arith, tt) refl

abbrev defs : List Bytes
defs = codes "id" ∷ codes "name" ∷ []

abbrev eof : Bytes
eof = 0xfe ∷ 0 ∷ 0 ∷ 2 ∷ 0 ∷ []

abbrev rows : List (List (Option Bytes))
rows = (some (codes "1") ∷ some (codes "Ada") ∷ []) ∷ (some (codes "2") ∷ none ∷ []) ∷ []

abbrev answer : Wire
answer = quiet (frames 1 (reply defs eof rows eof))

run_open-reply_example : Answers (run_open answer (codes "SELECT")) 2 rows []
unfolding flat frames frame packet_header row_bytes cell_bytes lenenc
run_open-reply_example =
    run_open-reply answer (codes "SELECT") defs eof rows eof [] (omega arith) (omega arith)
      (omega arith, (omega arith, tt)) (omega arith)
      ((refl, omega arith), ((refl, omega arith), tt))
      ((0xfe, 0 ∷ 0 ∷ 2 ∷ 0 ∷ [], refl, refl), omega arith) (omega arith, tt) refl

-- `next` goes to the first row, and `text` gives its second column.
text_of_second :
    my_text
      (my_next (
        some (record { ncols = 2; cur = negsuc 0; cells = (codes "1" ∷ codes "Ada" ∷ []) ∷ [] }))).1
      1
    ≡ codes "Ada"
unfolding text_at
text_of_second = refl

my_connect-ends_example :
    my_connect
      (some (λ pem text. some text))
      []
      (λ host port. some answer)
      (codes "mysql://u:p@h/d")
    ≢ some tired
my_connect-ends_example =
    my_connect-ends (some (λ pem text. some text)) [] (λ host port. some answer)
      (codes "mysql://u:p@h/d")

-- The server has the key's text, asks for the full authentication, and is sent the password.
full_sent :
    xored 0 (codes "01234567890123456789") (sealed (codes "pw") (codes "01234567890123456789"))
    ≡ codes "pw" ++ 0 ∷ []
full_sent =
    xored-decrypt (λ pem text. some text) (λ code. code) [] (codes "pw")
      (codes "01234567890123456789") (sealed (codes "pw") (codes "01234567890123456789"))
      (λ text code e. cc e) refl

native_scramble-NativeAccepts_example :
    NativeAccepts
      (replicate 64 0)
      (replicate 20 7)
      (sha1 (replicate 64 0) (sha1 (replicate 64 0) (codes "pw")))
      (native_scramble (replicate 64 0) (codes "pw") (replicate 20 7))
native_scramble-NativeAccepts_example =
    native_scramble-NativeAccepts (replicate 64 0) (codes "pw") (replicate 20 7) refl

dsn_parts_lem_example :
    dsn_parts (pos 3306) (
      name
        (codes "mysql")
        (codes "me")
        (codes "p:@/")
        (codes "db.example")
        3307
        (codes "shop")
        (codes "x=1"))
    ≡ record {
      user = codes "me";
      pass = codes "p:@/";
      host = codes "db.example";
      port = pos 3307;
      db = codes "shop";
    }
dsn_parts_lem_example =
    dsn_parts_lem (pos 3306) (codes "mysql") (codes "me") (codes "p:@/") (codes "db.example") 3307
      (codes "shop") (codes "x=1")
      (record {
        scheme_colon = ground arith;
        user_colon = ground arith;
        host_colon = ground arith;
        host_slash = ground arith;
        host_at = ground arith;
        host_some = λ e. cc e;
        db_mark = ground arith;
        db_at = ground arith;
        query_at = ground arith;
      })
