-- ===== src/Pg/Login.antt =====
-- runtime/vader_pg.c: `vader_pg_connect` behind the opening of the socket.
pub mod Steps
pub mod Negotiate
pub mod Loop
pub mod Password
use vader_langue.Pg.Login.Negotiate.{Tls, negotiate}
use vader_langue.Prelude.{
  ℕ, suc, zero, ◌+◌, Bool, true, false, not, Option, none, some, List, [], ◌∷◌, ◌++◌, Bytes, codes,
  ◌==◌, ltb, if◌then◌else◌, length, take, drop, ℤ,
}
use vader_langue.Libc.{digits}
use vader_langue.Net.{Wire}
use vader_langue.Net.Transfer.{flat}
use vader_langue.Net.Dsn.{Dsn, pg_dsn_parse}
use vader_langue.Pg.Md5.{md5_init, md5_update, md5_final, md5_hex}
use vader_langue.Pg.Message.{Message, io_write, put32, get32, pg_read_msg, pg_send}
use vader_langue.Pg.Scram.{ScramEnd, accepted, rejected, outside_scram, scram_auth}
use vader_langue.Pg.Rows.{PgConn}

-- `start`: the length, the version, and the parameters.
abbrev pub parameters : Dsn → Bytes
parameters d = codes "user" ++ 0 ∷ (d.user ++ 0 ∷ (codes "database" ++ 0 ∷ (d.db ++ 0 ∷ 0 ∷ [])))

unfoldable pub startup : Dsn → Bytes
startup d = put32 (8 + length (parameters d)) ++ (put32 196608 ++ parameters d)

-- `resp`. `garbage` is what the context's buffer holds at first, and `garbage1` what it holds behind the
-- first hash.
unfoldable pub md5_response : Bytes → Bytes → Bytes → Bytes → Bytes → Bytes
md5_response garbage garbage1 user pass salt =
    let a = md5_hex (md5_final (md5_update (md5_update (md5_init garbage) pass) user)) in
    let dg = md5_final (md5_update (md5_update (md5_init garbage1) a) salt) in
    codes "md5" ++ (md5_hex dg ++ 0 ∷ [])

-- What the hash buffers hold, and what `gen_nonce` reads.
pub record Chance : Type 0 where
  pub garbage : Bytes
  pub garbage1 : Bytes
  pub raw : Option Bytes

-- What the loop does with a message: it goes on, it is done, it gives up with the text in `c->err`, or it reads
-- outside the body.
pub data LoginStep : Type 0 where
  go_on : Wire → LoginStep
  authenticated : Wire → LoginStep
  refused : Bytes → LoginStep
  outside : LoginStep

abbrev pub after_scram : ScramEnd → LoginStep
after_scram (accepted w) = go_on w
after_scram (rejected err) = refused err
after_scram outside_scram = outside

-- The method of an Authentication message.
unfoldable pub method_step : Chance → Dsn → ℕ → Bytes → Wire → LoginStep
method_step x d code body w =
    let salt = take 4 (drop 4 body) in
    let answer = md5_response x.garbage x.garbage1 d.user d.pass salt in
    if code == 0
    then authenticated w
    else if code == 3
    then go_on (pg_send w b'p' (d.pass ++ 0 ∷ [])).1
    else if code == 5
    then (if ltb (length body) 8 then outside else go_on (pg_send w b'p' answer).1)
    else if code == 10
    then after_scram (scram_auth x.garbage x.raw d.pass w)
    else refused (
        codes "auth method "
        ++ (digits code ++ codes " not supported (use trust/password/md5/scram)"))

unfoldable pub login_step : Chance → Dsn → Option Message → Wire → LoginStep
login_step x d none w = refused (codes "connection dropped")
login_step x d (some (type, body)) w =
    if type == b'E'
    then refused (codes "server error at startup")
    else if not (type == b'R')
    then go_on w
    else if ltb (length body) 4
    then outside
    else method_step x d (get32 body) body w

-- How `vader_pg_connect` ended; `tired` where `fuel` messages were not enough.
pub data PgLogin : Type 0 where
  returned : PgConn → PgLogin
  outside_body : PgLogin
  tired : PgLogin

abbrev pub failed : Bytes → PgLogin
failed err = returned (record { fd = none; err = err })

-- `pg_consume_until_ready`, and what follows it.
abbrev pub consumed : PgLogin → Option Message → Wire → PgLogin
consumed rest none w = failed []
consumed rest (some (type, body)) w =
    if type == b'E'
    then failed (codes "server error after auth")
    else if type == b'Z'
    then returned (record { fd = some w; err = [] })
    else rest

unfoldable pub consume_until_ready : ℕ → Wire → PgLogin
consume_until_ready zero w = tired
consume_until_ready (suc fuel) w =
    consumed (consume_until_ready fuel (pg_read_msg w).1) (pg_read_msg w).0 (pg_read_msg w).1

-- The loop's next round, or what follows the loop.
abbrev pub after_step : (Wire → PgLogin) → (Wire → PgLogin) → LoginStep → PgLogin
after_step loop behind (go_on w) = loop w
after_step loop behind (authenticated w) = behind w
after_step loop behind (refused err) = failed err
after_step loop behind outside = outside_body

unfoldable pub login_loop : Chance → Dsn → ℕ → Wire → PgLogin
login_loop x d zero w = tired
login_loop x d (suc fuel) w =
    after_step (login_loop x d fuel) (consume_until_ready fuel)
      (login_step x d (pg_read_msg w).0 (pg_read_msg w).1)

-- On a connected socket. Each message takes five bytes at least.
unfoldable pub pg_login : Chance → Dsn → Wire → PgLogin
pg_login x d w =
    let (ok, w1) = io_write (startup d) w in
    let loop = login_loop x d (suc (suc (length (flat w1.incoming)))) w1 in
    if ok then loop else failed []

-- On a connected socket, with or without TLS.
abbrev pub secure_login : Chance → Dsn → Option Wire → PgLogin
secure_login x d none = failed (codes "TLS handshake failed")
secure_login x d (some w) = pg_login x d w

abbrev pub pg_dialled : Tls → Chance → Dsn → Option Wire → Option PgLogin
pg_dialled tls x d none = none
pg_dialled tls x d (some w) = some (secure_login x d (negotiate tls w))

-- `vader_pg_connect`. `dial host port` is the connected socket that `getaddrinfo`, `socket` and `connect` give,
-- `none` where one of them fails.
unfoldable pub pg_connect : Tls → Chance → (Bytes → ℤ → Option Wire) → Bytes → Option PgLogin
unfolding negotiate
pg_connect tls x dial dsn = let d = pg_dsn_parse dsn in pg_dialled tls x d (dial d.host d.port)
