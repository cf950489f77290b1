-- ===== src/Mysql/Login.antt =====
-- runtime/vader_mysql.c: `vader_my_connect` behind the opening of the socket. `none` where the
-- code reads outside a packet or an array.
pub mod Scramble
pub mod Full
pub mod Loop
use vader_langue.Prelude.{
  ℕ, suc, zero, ◌+◌, ◌-◌, ◌*◌, ◌%◌, ◌^◌, Bool, true, false, ◌&&◌, Option, none, some, List, [], ◌∷◌,
  ◌++◌, Bytes, codes, bytes_eq, ◌==◌, ltb, leb, if◌then◌else◌, ◌>>=◌, length, get_or, get_elem?,
  take, drop, replicate, pos, ℤ,
}
use vader_langue.Libc.{print_int}
use vader_langue.Net.{Wire, to_nul, low_bytes}
use vader_langue.Net.Dsn.{Dsn, my_dsn_parse}
use vader_langue.Net.Transfer.{flat}
use vader_langue.Pg.Md5.{md5_hex}
use vader_langue.Mysql.Packet.{read_packet, write_packet}
use vader_langue.Mysql.Rows.{MyConn}
use vader_langue.Mysql.Login.Full.{AuthStep, stop, outside, again, failed, Tls, full_auth}
use vader_langue.Mysql.Login.Scramble.{native_scramble, caching_sha2_scramble}

-- `while (i < len && pkt[i]) i++`
unfoldable pub skip_text : Bytes → Bytes
skip_text [] = []
skip_text (c ∷ p) = let rest = skip_text p in if c == 0 then c ∷ p else rest

-- `n` bytes at the front, and those behind.
abbrev pub cut : ℕ → Bytes → Option (Bytes × Bytes)
cut n p = if ltb (length p) n then none else some (take n p, drop n p)

-- The plugin named "caching_sha2_password".
abbrev pub sha2_name : Bytes
sha2_name = codes "caching_sha2_password"

abbrev pub native_name : Bytes
native_name = codes "mysql_native_password"

-- The plugin's name: 63 bytes of the text at most, the native one where there is none.
abbrev pub plugin_of : Bytes → Bytes
plugin_of [] = native_name
plugin_of (c ∷ p) = if c == 0 then native_name else take 63 (to_nul (c ∷ p))

-- The server's first packet.
pub record Greeting : Type 0 where
  pub salt : Bytes
  pub plugin : Bytes

-- The second part of the salt, behind the first and the length of both.
abbrev pub second_salt : Bytes → ℕ → Bytes → Option Greeting
second_salt salt1 authlen p =
    let part2 = if ltb 8 authlen then (if ltb (authlen - 8) 13 then 13 else authlen - 8) else 13 in
    if ltb (length p) 12
    then none
    else some (record { salt = salt1 ++ take 12 p; plugin = plugin_of (drop part2 p) })

-- The packet from its second byte on: version, connection id, salt, flags, salt, plugin.
abbrev pub behind_flags : Bytes → Bytes → Option Greeting
behind_flags salt1 [] = none
behind_flags salt1 (authlen ∷ p) = second_salt salt1 authlen (drop 10 p)

unfoldable pub greeting : Bytes → Option Greeting
greeting pkt =
    let p = drop 4 (drop 1 (skip_text (drop 1 pkt))) in
    cut 8 p >>= (λ r. behind_flags r.0 (drop 8 r.1))

-- `strcmp(plugin, "caching_sha2_password") == 0`
abbrev pub use_sha2 : Bytes → Bool
use_sha2 plugin = bytes_eq plugin sha2_name

abbrev pub scramble : Bytes → Bool → Bytes → Bytes → Bytes
scramble garbage sha2 pass salt =
    if sha2 then caching_sha2_scramble garbage pass salt else native_scramble garbage pass salt

-- A text with its length before it, where there is a password.
abbrev pub proof : Bytes → Bool → Bytes → Bytes → Bytes
proof garbage sha2 [] salt = 0 ∷ []
proof garbage sha2 (c ∷ pass) salt =
    (if sha2 then 32 else 20) ∷ scramble garbage sha2 (c ∷ pass) salt

-- The database, where there is one.
abbrev pub named : Bytes → Bytes
named [] = []
named (c ∷ db) = (c ∷ db) ++ 0 ∷ []

abbrev pub capabilities : Bytes → ℕ
capabilities [] = 0x8a201
capabilities (c ∷ db) = 0x8a209

-- `resp`
unfoldable pub response : Bytes → Dsn → Greeting → Bytes
response garbage d g =
    let sha2 = use_sha2 g.plugin in
    low_bytes 4 (capabilities d.db)
    ++ 0
      ∷ 0
      ∷ 0
      ∷ 1
      ∷ 33
      ∷ (replicate 23 0
          ++ (d.user
              ++ 0
                ∷ (proof garbage sha2 d.pass g.salt
                    ++ (named d.db ++ ((if sha2 then sha2_name else native_name) ++ 0 ∷ [])))))

-- AuthSwitchRequest: the plugin's name, and a salt that fills up what was there.
unfoldable pub auth_switch : Bytes → Bytes → ℕ → Bytes → Wire → AuthStep
auth_switch garbage pass seq p w =
    let sw = take 63 (to_nul p) in
    let avail = take 20 (drop (suc (length sw)) p) in
    let salt = avail ++ drop (length avail) (take 20 garbage) in
    again salt (write_packet w (scramble garbage (use_sha2 sw) pass salt) (seq + 1)).1

-- The error number of an ERR packet.
abbrev pub auth_error : Bytes → AuthStep
auth_error (lo ∷ hi ∷ p) =
    failed (codes "auth failed (mysql error " ++ (print_int (pos (lo + hi * 2 ^ 8)) ++ b')' ∷ []))
auth_error p = outside

-- AuthMoreData.
abbrev pub auth_more : Tls → Bytes → ℕ → Bytes → Bytes → Wire → AuthStep
auth_more tls pass seq salt [] w = outside
auth_more tls pass seq salt (st ∷ p) w =
    if st == 0x03
    then again salt w
    else if st == 0x04
    then full_auth tls pass seq salt w
    else failed (codes "unexpected auth data 0x" ++ md5_hex (st ∷ []))

unfoldable pub auth_step : Tls → Bytes → Bytes → Bytes → Option (ℕ × Bytes) → Wire → AuthStep
auth_step tls garbage pass salt none w = failed (codes "no auth reply")
auth_step tls garbage pass salt (some (seq, [])) w = outside
auth_step tls garbage pass salt (some (seq, tag ∷ p)) w =
    if tag == 0x00
    then stop (record { fd = some w; err = [] })
    else if tag == 0xff
    then auth_error p
    else if tag == 0xfe
    then auth_switch garbage pass seq p w
    else if tag == 0x01
    then auth_more tls pass seq salt p w
    else failed (codes "unexpected auth packet 0x" ++ md5_hex (tag ∷ []))

-- How the loop ended; `tired` where `fuel` packets were not enough.
pub data Login : Type 0 where
  returned : MyConn → Login
  outside_packet : Login
  tired : Login

abbrev pub after_step : (Bytes → Wire → Login) → AuthStep → Login
after_step loop (stop c) = returned c
after_step loop outside = outside_packet
after_step loop (again salt w) = loop salt w

unfoldable pub auth_loop : Tls → Bytes → Bytes → ℕ → Bytes → Wire → Login
auth_loop tls garbage pass zero salt w = tired
auth_loop tls garbage pass (suc fuel) salt w =
    after_step (auth_loop tls garbage pass fuel)
      (auth_step tls garbage pass salt (read_packet w).0 (read_packet w).1)

-- From the greeting on.
abbrev pub greeted : Tls → Bytes → Dsn → Wire → Option Greeting → Login
greeted tls garbage d w none = outside_packet
greeted tls garbage d w (some g) =
    let w1 = (write_packet w (response garbage d g) 1).1 in
    auth_loop tls garbage d.pass (suc (length (flat w1.incoming))) g.salt w1

abbrev pub greeting_read : Tls → Bytes → Dsn → Wire → Option (ℕ × Bytes) → Login
greeting_read tls garbage d w none = returned (record { fd = none; err = [] })
greeting_read tls garbage d w (some (seq, pkt)) = greeted tls garbage d w (greeting pkt)

-- On a connected socket.
unfoldable pub my_login : Tls → Bytes → Dsn → Wire → Login
my_login tls garbage d w = greeting_read tls garbage d (read_packet w).1 (read_packet w).0

abbrev pub my_dialled : Tls → Bytes → Dsn → Option Wire → Option Login
my_dialled tls garbage d none = none
my_dialled tls garbage d (some w) = some (my_login tls garbage d w)

-- `vader_my_connect`. `dial host port` is the connected socket that `getaddrinfo`, `socket` and `connect`
-- give, `none` where one of them fails.
unfoldable pub my_connect : Tls → Bytes → (Bytes → ℤ → Option Wire) → Bytes → Option Login
my_connect tls garbage dial dsn =
    let d = my_dsn_parse dsn in my_dialled tls garbage d (dial d.host d.port)

-- `vader_my_error`, `none` for NULL.
abbrev pub error_of : Bytes → Option Bytes
error_of [] = none
error_of (c ∷ err) = some (c ∷ err)

abbrev pub my_error : Option MyConn → Option Bytes
my_error none = none
my_error (some c) = elim c.fd [ none ↦ error_of c.err | some w ↦ none ]
