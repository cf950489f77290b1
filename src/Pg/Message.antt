-- ===== src/Pg/Message.antt =====
-- runtime/vader_pg.c: messages, without TLS.
pub mod Frames
pub mod Progress
use vader_langue.Prelude.{
  ℕ, suc, zero, ◌+◌, ◌-◌, ◌*◌, ◌/◌, ◌%◌, ◌^◌, Bool, true, false, ◌&&◌, Option, none, some, List, [],
  ◌∷◌, ◌++◌, Bytes, ltb, leb, if◌then◌else◌, length, drop, get_or,
}
use vader_langue.Net.{Wire, recv, send, ended}

-- `io_read` and `read_n`, `io_write` and `write_all`: the loops are those of vader_mysql.c.
abbrev pub io_read : ℕ → Wire → Option (Bytes × Wire)
io_read = recv

abbrev pub io_write : Bytes → Wire → Bool × Wire
io_write = send

-- `put32`
unfoldable pub put32 : ℕ → Bytes
put32 v = v / 2 ^ 24 % 2 ^ 8 ∷ v / 2 ^ 16 % 2 ^ 8 ∷ v / 2 ^ 8 % 2 ^ 8 ∷ v % 2 ^ 8 ∷ []

-- `get32` of at least four bytes. The bytes have no common bits, so `|` is a sum.
unfoldable pub get32 : Bytes → ℕ
get32 p = get_or p 0 0 * 2 ^ 24 + get_or p 1 0 * 2 ^ 16 + get_or p 2 0 * 2 ^ 8 + get_or p 3 0

-- A message: its type and its body.
abbrev pub Message : Type 0
Message = ℕ × Bytes

-- What follows the reads of the body and of the header.
abbrev pub body_read : Bytes → Wire → Option (Bytes × Wire) → Option Message × Wire
body_read hdr w none = (none, ended w)
body_read hdr w (some (body, w1)) = (some (get_or hdr 0 0, body), w1)

-- A length below 4, or from 2^31 on, which is negative as an `int`, is refused.
abbrev pub header_read : Wire → Option (Bytes × Wire) → Option Message × Wire
header_read w none = (none, ended w)
header_read w (some (hdr, w1)) =
    let len = get32 (drop 1 hdr) in
    let body = io_read (len - 4) w1 in
    if leb 4 len && ltb len (2 ^ 31) then body_read hdr w1 body else (none, w1)

-- `pg_read_msg`
unfoldable pub pg_read_msg : Wire → Option Message × Wire
pg_read_msg w = header_read w (io_read 5 w)

unfoldable pub msg_header : ℕ → Bytes → Bytes
msg_header type body = type ∷ put32 (length body + 4)

-- `pg_send`: whether it succeeded. To write 0 bytes writes nothing.
unfoldable pub pg_send : Wire → ℕ → Bytes → Bool × Wire
pg_send w type body =
    let (ok, w1) = io_write (msg_header type body) w in if ok then io_write body w1 else (false, w1)
