-- ===== src/Mysql/Packet.antt =====
-- runtime/vader_mysql.c: packets and length-encoded integers.
pub mod Frames
pub mod Lengths
use vader_langue.Prelude.{
  ℕ, suc, zero, ◌+◌, ◌*◌, Bool, true, false, Option, none, some, List, [], ◌∷◌, ◌++◌, Bytes, ◌==◌,
  ltb, if◌then◌else◌, length, get_or, take, drop,
}
use vader_langue.Net.{Wire, recv, send, ended, low_bytes, little}

-- What follows the reads of the payload and of the header.
abbrev pub payload_read : Bytes → Wire → Option (Bytes × Wire) → Option (ℕ × Bytes) × Wire
payload_read hdr w none = (none, ended w)
payload_read hdr w (some (p, w1)) = (some (get_or hdr 3 0, p), w1)

abbrev pub header_read : Wire → Option (Bytes × Wire) → Option (ℕ × Bytes) × Wire
header_read w none = (none, ended w)
header_read w (some (hdr, w1)) = payload_read hdr w1 (recv (little (take 3 hdr)) w1)

-- `my_read_packet`: the payload and its sequence number. To read 0 bytes reads nothing.
unfoldable pub read_packet : Wire → Option (ℕ × Bytes) × Wire
read_packet w = header_read w (recv 4 w)

unfoldable pub packet_header : Bytes → ℕ → Bytes
packet_header payload seq = low_bytes 3 (length payload) ++ low_bytes 1 seq

-- `my_write_packet`: whether it succeeded.
unfoldable pub write_packet : Wire → Bytes → ℕ → Bool × Wire
write_packet w payload seq =
    let (ok, w1) = send (packet_header payload seq) w in if ok then send payload w1 else (false, w1)

-- A number of `k` bytes; `none` where the packet ends before.
unfoldable pub fixed : ℕ → Bytes → Option (ℕ × Bytes)
fixed k p = if ltb (length p) k then none else some (little (take k p), drop k p)

-- `lenenc_int`, with the bytes behind the number.
unfoldable pub lenenc_int : Bytes → Option (ℕ × Bytes)
lenenc_int [] = none
lenenc_int (b ∷ p) =
    if ltb b 0xfb
    then some (b, p)
    else if b == 0xfc
    then fixed 2 p
    else if b == 0xfd
    then fixed 3 p
    else fixed 8 p
