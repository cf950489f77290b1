-- ===== src/Pg/Message/Progress.antt =====
-- Every message that is read leaves less to arrive.
use vader_langue.Prelude.{
  ℕ, ◌-◌, ◌<◌, ◌^◌, ◌&&◌, arith, Option, none, some, List, Bytes, Bool, true, false, drop,
  if◌then◌else◌, ltb, leb,
}
use vader_langue.Net.{Wire, read_n, recv, received}
use vader_langue.Net.Progress.{Taken, read_n-Taken, pending}
use vader_langue.Pg.Message.{Message, get32, body_read, header_read, pg_read_msg}

-- A message that has been read was at least its header.
abbrev pub Shorter : Wire → Option Message × Wire → Type 0
Shorter w (none, after) = Unit
Shorter w (some m, after) = pending after < pending w

body_read-Shorter :
    (hdr : Bytes) (n : ℕ) (w w1 : Wire)
    → pending w1 < pending w
    → (o : Option (Bytes × List Bytes)) → Taken n (pending w1) o
    → Shorter w (body_read hdr w1 (received w1 o))
body_read-Shorter hdr n w w1 h none t = tt
body_read-Shorter hdr n w w1 h (some (s, rest)) t = omega arith

Shorter-if :
    (w : Wire) (b : Bool) (x y : Option Message × Wire)
    → Shorter w x
    → Shorter w y
    → Shorter w (if b then x else y)
Shorter-if w true x y hx hy = hx
Shorter-if w false x y hx hy = hy

header_read-Shorter :
    (w : Wire) (o : Option (Bytes × List Bytes))
    → Taken 5 (pending w) o
    → Shorter w (header_read w (received w o))
unfolding recv
header_read-Shorter w none t = tt
header_read-Shorter w (some (hdr, rest)) t =
    let w1 = record w { incoming = rest } in
    let n = get32 (drop 1 hdr) - 4 in
    Shorter-if w (leb 4 (get32 (drop 1 hdr)) && ltb (get32 (drop 1 hdr)) (2 ^ 31)) _ _
      (body_read-Shorter hdr n w w1 (omega arith) (read_n n rest) (read_n-Taken n rest)) tt

pub pg_read_msg-Shorter : (w : Wire) → Shorter w (pg_read_msg w)
unfolding pg_read_msg recv
pg_read_msg-Shorter w = header_read-Shorter w (read_n 5 w.incoming) (read_n-Taken 5 w.incoming)
