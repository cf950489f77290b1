-- ===== src/Rt/Chan.antt =====
-- runtime/vader_rt.c, channels: a circular buffer of `cap` slots behind one mutex. An element is
-- the bytes that memcpy moves.
pub mod Inv
pub mod Live
pub mod Queue
pub mod Refine
pub mod System
use vader_langue.Prelude.{
  ℕ, ◌+◌, ◌-◌, ◌%◌, Bool, true, false, not, ◌&&◌, Option, List, Bytes, ℤ, pos, negsuc, ltb, ◌==◌,
  if◌then◌else◌, get_elem?, set, replicate,
}

-- `VaderChan` without its mutex and conditions, which `System` has. `buf` has one entry for each
-- slot of `elemsize` bytes.
pub record Chan : Type 0 where
  pub buf : List Bytes
  pub elemsize : ℕ
  pub cap : ℕ
  pub count : ℕ
  pub head : ℕ
  pub tail : ℕ
  pub closed : Bool

-- `if (cap < 1) cap = 1`
abbrev pub clamp_cap : ℤ → ℕ
clamp_cap (pos n) = if ltb n 1 then 1 else n
clamp_cap (negsuc n) = 1

-- `junk` is what malloc leaves in a slot.
unfoldable pub make : Bytes → ℕ → ℤ → Chan
make junk elemsize cap = record {
  buf = replicate (clamp_cap cap) junk;
  elemsize = elemsize;
  cap = clamp_cap cap;
  count = 0;
  head = 0;
  tail = 0;
  closed = false;
}

-- One run of a call from the lock (or a wake-up) to the unlock (or the wait).
pub data SendResult : Type 0 where
  send_waits : SendResult
  dropped : SendResult
  sent : SendResult

pub data RecvResult : Type 0 where
  recv_waits : RecvResult
  drained : RecvResult
  received : Option Bytes → RecvResult

unfoldable pub send : Chan → Bytes → SendResult × Chan
send c elem =
    if (c.count == c.cap) && not c.closed
    then (send_waits, c)
    else if c.closed
    then (dropped, c)
    else (
      sent,
      record c { buf = set c.buf c.tail elem; tail = (c.tail + 1) % c.cap; count = c.count + 1 },
    )

-- `received none` would be a read outside the buffer.
unfoldable pub recv : Chan → RecvResult × Chan
recv c =
    if (c.count == 0) && not c.closed
    then (recv_waits, c)
    else if (c.count == 0) && c.closed
    then (drained, c)
    else (
      received (get_elem? c.buf c.head),
      record c { head = (c.head + 1) % c.cap; count = c.count - 1 },
    )

unfoldable pub close : Chan → Chan
close c = record c { closed = true }
