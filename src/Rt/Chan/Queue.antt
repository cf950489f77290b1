-- ===== src/Rt/Chan/Queue.antt =====
-- What a channel of runtime/vader_rt.c promises: a bounded first-in first-out queue that can be
-- closed.
use vader_langue.Prelude.{
  ℕ, Bool, true, some, List, [], ◌∷◌, ◌++◌, Bytes, length, if◌then◌else◌, ◌==◌,
}
use vader_langue.Rt.Chan.{
  SendResult, RecvResult, send_waits, dropped, sent, recv_waits, drained, received,
}

-- The items, oldest first, how many fit, and whether the queue is closed.
pub record Queue : Type 0 where
  pub items : List Bytes
  pub bound : ℕ
  pub shut : Bool

unfoldable pub send : Queue → Bytes → SendResult × Queue
send q x =
    if q.shut
    then (dropped, q)
    else if length q.items == q.bound
    then (send_waits, q)
    else (sent, record q { items = q.items ++ x ∷ [] })

abbrev pub take_first : Queue → List Bytes → RecvResult × Queue
take_first q [] = (if q.shut then drained else recv_waits, q)
take_first q (x ∷ xs) = (received (some x), record q { items = xs })

unfoldable pub recv : Queue → RecvResult × Queue
recv q = take_first q q.items

unfoldable pub close : Queue → Queue
close q = record q { shut = true }
