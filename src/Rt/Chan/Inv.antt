-- ===== src/Rt/Chan/Inv.antt =====
-- The representation invariant of a channel of runtime/vader_rt.c.
use native.Mathlib.Nat.{mod-add-mod}
use vader_langue.Prelude.{
  ap, ℕ, ◌+◌, ◌-◌, ◌%◌, ◌≤◌, ◌<◌, ◌≡◌, Bytes, ℤ, pos, negsuc, arith, length, length-set,
  length-replicate,
}
use vader_langue.Rt.Chan.{Chan, make, send, recv, close, clamp_cap}

pub record IsValid (c : Chan) : Type 0 where
  pub slots : length c.buf ≡ c.cap
  pub head_in : c.head < c.cap
  pub tail_at : c.tail ≡ (c.head + c.count) % c.cap
  pub fits : c.count ≤ c.cap

clamp_cap_pos : (cap : ℤ) → 0 < clamp_cap cap
clamp_cap_pos (pos n) = ground arith
clamp_cap_pos (negsuc n) = ground arith

pub make-IsValid : (junk : Bytes) (elemsize : ℕ) (cap : ℤ) → IsValid (make junk elemsize cap)
unfolding make
make-IsValid junk elemsize cap = record {
  slots = length-replicate (clamp_cap cap) junk;
  head_in = clamp_cap_pos cap;
  tail_at = grind (arith, clamp_cap_pos cap);
  fits = omega arith;
}

-- Advancing the tail keeps it `count` slots ahead of the head.
tail_step : (h n cap : ℕ) → 0 < cap → ((h + n) % cap + 1) % cap ≡ (h + (n + 1)) % cap
tail_step h n cap p = rw mod-add-mod (ap (λ k. k % cap) (omega arith))

-- Advancing the head keeps the tail where it is.
head_step : (h n cap : ℕ) → 0 < n → 0 < cap → (h + n) % cap ≡ ((h + 1) % cap + (n - 1)) % cap
head_step h n cap p q = rw mod-add-mod (ap (λ k. k % cap) (omega arith))

pub send-IsValid : (c : Chan) (e : Bytes) → IsValid c → IsValid (send c e).1
unfolding send
send-IsValid c e v = ground (arith, length-set c.buf c.tail e, tail_step c.head c.count c.cap)

pub recv-IsValid : (c : Chan) → IsValid c → IsValid (recv c).1
unfolding recv
recv-IsValid c v = ground (arith, head_step c.head c.count c.cap)

pub close-IsValid : (c : Chan) → IsValid c → IsValid (close c)
unfolding close
close-IsValid c v = ground arith
