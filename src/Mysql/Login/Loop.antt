-- ===== src/Mysql/Login/Loop.antt =====
-- The loop of the login ends: every round takes a packet off the connection.
use vader_langue.Prelude.{
  ℤ, ℕ, suc, zero, ◌+◌, ◌≢◌, ◌<◌, arith, Option, none, some, List, [], ◌∷◌, Bytes, length,
  if◌then◌else◌, ◌==◌, Bool, true, false, take,
}
use vader_langue.Net.{Wire, read_n, recv, received, little, to_nul}
use vader_langue.Net.Transfer.{flat}
use vader_langue.Net.Progress.{Taken, read_n-Taken, pending}
use vader_langue.Mysql.Packet.{read_packet, header_read, payload_read}
use vader_langue.Mysql.Login.{
  my_connect, my_dialled, auth_step, auth_error, auth_more, auth_switch, scramble, use_sha2,
  auth_loop, tired, Login, after_step, greeted, greeting_read, my_login, greeting, response,
  Greeting,
}
use vader_langue.Mysql.Login.Full.{
  AuthStep, stop, outside, again, Tls, sealed, encrypted, with_key, full_auth,
}
use vader_langue.Net.Dsn.{Dsn, my_dsn_parse}
use vader_langue.Mysql.Packet.Frames.{write_packet_incoming}
use vader_langue.Mysql.Packet.{write_packet}

-- A packet that has been read was at least its header.
abbrev Shorter : Wire → Option (ℕ × Bytes) × Wire → Type 0
Shorter w (none, after) = Unit
Shorter w (some p, after) = pending after < pending w

payload_read-Shorter :
    (hdr : Bytes) (n : ℕ) (w w1 : Wire)
    → pending w1 < pending w
    → (o : Option (Bytes × List Bytes)) → Taken n (pending w1) o
    → Shorter w (payload_read hdr w1 (received w1 o))
payload_read-Shorter hdr n w w1 h none t = tt
payload_read-Shorter hdr n w w1 h (some (s, rest)) t = omega arith

header_read-Shorter :
    (w : Wire) (o : Option (Bytes × List Bytes))
    → Taken 4 (pending w) o
    → Shorter w (header_read w (received w o))
unfolding recv
header_read-Shorter w none t = tt
header_read-Shorter w (some (hdr, rest)) t =
    let w1 = record w { incoming = rest } in
    let n = little (take 3 hdr) in
    payload_read-Shorter hdr n w w1 (omega arith) (read_n n rest) (read_n-Taken n rest)

read_packet-Shorter : (w : Wire) → Shorter w (read_packet w)
unfolding read_packet recv
read_packet-Shorter w = header_read-Shorter w (read_n 4 w.incoming) (read_n-Taken 4 w.incoming)

-- A step goes on only with fewer than `total` bytes to arrive.
abbrev Fewer : ℕ → AuthStep → Type 0
Fewer total (stop c) = Unit
Fewer total outside = Unit
Fewer total (again salt w) = pending w < total

Fewer-if :
    (total : ℕ) (b : Bool) (x y : AuthStep)
    → Fewer total x
    → Fewer total y
    → Fewer total (if b then x else y)
Fewer-if total true x y hx hy = hx
Fewer-if total false x y hx hy = hy

auth_error-Fewer : (total : ℕ) (p : Bytes) → Fewer total (auth_error p)
auth_error-Fewer total [] = tt
auth_error-Fewer total (lo ∷ []) = tt
auth_error-Fewer total (lo ∷ hi ∷ p) = tt

encrypted-Fewer :
    (total : ℕ) (salt : Bytes) (seq : ℕ) (w : Wire) (enc : Option Bytes)
    → pending w < total
    → Fewer total (encrypted salt seq w enc)
encrypted-Fewer total salt seq w none h = tt
encrypted-Fewer total salt seq w (some enc) h = rw (write_packet_incoming w enc (seq + 1)) h

with_key-Fewer :
    (total : ℕ) (encrypt : Bytes → Bytes → Option Bytes) (pass salt : Bytes) (w : Wire)
    (got : Option (ℕ × Bytes) × Wire)
    → pending w < total
    → Shorter w got
    → Fewer total (with_key encrypt pass salt got.0 got.1)
with_key-Fewer total encrypt pass salt w (none, w1) h s = tt
with_key-Fewer total encrypt pass salt w (some (seq, []), w1) h s = tt
with_key-Fewer total encrypt pass salt w (some (seq, b ∷ pem), w1) h s =
    encrypted-Fewer total salt seq w1 (encrypt pem (sealed pass salt)) (omega arith)

full_auth-Fewer :
    (total : ℕ) (tls : Tls) (pass : Bytes) (seq : ℕ) (salt : Bytes) (w : Wire)
    → pending w < total
    → Fewer total (full_auth tls pass seq salt w)
unfolding full_auth
full_auth-Fewer total none pass seq salt w h = tt
full_auth-Fewer total (some encrypt) pass seq salt w h =
    let w1 = (write_packet w (0x02 ∷ []) (seq + 1)).1 in
    with_key-Fewer total encrypt pass salt w1 (read_packet w1)
      (rw (write_packet_incoming w (0x02 ∷ []) (seq + 1)) h) (read_packet-Shorter w1)

auth_more-Fewer :
    (total : ℕ) (tls : Tls) (pass : Bytes) (seq : ℕ) (salt p : Bytes) (w : Wire)
    → pending w < total
    → Fewer total (auth_more tls pass seq salt p w)
auth_more-Fewer total tls pass seq salt [] w h = tt
auth_more-Fewer total tls pass seq salt (st ∷ p) w h =
    Fewer-if total (st == 0x03) _ _ h
      (Fewer-if total (st == 0x04) _ _ (full_auth-Fewer total tls pass seq salt w h) tt)

auth_switch-Fewer :
    (total : ℕ) (garbage pass : Bytes) (seq : ℕ) (p : Bytes) (w : Wire)
    → pending w < total
    → Fewer total (auth_switch garbage pass seq p w)
unfolding auth_switch
auth_switch-Fewer total garbage pass seq p w h =
    rw (write_packet_incoming w (scramble garbage (use_sha2 (take 63 (to_nul p))) pass _) (seq + 1))
      h

auth_step-Fewer :
    (tls : Tls) (garbage pass salt : Bytes) (w : Wire) (got : Option (ℕ × Bytes) × Wire)
    → Shorter w got
    → Fewer (pending w) (auth_step tls garbage pass salt got.0 got.1)
unfolding auth_step
auth_step-Fewer tls garbage pass salt w (none, w1) h = tt
auth_step-Fewer tls garbage pass salt w (some (seq, []), w1) h = tt
auth_step-Fewer tls garbage pass salt w (some (seq, tag ∷ p), w1) h =
    let t = pending w in
    Fewer-if t (tag == 0x00) _ _ tt (
      Fewer-if t (tag == 0xff) _ _ (auth_error-Fewer t p) (
        Fewer-if t (tag == 0xfe) _ _ (auth_switch-Fewer t garbage pass seq p w1 h)
          (Fewer-if t (tag == 0x01) _ _ (auth_more-Fewer t tls pass seq salt p w1 h) tt)))

after_step-ends :
    (total : ℕ) (loop : Bytes → Wire → Login)
    → ((salt : Bytes) (w : Wire) → pending w < total → loop salt w ≢ tired)
    → (s : AuthStep) → Fewer total s
    → after_step loop s ≢ tired
after_step-ends total loop ends (stop c) f = λ e. cc e
after_step-ends total loop ends outside f = λ e. cc e
after_step-ends total loop ends (again salt w) f = ends salt w f

-- The loop comes to an end when it may read as many packets as there are bytes to arrive, and one more.
auth_loop-ends :
    (tls : Tls) (garbage pass : Bytes) (fuel : ℕ) (salt : Bytes) (w : Wire)
    → pending w < fuel
    → auth_loop tls garbage pass fuel salt w ≢ tired
unfolding auth_loop
auth_loop-ends tls garbage pass zero salt w h = absurd (omega arith)
auth_loop-ends tls garbage pass (suc fuel) salt w h =
    after_step-ends (pending w) (auth_loop tls garbage pass fuel)
      (λ salt1 w1 less. auth_loop-ends tls garbage pass fuel salt1 w1 (omega arith))
      (auth_step tls garbage pass salt (read_packet w).0 (read_packet w).1)
      (auth_step-Fewer tls garbage pass salt w (read_packet w) (read_packet-Shorter w))

greeted-ends :
    (tls : Tls) (garbage : Bytes) (d : Dsn) (w : Wire) (g : Option Greeting)
    → greeted tls garbage d w g ≢ tired
greeted-ends tls garbage d w none = λ e. cc e
greeted-ends tls garbage d w (some g) =
    let w1 = (write_packet w (response garbage d g) 1).1 in
    auth_loop-ends tls garbage d.pass (suc (length (flat w1.incoming))) g.salt w1 (omega arith)

greeting_read-ends :
    (tls : Tls) (garbage : Bytes) (d : Dsn) (w : Wire) (got : Option (ℕ × Bytes))
    → greeting_read tls garbage d w got ≢ tired
greeting_read-ends tls garbage d w none = λ e. cc e
greeting_read-ends tls garbage d w (some (seq, pkt)) = greeted-ends tls garbage d w (greeting pkt)

-- The same of the login alone.
pub my_login-ends :
    (tls : Tls) (garbage : Bytes) (d : Dsn) (w : Wire) → my_login tls garbage d w ≢ tired
unfolding my_login
my_login-ends tls garbage d w = greeting_read-ends tls garbage d (read_packet w).1 (read_packet w).0

my_dialled-ends :
    (tls : Tls) (garbage : Bytes) (d : Dsn) (w : Option Wire)
    → my_dialled tls garbage d w ≢ some tired
my_dialled-ends tls garbage d none = λ q. cc q
my_dialled-ends tls garbage d (some w) = λ q. my_login-ends tls garbage d w (cc q)

-- `vader_my_connect` comes to an end when the server sends finitely many bytes, whatever they are, before it
-- ends the connection or a read fails, in a build with TLS and in one without: every round of the
-- loop that goes on has taken a packet, so the rounds that the model gives it, one for each byte and
-- one more, are enough.
pub my_connect-ends :
    (tls : Tls) (garbage : Bytes) (dial : Bytes → ℤ → Option Wire) (dsn : Bytes)
    → my_connect tls garbage dial dsn ≢ some tired
unfolding my_connect
my_connect-ends tls garbage dial dsn =
    my_dialled-ends tls garbage (my_dsn_parse dsn)
      (dial (my_dsn_parse dsn).host (my_dsn_parse dsn).port)
