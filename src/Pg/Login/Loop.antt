-- ===== src/Pg/Login/Loop.antt =====
-- The loops of the login end, whatever the server sends.
use vader_langue.Pg.Login.Negotiate.{Tls, negotiate}
use vader_langue.Prelude.{
  ℤ, Bytes, some, none, Option, ℕ, suc, zero, ◌+◌, ◌≢◌, ◌<◌, ◌==◌, arith, Option, none, some, Bool,
  true, false, not, if◌then◌else◌, ltb, length,
}
use vader_langue.Net.{Wire, send}
use vader_langue.Net.Transfer.{flat}
use vader_langue.Net.Progress.{pending}
use vader_langue.Net.Dsn.{Dsn, pg_dsn_parse}
use vader_langue.Pg.Message.{Message, get32, pg_read_msg}
use vader_langue.Pg.Message.Progress.{Shorter, pg_read_msg-Shorter}
use vader_langue.Pg.Login.{
  secure_login, pg_connect, pg_dialled, Chance, LoginStep, go_on, authenticated, refused, outside,
  login_step, PgLogin, tired, consumed, consume_until_ready, after_step, login_loop, startup,
  pg_login,
}
use vader_langue.Pg.Login.Steps.{Fewer, Fewer-if, method_step-Fewer}

ends-if : (b : Bool) (x y : PgLogin) → x ≢ tired → y ≢ tired → (if b then x else y) ≢ tired
ends-if true x y hx hy = hx
ends-if false x y hx hy = hy

consumed-ends :
    (rest : PgLogin) (w : Wire) (got : Option Message × Wire)
    → Shorter w got
    → (pending got.1 < pending w → rest ≢ tired)
    → consumed rest got.0 got.1 ≢ tired
consumed-ends rest w (none, w1) h ends = λ e. cc e
consumed-ends rest w (some (type, body), w1) h ends =
    ends-if (type == b'E') _ _ (λ e. cc e) (ends-if (type == b'Z') _ _ (λ e. cc e) (ends h))

consume_until_ready-ends :
    (fuel : ℕ) (w : Wire) → pending w < fuel → consume_until_ready fuel w ≢ tired
unfolding consume_until_ready
consume_until_ready-ends zero w h = absurd (omega arith)
consume_until_ready-ends (suc fuel) w h =
    consumed-ends (consume_until_ready fuel (pg_read_msg w).1) w (pg_read_msg w)
      (pg_read_msg-Shorter w)
      (λ less. consume_until_ready-ends fuel (pg_read_msg w).1 (omega arith))

-- A step goes on with fewer bytes to arrive than before its message.
login_step-Fewer :
    (x : Chance) (d : Dsn) (w : Wire) (got : Option Message × Wire)
    → Shorter w got
    → Fewer (pending w) (login_step x d got.0 got.1)
unfolding login_step
login_step-Fewer x d w (none, w1) h = tt
login_step-Fewer x d w (some (type, body), w1) h =
    let t = pending w in
    Fewer-if t (type == b'E') _ _ tt (
      Fewer-if t (not (type == b'R')) _ _ h
        (Fewer-if t (ltb (length body) 4) _ _ tt (method_step-Fewer x d (get32 body) body w1 t h)))

after_step-ends :
    (total : ℕ) (loop behind : Wire → PgLogin)
    → ((w : Wire) → pending w < total → loop w ≢ tired)
    → ((w : Wire) → pending w < total → behind w ≢ tired)
    → (s : LoginStep) → Fewer total s
    → after_step loop behind s ≢ tired
after_step-ends total loop behind hl hb (go_on w) f = hl w f
after_step-ends total loop behind hl hb (authenticated w) f = hb w f
after_step-ends total loop behind hl hb (refused err) f = λ e. cc e
after_step-ends total loop behind hl hb outside f = λ e. cc e

login_loop-ends :
    (x : Chance) (d : Dsn) (fuel : ℕ) (w : Wire)
    → pending w + 1 < fuel
    → login_loop x d fuel w ≢ tired
unfolding login_loop
login_loop-ends x d zero w h = absurd (omega arith)
login_loop-ends x d (suc fuel) w h =
    after_step-ends (pending w) (login_loop x d fuel) (consume_until_ready fuel)
      (λ w1 less. login_loop-ends x d fuel w1 (omega arith))
      (λ w1 less. consume_until_ready-ends fuel w1 (omega arith))
      (login_step x d (pg_read_msg w).0 (pg_read_msg w).1)
      (login_step-Fewer x d w (pg_read_msg w) (pg_read_msg-Shorter w))

-- The same of the login alone.
pub pg_login-ends : (x : Chance) (d : Dsn) (w : Wire) → pg_login x d w ≢ tired
unfolding pg_login
pg_login-ends x d w =
    let w1 = (send (startup d) w).1 in
    ends-if (send (startup d) w).0 _ _
      (login_loop-ends x d (suc (suc (length (flat w1.incoming)))) w1 (omega arith)) (λ e. cc e)

secure_login-ends : (x : Chance) (d : Dsn) (w : Option Wire) → secure_login x d w ≢ tired
secure_login-ends x d none = λ e. cc e
secure_login-ends x d (some w) = pg_login-ends x d w

pg_dialled-ends :
    (tls : Tls) (x : Chance) (d : Dsn) (w : Option Wire) → pg_dialled tls x d w ≢ some tired
pg_dialled-ends tls x d none = λ q. cc q
pg_dialled-ends tls x d (some w) = λ q. secure_login-ends x d (negotiate tls w) (cc q)

-- `vader_pg_connect` comes to an end when the server sends finitely many bytes, whatever they are, before it
-- ends the connection or a read fails, and whatever becomes of the negotiation of TLS: every round of
-- its two loops that goes on has taken a message, so the rounds that the model gives them, one for
-- each byte and two more, are enough.
pub pg_connect-ends :
    (tls : Tls) (x : Chance) (dial : Bytes → ℤ → Option Wire) (dsn : Bytes)
    → pg_connect tls x dial dsn ≢ some tired
unfolding pg_connect
pg_connect-ends tls x dial dsn =
    pg_dialled-ends tls x (pg_dsn_parse dsn) (dial (pg_dsn_parse dsn).host (pg_dsn_parse dsn).port)
