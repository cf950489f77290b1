-- ===== src/Pg/Login/Steps.antt =====
-- No step of the login leaves more to arrive.
use vader_langue.Prelude.{
  ℕ, ◌≤◌, ◌<◌, ◌==◌, arith, Option, none, some, Bytes, Bool, true, false, not, if◌then◌else◌, ltb,
  length, take, drop, ◌++◌, ◌∷◌, [],
}
use vader_langue.Net.{Wire}
use vader_langue.Net.Progress.{pending}
use vader_langue.Net.Dsn.{Dsn}
use vader_langue.Pg.Message.{Message, get32, pg_read_msg, pg_send}
use vader_langue.Pg.Message.Frames.{pg_send_incoming}
use vader_langue.Pg.Message.Progress.{Shorter, pg_read_msg-Shorter}
use vader_langue.Pg.Scram.{
  First, ScramEnd, accepted, rejected, outside_scram, after_final, after_proof, client_final,
  send_proof, first_text, server_first, after_initial, initial, scram_auth,
}
use vader_langue.Pg.Login.{
  Chance, LoginStep, go_on, authenticated, refused, outside, after_scram, md5_response, method_step,
}

-- SCRAM goes on with at most `total` bytes to arrive.
abbrev Within : ℕ → ScramEnd → Type 0
Within total (accepted w) = pending w ≤ total
Within total (rejected err) = Unit
Within total outside_scram = Unit

Within-if :
    (total : ℕ) (b : Bool) (x y : ScramEnd)
    → Within total x
    → Within total y
    → Within total (if b then x else y)
Within-if total true x y hx hy = hx
Within-if total false x y hx hy = hy

-- What is to arrive behind a read, whether it has found a message or not, is no concern of a failed step.
after_final-Within :
    (total : ℕ) (w : Wire) (got : Option Message × Wire)
    → Shorter w got
    → pending w ≤ total
    → Within total (after_final got.0 got.1)
unfolding after_final
after_final-Within total w (none, w1) h g = tt
after_final-Within total w (some (type, body), w1) h g =
    Within-if total (not (type == b'R')) _ _ tt (
      Within-if total (ltb (length body) 4) _ _ tt
        (Within-if total (get32 body == 0) _ _ (omega arith) tt))

after_proof-Within :
    (total : ℕ) (w : Wire) (got : Option Message × Wire)
    → Shorter w got
    → pending w ≤ total
    → Within total (after_proof got.0 got.1)
unfolding after_proof
after_proof-Within total w (none, w1) h g = tt
after_proof-Within total w (some (type, body), w1) h g = Within-if total (type == b'E') _ _ tt (
    Within-if total (not (type == b'R')) _ _ tt (
      Within-if total (ltb (length body) 4) _ _ tt (
        Within-if total (get32 body == 12) _ _
          (after_final-Within total w1 (pg_read_msg w1) (pg_read_msg-Shorter w1) (omega arith))
          (Within-if total (get32 body == 0) _ _ (omega arith) tt))))

send_proof-Within :
    (total : ℕ) (garbage : Bytes) (raw : Option Bytes) (pass s : Bytes) (w : Wire)
    (f : Option First)
    → pending w ≤ total
    → Within total (send_proof garbage raw pass s w f)
send_proof-Within total garbage raw pass s w none g = tt
send_proof-Within total garbage raw pass s w (some f) g =
    let w1 = (pg_send w b'p' (client_final garbage raw pass s f)).1 in
    after_proof-Within total w1 (pg_read_msg w1) (pg_read_msg-Shorter w1)
      (rw (pg_send_incoming w b'p' (client_final garbage raw pass s f)) g)

after_initial-Within :
    (total : ℕ) (garbage : Bytes) (raw : Option Bytes) (pass : Bytes) (w : Wire)
    (got : Option Message × Wire)
    → Shorter w got
    → pending w ≤ total
    → Within total (after_initial garbage raw pass got.0 got.1)
unfolding after_initial
after_initial-Within total garbage raw pass w (none, w1) h g = tt
after_initial-Within total garbage raw pass w (some (type, body), w1) h g =
    let s = first_text body in
    Within-if total (type == b'E') _ _ tt (
      Within-if total (not (type == b'R')) _ _ tt (
        Within-if total (ltb (length body) 4) _ _ tt (
          Within-if total (not (get32 body == 11)) _ _ tt
            (send_proof-Within total garbage raw pass s w1 (server_first s) (omega arith)))))

scram_auth-Within :
    (garbage : Bytes) (raw : Option Bytes) (pass : Bytes) (w : Wire)
    → Within (pending w) (scram_auth garbage raw pass w)
unfolding scram_auth
scram_auth-Within garbage raw pass w =
    let w1 = (pg_send w b'p' (initial raw)).1 in
    after_initial-Within (pending w) garbage raw pass w1 (pg_read_msg w1) (pg_read_msg-Shorter w1)
      (rw (pg_send_incoming w b'p' (initial raw)) (omega arith))

-- A step of the login that goes on has fewer than `total` bytes to arrive.
abbrev pub Fewer : ℕ → LoginStep → Type 0
Fewer total (go_on w) = pending w < total
Fewer total (authenticated w) = pending w < total
Fewer total (refused err) = Unit
Fewer total outside = Unit

pub Fewer-if :
    (total : ℕ) (b : Bool) (x y : LoginStep)
    → Fewer total x
    → Fewer total y
    → Fewer total (if b then x else y)
Fewer-if total true x y hx hy = hx
Fewer-if total false x y hx hy = hy

after_scram-Fewer :
    (m total : ℕ) (s : ScramEnd) → Within m s → m < total → Fewer total (after_scram s)
after_scram-Fewer m total (accepted w) h g = omega arith
after_scram-Fewer m total (rejected err) h g = tt
after_scram-Fewer m total outside_scram h g = tt

sent-Fewer :
    (total : ℕ) (w : Wire) (body : Bytes)
    → pending w < total
    → pending (pg_send w b'p' body).1 < total
sent-Fewer total w body h = rw (pg_send_incoming w b'p' body) h

pub method_step-Fewer :
    (x : Chance) (d : Dsn) (code : ℕ) (body : Bytes) (w : Wire) (total : ℕ)
    → pending w < total
    → Fewer total (method_step x d code body w)
unfolding method_step
method_step-Fewer x d code body w t h =
    let answer = md5_response x.garbage x.garbage1 d.user d.pass (take 4 (drop 4 body)) in
    let scram = scram_auth x.garbage x.raw d.pass w in
    Fewer-if t (code == 0) _ _ h (
      Fewer-if t (code == 3) _ _ (sent-Fewer t w (d.pass ++ 0 ∷ []) h) (
        Fewer-if t (code == 5) _ _
          (Fewer-if t (ltb (length body) 8) _ _ tt (sent-Fewer t w answer h))
          (Fewer-if t (code == 10) _ _
            (after_scram-Fewer (pending w) t scram (scram_auth-Within x.garbage x.raw d.pass w) h)
            tt)))
