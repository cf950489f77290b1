-- ===== src/Pg/Scram.antt =====
-- runtime/vader_pg.c: `scram_auth`. `garbage` is what the hash buffers hold at first, and `raw` what
-- `gen_nonce` reads.
pub mod Server
use vader_langue.Prelude.{
  ℕ, suc, zero, ◌+◌, ◌-◌, Bool, true, false, not, Option, none, some, List, [], ◌∷◌, ◌++◌, Bytes,
  codes, ◌==◌, ltb, if◌then◌else◌, length, take, drop, ℤ, pos, negsuc,
}
use vader_langue.Libc.{strstr, strchr, atoll}
use vader_langue.Scram.Hmac.{xor_bytes}
use vader_langue.Net.{Wire, to_nul}
use vader_langue.Pg.Crypto.{
  pg_sha256, pg_hmac_sha256, pg_pbkdf2_sha256, pg_b64_encode, pg_b64_decode, gen_nonce,
}
use vader_langue.Pg.Message.{Message, put32, get32, pg_read_msg, pg_send}

-- `client_first_bare`
abbrev pub first_bare : Option Bytes → Bytes
first_bare raw = codes "n=,r=" ++ gen_nonce raw 24

-- `init`: the mechanism, and the text with its length.
unfoldable pub initial : Option Bytes → Bytes
initial raw =
    let gs2 = codes "n,," ++ first_bare raw in
    codes "SCRAM-SHA-256" ++ 0 ∷ (put32 (length gs2) ++ gs2)

-- `server_first` as a string: what follows the code, 255 bytes at most.
abbrev pub first_text : Bytes → Bytes
first_text body = to_nul (take 255 (drop 4 body))

-- `sscanf(s, "%127[^,]", …)`
abbrev pub to_comma : Bytes → Bytes
to_comma s = take 127 (elim (strchr s b',') [ none ↦ s | some k ↦ take k s ])

-- An `iter` below 1 counts as 1.
abbrev pub rounds_of : ℤ → ℕ
rounds_of (pos n) = n
rounds_of (negsuc n) = 0

-- The attributes of `server_first`.
pub record First : Type 0 where
  pub rnonce : Bytes
  pub salt : Bytes
  pub iter : ℕ

-- From the places of "r=", "s=" and "i=".
abbrev pub found : Bytes → Option ℕ → Option ℕ → Option ℕ → Option First
found s (some r) (some t) (some i) = some (record {
  rnonce = to_comma (drop 2 (drop r s));
  salt = pg_b64_decode (to_comma (drop 2 (drop t s)));
  iter = rounds_of (atoll (drop 2 (drop i s)));
})
found s r t i = none

unfoldable pub server_first : Bytes → Option First
server_first s = found s (strstr s (codes "r=")) (strstr s (codes "s=")) (strstr s (codes "i="))

-- `client_final_noproof`
abbrev pub final_bare : First → Bytes
final_bare f = codes "c=biws,r=" ++ f.rnonce

abbrev pub client_key : Bytes → Bytes → First → Bytes
client_key garbage pass f =
    pg_hmac_sha256 garbage (pg_pbkdf2_sha256 garbage pass f.salt f.iter) (codes "Client Key")

-- `auth_msg`
abbrev pub auth_message : Option Bytes → Bytes → First → Bytes
auth_message raw s f = first_bare raw ++ b',' ∷ (s ++ b',' ∷ final_bare f)

-- `proof`
unfoldable pub client_proof : Bytes → Option Bytes → Bytes → Bytes → First → Bytes
client_proof garbage raw pass s f =
    let key = client_key garbage pass f in
    let stored_key = pg_sha256 garbage key in
    xor_bytes key (pg_hmac_sha256 garbage stored_key (auth_message raw s f))

-- `client_final`
unfoldable pub client_final : Bytes → Option Bytes → Bytes → Bytes → First → Bytes
client_final garbage raw pass s f =
    final_bare f ++ (codes ",p=" ++ pg_b64_encode (client_proof garbage raw pass s f))

-- What it returns: 0, -1 with the text in `c->err`, or that it reads outside a message.
pub data ScramEnd : Type 0 where
  accepted : Wire → ScramEnd
  rejected : Bytes → ScramEnd
  outside_scram : ScramEnd

abbrev pub code_zero : ℕ → Wire → ScramEnd
code_zero code w = if code == 0 then accepted w else rejected []

-- The message behind a SASLFinal.
unfoldable pub after_final : Option Message → Wire → ScramEnd
after_final none w = rejected []
after_final (some (type, body)) w =
    if not (type == b'R')
    then rejected []
    else if ltb (length body) 4
    then outside_scram
    else code_zero (get32 body) w

-- The message behind the proof.
unfoldable pub after_proof : Option Message → Wire → ScramEnd
after_proof none w = rejected []
after_proof (some (type, body)) w =
    let last = after_final (pg_read_msg w).0 (pg_read_msg w).1 in
    if type == b'E'
    then rejected (codes "SCRAM auth rejected (password?)")
    else if not (type == b'R')
    then rejected []
    else if ltb (length body) 4
    then outside_scram
    else if get32 body == 12
    then last
    else code_zero (get32 body) w

abbrev pub send_proof : Bytes → Option Bytes → Bytes → Bytes → Wire → Option First → ScramEnd
send_proof garbage raw pass s w none = rejected []
send_proof garbage raw pass s w (some f) =
    let w1 = (pg_send w b'p' (client_final garbage raw pass s f)).1 in
    after_proof (pg_read_msg w1).0 (pg_read_msg w1).1

-- The message with `server_first`.
unfoldable pub after_initial : Bytes → Option Bytes → Bytes → Option Message → Wire → ScramEnd
after_initial garbage raw pass none w = rejected []
after_initial garbage raw pass (some (type, body)) w =
    let s = first_text body in
    let rest = send_proof garbage raw pass s w (server_first s) in
    if type == b'E'
    then rejected (codes "auth error (server-first)")
    else if not (type == b'R')
    then rejected []
    else if ltb (length body) 4
    then outside_scram
    else if not (get32 body == 11)
    then rejected []
    else rest

-- `scram_auth`
unfoldable pub scram_auth : Bytes → Option Bytes → Bytes → Wire → ScramEnd
scram_auth garbage raw pass w =
    let w1 = (pg_send w b'p' (initial raw)).1 in
    after_initial garbage raw pass (pg_read_msg w1).0 (pg_read_msg w1).1
