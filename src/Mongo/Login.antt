-- ===== src/Mongo/Login.antt =====
-- runtime/vader_mongo.c: the SCRAM login and `vader_mongo_connect`. `none` where a reply is read outside its
-- buffer. `garbage` is what the hash buffers hold at first, and `raw` what /dev/urandom gives.
use vader_langue.Prelude.{
  ℕ, suc, zero, ◌^◌, Bool, true, false, Option, none, some, [], ◌∷◌, ◌++◌, Bytes, codes, ◌==◌, ltb,
  if◌then◌else◌, ◌>>=◌, length, take, drop, ℤ, pos, negsuc,
}
use vader_langue.Libc.{strstr, strchr, atoll}
use vader_langue.Scram.Sha256.{sha256}
use vader_langue.Scram.Hmac.{hmac, pbkdf2, xor_bytes, nonce}
use vader_langue.Scram.Base64.{b64encode, b64decode}
use vader_langue.Net.{Wire, little, to_nul}
use vader_langue.Net.Dsn.{Dsn, skip_scheme, user_pass, before_query, or_else}
use vader_langue.Json.{Doubles}
use vader_langue.Mongo.Bson.{Codec, signed}
use vader_langue.Mongo.Bson.Scan.{bson_scan, build_sasl}
use vader_langue.Mongo.Exchange.{op_msg_raw}
use vader_langue.Mongo.Commands.{Mongo}

-- `first_bare`
abbrev pub first_bare : Bytes → Bytes → Bytes
first_bare raw user = codes "n=" ++ (user ++ (codes ",r=" ++ nonce raw 24))

-- `sscanf(s, "%219[^,]", …)`
abbrev pub upto_comma : Bytes → Bytes
upto_comma s = take 219 (elim (strchr s b',') [ none ↦ s | some k ↦ take k s ])

abbrev pub at_least_zero : ℤ → ℕ
at_least_zero (pos n) = n
at_least_zero (negsuc n) = 0

-- The attributes of `server_first`.
pub record Challenge : Type 0 where
  pub rnonce : Bytes
  pub salt : Bytes
  pub iter : ℕ

abbrev pub attributes : Bytes → Option ℕ → Option ℕ → Option ℕ → Option Challenge
attributes s (some r) (some t) (some i) = some (record {
  rnonce = upto_comma (drop 2 (drop r s));
  salt = b64decode (upto_comma (drop 2 (drop t s)));
  iter = at_least_zero (atoll (drop 2 (drop i s)));
})
attributes s r t i = none

unfoldable pub challenge : Bytes → Option Challenge
challenge s = attributes s (strstr s (codes "r=")) (strstr s (codes "s=")) (strstr s (codes "i="))

-- `client_final`, for the text of the server.
unfoldable pub final_text : Bytes → Bytes → Bytes → Bytes → Bytes → Challenge → Bytes
final_text garbage raw user pass s c =
    let ckey = hmac garbage (pbkdf2 garbage pass c.salt c.iter) (codes "Client Key") in
    let skey = sha256 garbage ckey in
    let bare = codes "c=biws,r=" ++ c.rnonce in
    let authmsg = first_bare raw user ++ b',' ∷ (s ++ b',' ∷ bare) in
    bare ++ (codes ",p=" ++ b64encode (xor_bytes ckey (hmac garbage skey authmsg)))

-- `rd_i32` of a value, `none` outside the buffer.
abbrev pub int_at : Bytes → Option ℤ
int_at p = if ltb (length p) 4 then none else some (signed 32 (little (take 4 p)))

-- The conversation's number, 1 where there is none; one below 0 counts as none.
abbrev pub convid_of : Option (ℕ × Bytes) → Option (Option ℕ)
convid_of none = some (some 1)
convid_of (some (t, p)) = int_at p >>= (λ i. some (elim i [ pos n ↦ some n | negsuc n ↦ none ]))

-- The text of a payload, 419 bytes of it at most; behind its length stands the subtype.
abbrev pub payload_text : Bytes → Option Bytes
payload_text p =
    let n = little (take 4 p) in
    let sflen = if ltb 419 n then 419 else n in
    if ltb (length p) 5
    then none
    else if ltb n (2 ^ 31)
    then (if ltb (length (drop 5 p)) sflen then none else some (to_nul (take sflen (drop 5 p))))
    else none

module _ (d : Doubles) (x : Codec d.Double) where
  open d use {Double, of_ll}

  -- `ok`: a double or a 32-bit number, or 0.
  abbrev pub ok_of : Option (ℕ × Bytes) → Option Double
  ok_of none = some (of_ll (pos 0))
  ok_of (some (t, p)) =
      if t == 0x01
      then (if ltb (length p) 8 then none else some (x.of_bits (take 8 p)))
      else if t == 0x10
      then int_at p >>= (λ i. some (of_ll i))
      else some (of_ll (pos 0))

  -- `done`
  abbrev pub done_of : Option (ℕ × Bytes) → Option Bool
  done_of none = some false
  done_of (some (t, [])) = none
  done_of (some (t, zero ∷ p)) = some false
  done_of (some (t, suc b ∷ p)) = some true

  -- What `mongo_auth` returns: whether it is 0; `none` where it goes astray.
  abbrev pub Verdict : Type 0
  Verdict = Option (Bool × Wire)

  abbrev pub admin : Bytes
  admin = codes "admin"

  -- The third reply, to an empty payload.
  abbrev pub third : Option Bytes → Wire → Verdict
  third none w = some (false, w)
  third (some r) w =
      bson_scan r (codes "ok") >>= (λ o. ok_of o >>= (λ ok. some (x.above_half ok, w)))

  -- The second reply, to the proof.
  abbrev pub second : Option ℕ → Option Bytes → Wire → Verdict
  second convid none w = some (false, w)
  second convid (some r) w = bson_scan r (codes "ok") >>= (λ o. ok_of o >>= (λ ok.
      bson_scan r (codes "done") >>= (λ p. done_of p >>= (λ done.
        let last = op_msg_raw w (build_sasl (codes "saslContinue") convid [] admin) in
        if x.below_half ok
        then some (false, w)
        else if done
        then some (true, w)
        else third last.0 last.1))))

  -- Behind the attributes of the first reply.
  abbrev pub prove :
      Bytes → Bytes → Bytes → Bytes → Option ℕ → Bytes → Wire → Option Challenge → Verdict
  prove garbage raw user pass convid s w none = some (false, w)
  prove garbage raw user pass convid s w (some c) =
      let r =
        op_msg_raw w
          (build_sasl (codes "saslContinue") convid (final_text garbage raw user pass s c) admin) in
      second convid r.0 r.1

  -- Behind the payload of the first reply.
  abbrev pub payload_found :
      Bytes → Bytes → Bytes → Bytes → Option ℕ → Wire → Option (ℕ × Bytes) → Verdict
  payload_found garbage raw user pass convid w none = some (false, w)
  payload_found garbage raw user pass convid w (some (t, p)) =
      payload_text p >>= (λ s. prove garbage raw user pass convid s w (challenge s))

  -- The first reply.
  abbrev pub first : Bytes → Bytes → Bytes → Bytes → Option Bytes → Wire → Verdict
  first garbage raw user pass none w = some (false, w)
  first garbage raw user pass (some r) w = bson_scan r (codes "conversationId") >>= (λ c.
      convid_of c >>= (λ convid.
        bson_scan r (codes "payload") >>= (λ p. payload_found garbage raw user pass convid w p)))

  unfoldable pub mongo_auth : Bytes → Bytes → Bytes → Bytes → Wire → Verdict
  mongo_auth garbage raw user pass w =
      let gs2 = codes "n,," ++ first_bare raw user in
      let r = op_msg_raw w (build_sasl (codes "saslStart") none gs2 admin) in
      first garbage raw user pass r.0 r.1

-- A part that is shorter than 127 bytes, and else the default.
abbrev pub short_part : Bytes → Bytes → Bytes
short_part default s = if ltb (length s) 127 then s else default

abbrev pub nonempty_part : Bytes → Bytes → Bytes
nonempty_part default s = or_else (short_part default s) default

-- User and password before the first `@`, and what follows it.
abbrev pub login_part : Bytes → Option ℕ → (Bytes × Bytes) × Bytes
login_part p none = (([], []), p)
login_part p (some k) =
    let (user, pass) = user_pass (take k p) (strchr (take k p) b':') in
    ((short_part [] user, short_part [] pass), drop (suc k) p)

-- Host and port, for the text up to `hostend` and its colon.
abbrev pub server_part : Bytes → Bytes → Option ℕ → Bytes × ℤ
server_part p h none = (nonempty_part (codes "127.0.0.1") h, pos 27017)
server_part p h (some k) = (take k h, atoll (drop (suc k) p))

abbrev pub db_part : Bytes → Option ℕ → Bytes
db_part p none = codes "test"
db_part p (some k) =
    nonempty_part (codes "test") (before_query (drop (suc k) p) (strchr (drop (suc k) p) b'?'))

abbrev pub hostend : Bytes → Option ℕ → Bytes
hostend p none = p
hostend p (some k) = take k p

-- The parts of the data source name.
unfoldable pub mongo_dsn : Bytes → Dsn
mongo_dsn dsn =
    let p = skip_scheme dsn (strstr dsn (codes "://")) in
    let (up, q) = login_part p (strchr p b'@') in
    let slash = strchr q b'/' in
    let h = hostend q slash in
    let (host, port) = server_part q h (strchr h b':') in
    record { user = up.0; pass = up.1; host = host; port = port; db = db_part q slash }

-- The handle that a login leaves, `none` for a null pointer.
abbrev pub admitted : Bytes → Option (Bool × Wire) → Option (Option Mongo)
admitted db none = none
admitted db (some (ok, w)) = some (if ok then some (record { wire = w; db = db }) else none)

-- `vader_mongo_connect`. `dial host port` is the connected socket, `none` where it cannot be opened.
unfoldable pub mongo_connect :
    (d : Doubles)
    → Codec d.Double
    → Bytes
    → Bytes
    → (Bytes → ℤ → Option Wire)
    → Bytes
    → Option (Option Mongo)
mongo_connect d x garbage raw dial dsn =
    let n = mongo_dsn dsn in
    elim (dial n.host n.port) [
      | none ↦ some none
      | some w ↦ elim n.user [
        | [] ↦ some (some (record { wire = w; db = n.db }))
        | c ∷ user ↦ admitted n.db (mongo_auth d x garbage raw (c ∷ user) n.pass w)
      ]
    ]

-- `vader_mongo_close`: the connection that is closed.
abbrev pub mongo_close : Option Mongo → Option Wire
mongo_close none = none
mongo_close (some m) = some m.wire
