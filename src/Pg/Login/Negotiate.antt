-- ===== src/Pg/Login/Negotiate.antt =====
-- runtime/vader_pg.c: the negotiation of TLS. The handshake is an argument; what passes through TLS behind it
-- is a connection like another, with the loops of `io_read` and `io_write`.
use vader_langue.Prelude.{
  Bool, true, false, Option, none, some, [], ◌∷◌, Bytes, ◌==◌, if◌then◌else◌,
}
use vader_langue.Net.{Wire, recv, send, ended}

-- What OpenSSL makes of the connection: no context, a handshake that failed, or one that succeeded.
pub data Handshake : Type 0 where
  no_context : Handshake
  handshake_failed : Handshake
  secured : Wire → Handshake

-- `none` for a build without VADER_TLS.
abbrev pub Tls : Type 0
Tls = Option (Wire → Handshake)

-- Eight bytes: their number, and the code of SSLRequest.
abbrev pub ssl_request : Bytes
ssl_request = 0 ∷ 0 ∷ 0 ∷ 8 ∷ 4 ∷ 210 ∷ 22 ∷ 47 ∷ []

abbrev pub shaken : Wire → Handshake → Option Wire
shaken w no_context = some w
shaken w handshake_failed = none
shaken w (secured s) = some s

abbrev pub server_says : (Wire → Handshake) → Wire → Option (Bytes × Wire) → Option Wire
server_says handshake w none = some (ended w)
server_says handshake w (some ([], after)) = some after
server_says handshake w (some (resp ∷ s, after)) =
    if resp == b'S' then shaken after (handshake after) else some after

abbrev pub request_sent : (Wire → Handshake) → Bool × Wire → Option Wire
request_sent handshake (false, w) = some w
request_sent handshake (true, w) = server_says handshake w (recv 1 w)

-- The connection to log in on; `none` where the handshake failed.
unfoldable pub negotiate : Tls → Wire → Option Wire
negotiate none w = some w
negotiate (some handshake) w = request_sent handshake (send ssl_request w)
