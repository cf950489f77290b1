-- ===== src/Http/Client.antt =====
-- runtime/vader_http.c: the client.
use vader_langue.Prelude.{
  ℕ, suc, Option, none, some, List, [], ◌∷◌, ◌++◌, Bytes, codes, if◌then◌else◌, length, take, drop,
  ℤ, pos,
}
use vader_langue.Libc.{is_prefix, strstr, strchr, atoll, digits}
use vader_langue.Net.{Wire, send, to_nul}
use vader_langue.Http.{crlf, printed}

-- `host`, `port` and `path`, taken to fit into their arrays but for a path, which is cut.
pub record Url : Type 0 where
  pub host : Bytes
  pub port : ℤ
  pub path : Bytes

abbrev pub host_of : Bytes → Bytes → Bytes → Option ℕ → Url
host_of path p h none = record { host = h; port = pos 80; path = path }
host_of path p h (some k) = record { host = take k h; port = atoll (drop (suc k) p); path = path }

abbrev pub from_slash : Bytes → Option ℕ → Url
from_slash p none = host_of (b'/' ∷ []) p p (strchr p b':')
from_slash p (some k) = host_of (take 2047 (drop k p)) p (take k p) (strchr (take k p) b':')

-- `none` for an address of HTTPS.
unfoldable pub url_of : Bytes → Option Url
url_of url =
    let plain = from_slash (drop 7 url) (strchr (drop 7 url) b'/') in
    let bare = from_slash url (strchr url b'/') in
    if is_prefix (codes "http://") url
    then some plain
    else if is_prefix (codes "https://") url
    then none
    else some bare

abbrev pub content_type : Option Bytes → Bytes
content_type none = codes "text/plain"
content_type (some ctype) = ctype

abbrev pub content_lines : Option Bytes → Option Bytes → Bytes
content_lines ctype none = []
content_lines ctype (some body) =
    crlf
    ++ (codes "Content-Type: "
        ++ (content_type ctype ++ (crlf ++ (codes "Content-Length: " ++ digits (length body)))))

-- The text that is formatted into `req`.
unfoldable pub request_head : Bytes → Url → Option Bytes → Option Bytes → Bytes
request_head method u ctype body =
    method
    ++ (32 ∷ u.path
        ++ (codes " HTTP/1.1"
            ++ (crlf
                ++ (codes "Host: "
                    ++ (u.host
                        ++ (content_lines ctype body
                            ++ (crlf ++ (codes "Connection: close" ++ (crlf ++ crlf)))))))))

-- The whole of what arrives.
unfoldable pub read_rest : List Bytes → Bytes
read_rest [] = []
read_rest ([] ∷ pieces) = []
read_rest ((x ∷ c) ∷ pieces) = (x ∷ c) ++ read_rest pieces

abbrev pub behind_head : Bytes → Option ℕ → Bytes
behind_head resp none = []
behind_head resp (some k) = drop 4 (drop k resp)

-- The body of a response.
unfoldable pub response_body : Bytes → Bytes
response_body resp = behind_head (to_nul resp) (strstr (to_nul resp) (crlf ++ crlf))

abbrev pub send_body : Option Bytes → Wire → Wire
send_body none w = w
send_body (some body) w = (send body w).1

-- The connection when the request has been sent.
abbrev pub requested : (ℕ → ℕ) → Bytes → Url → Option Bytes → Option Bytes → Wire → Wire
requested stack method u ctype body w =
    send_body body (send (printed stack 8192 (request_head method u ctype body)) w).1

abbrev pub exchange : (ℕ → ℕ) → Bytes → Url → Option Bytes → Option Bytes → Option Wire → Bytes
exchange stack method u ctype body none = []
exchange stack method u ctype body (some w) =
    response_body (read_rest (requested stack method u ctype body w).incoming)

abbrev pub for_url :
    (ℕ → ℕ) → (Bytes → ℤ → Option Wire) → Bytes → Option Bytes → Option Bytes → Option Url → Bytes
for_url stack dial method ctype body none = []
for_url stack dial method ctype body (some u) =
    exchange stack method u ctype body (dial u.host u.port)

-- `http_request`. `stack` is what lies behind `req`. `dial host port` is the connected socket that `getaddrinfo`, `socket` and `connect` give.
unfoldable pub http_request :
    (ℕ → ℕ) → (Bytes → ℤ → Option Wire) → Bytes → Bytes → Option Bytes → Option Bytes → Bytes
http_request stack dial method url ctype body = for_url stack dial method ctype body (url_of url)

abbrev pub http_get : (ℕ → ℕ) → (Bytes → ℤ → Option Wire) → Bytes → Bytes
http_get stack dial url = http_request stack dial (codes "GET") url none none

abbrev pub http_post : (ℕ → ℕ) → (Bytes → ℤ → Option Wire) → Bytes → Bytes → Bytes → Bytes
http_post stack dial url ctype body =
    http_request stack dial (codes "POST") url (some ctype) (some body)
