-- ===== src/Http.antt =====
-- runtime/vader_http.c. What `accept` and `connect` give is an argument.
pub mod Client
pub mod Opening
pub mod Steady
pub mod Requests
pub mod Responses
mod Tests
use vader_langue.Prelude.{
  ℕ, suc, zero, ◌+◌, ◌-◌, Bool, true, false, not, Option, none, some, List, [], ◌∷◌, ◌++◌, map,
  Bytes, codes, ◌==◌, ltb, int_eq, if◌then◌else◌, length, take, drop, ℤ, pos, negsuc,
}
use vader_langue.Libc.{
  is_space, is_prefix, strstr, strchr, atoll, skip_space, to_lower, print_int, digits,
}
use vader_langue.Net.{Wire, send, to_nul}

abbrev pub crlf : Bytes
crlf = 13 ∷ 10 ∷ []

-- `strcasestr`
abbrev pub strcasestr : Bytes → Bytes → Option ℕ
strcasestr s sub = strstr (map to_lower s) (map to_lower sub)

-- `HttpServer`; `cfd` is `none` for -1, and a null pointer counts as an empty text.
pub record HttpServer : Type 0 where
  pub cfd : Option Wire
  pub method : Bytes
  pub path : Bytes
  pub body : Bytes
  pub headers : Bytes

-- One `read` of at most `k` bytes.
abbrev pub read_some : ℕ → List Bytes → Option (Bytes × List Bytes)
read_some k [] = none
read_some k ([] ∷ pieces) = none
read_some k ((x ∷ c) ∷ pieces) =
    if ltb k (length (x ∷ c))
    then some (take k (x ∷ c), drop k (x ∷ c) ∷ pieces)
    else some (x ∷ c, pieces)

-- `buf`, the place of the empty line, and what is still to arrive.
abbrev pub Gathered : Type 0
Gathered = Bytes × Option ℕ × List Bytes

abbrev pub head_end : Bytes → Option ℕ
head_end buf = strstr (to_nul buf) (13 ∷ 10 ∷ 13 ∷ 10 ∷ [])

abbrev pub line_seen : (Bytes → List Bytes → Gathered) → Bytes → List Bytes → Option ℕ → Gathered
line_seen again buf pieces none = again buf pieces
line_seen again buf pieces (some k) = (buf, some k, pieces)

abbrev pub more_read :
    (Bytes → List Bytes → Gathered) → Bytes → List Bytes → Option (Bytes × List Bytes) → Gathered
more_read again buf pieces none = (buf, none, pieces)
more_read again buf pieces (some (c, rest)) = line_seen again (buf ++ c) rest (head_end (buf ++ c))

-- The loop that reads the head; a round takes a byte at least, and `buf` has room for 65535.
unfoldable pub gather : ℕ → Bytes → List Bytes → Gathered
gather zero buf pieces = (buf, none, pieces)
gather (suc fuel) buf pieces =
    if ltb (length buf) 65535
    then more_read (gather fuel) buf pieces (read_some (65535 - length buf) pieces)
    else (buf, none, pieces)

-- `%15s` and the like: the text of a word, and what follows it.
abbrev pub word_of : ℕ → Bytes → Bytes
word_of zero s = []
word_of (suc n) [] = []
word_of (suc n) (c ∷ s) = if is_space c then [] else c ∷ word_of n s

abbrev pub scan_word : ℕ → Bytes → Bytes × Bytes
scan_word n s = let word = word_of n (skip_space s) in (word, drop (length word) (skip_space s))

-- `clen`
abbrev pub length_at : Bytes → Option ℕ → ℤ
length_at buf none = pos 0
length_at buf (some k) = atoll (drop (k + 15) buf)

-- The loop that reads the rest of the body.
unfoldable pub read_upto : ℕ → List Bytes → Bytes × List Bytes
read_upto zero pieces = ([], pieces)
read_upto (suc n) [] = ([], [])
read_upto (suc n) ([] ∷ pieces) = ([], [] ∷ pieces)
read_upto (suc n) ((x ∷ c) ∷ pieces) =
    let (s, rest) = read_upto (suc n - length (x ∷ c)) pieces in
    if ltb (suc n) (length (x ∷ c))
    then (take (suc n) (x ∷ c), drop (suc n) (x ∷ c) ∷ pieces)
    else ((x ∷ c) ++ s, rest)

-- The request behind its head; `none` for a negative length, with which the code writes before the body.
abbrev pub with_body : Wire → Bytes → Bytes → Bytes → Bytes → ℤ → List Bytes → Option HttpServer
with_body w method path headers begun (negsuc n) pieces = none
with_body w method path headers begun (pos clen) pieces =
    let copy = take clen begun in
    let (rest, left) = read_upto (clen - length copy) pieces in
    some (record {
      cfd = some (record w { incoming = left });
      method = method;
      path = path;
      body = copy ++ rest;
      headers = headers;
    })

abbrev pub parsed : HttpServer → Wire → Gathered → Option HttpServer
parsed s w (buf, none, pieces) = some (record {
  cfd = some (record w { incoming = pieces });
  method = [];
  path = [];
  body = [];
  headers = [];
})
parsed s w (buf, some hdr_end, pieces) =
    let text = to_nul buf in
    let (method, rest) = scan_word 15 text in
    let (path, _) = scan_word 2047 rest in
    let clen = length_at text (strcasestr text (codes "content-length:")) in
    with_body w method path (take hdr_end buf) (drop (hdr_end + 4) buf) clen pieces

-- `vader_http_accept` of a server: what it returns, and the server. `c` is what `accept` gives.
unfoldable pub http_accept : HttpServer → Option Wire → Option (Bool × HttpServer)
http_accept s none = some (false, s)
http_accept s (some w) = elim (parsed s w (gather 65536 [] w.incoming)) [
  | none ↦ none
  | some t ↦ some (true, t)
]

abbrev pub http_method : Option HttpServer → Bytes
http_method none = []
http_method (some s) = s.method

abbrev pub http_path : Option HttpServer → Bytes
http_path none = []
http_path (some s) = s.path

abbrev pub http_body : Option HttpServer → Bytes
http_body none = []
http_body (some s) = to_nul s.body

abbrev pub skip_blanks : Bytes → Bytes
skip_blanks [] = []
skip_blanks (c ∷ s) = if c == 32 then skip_blanks s else c ∷ s

abbrev pub to_line_end : Bytes → Bytes
to_line_end p = elim (strstr p crlf) [ none ↦ p | some k ↦ take k p ]

-- `vader_http_header`; the needle has 255 bytes at most.
unfoldable pub http_header : Option HttpServer → Bytes → Bytes
http_header none name = []
http_header (some s) name =
    let needle = take 255 (crlf ++ (name ++ b':' ∷ [])) in
    elim (strcasestr s.headers needle) [
      | none ↦ []
      | some k ↦ to_line_end (skip_blanks (drop (length needle) (drop k s.headers)))
    ]

abbrev pub reason : ℤ → Bytes
reason status =
    if int_eq status (pos 200)
    then codes "OK"
    else if int_eq status (pos 201)
    then codes "Created"
    else if int_eq status (pos 204)
    then codes "No Content"
    else if int_eq status (pos 400)
    then codes "Bad Request"
    else if int_eq status (pos 401)
    then codes "Unauthorized"
    else if int_eq status (pos 404)
    then codes "Not Found"
    else if int_eq status (pos 500)
    then codes "Internal Server Error"
    else codes "OK"

-- What `h_write_all` is given of a text that `snprintf` formats into an array of `size` bytes, with the length
-- of the whole text as its count: what does not fit is cut and a NUL put behind the rest, and the bytes
-- beyond the array are those of the stack, `stack i` the one at `i` bytes from its end.
unfoldable pub beyond : (ℕ → ℕ) → ℕ → ℕ → Bytes
beyond stack i zero = []
beyond stack i (suc n) = stack i ∷ beyond stack (suc i) n

unfoldable pub printed : (ℕ → ℕ) → ℕ → Bytes → Bytes
unfolding beyond
printed stack size text =
    if ltb (length text) size
    then text
    else take (size - 1) text ++ 0 ∷ beyond stack 0 (length text - size)

-- The text that is formatted into `head`; a CRLF before each line but the first.
unfoldable pub response_head : ℤ → Bytes → Bytes → Bytes
response_head status ctype body =
    (codes "HTTP/1.1 " ++ (print_int status ++ 32 ∷ reason status))
    ++ (crlf
        ++ (codes "Content-Type: "
            ++ ctype
            ++ (crlf
                ++ (codes "Content-Length: "
                    ++ digits (length body)
                    ++ (crlf ++ (codes "Connection: close" ++ (crlf ++ crlf)))))))

-- `vader_http_respond`: the server, and the connection that was closed.
unfoldable pub http_respond :
    (ℕ → ℕ) → Option HttpServer → ℤ → Bytes → Bytes → Option HttpServer × Option Wire
unfolding printed
http_respond stack none status ctype body = (none, none)
http_respond stack (some s) status ctype body = elim s.cfd [
  | none ↦ (some s, none)
  | some w ↦ (
    some (record s { cfd = none }),
    some (send body (send (printed stack 1024 (response_head status ctype body)) w).1).1,
  )
]

abbrev pub http_json : (ℕ → ℕ) → Option HttpServer → ℤ → Bytes → Option HttpServer × Option Wire
http_json stack s status body = http_respond stack s status (codes "application/json") body

abbrev pub http_text : (ℕ → ℕ) → Option HttpServer → ℤ → Bytes → Option HttpServer × Option Wire
http_text stack s status body = http_respond stack s status (codes "text/plain; charset=utf-8") body
