-- ===== src/Http/Tests.antt =====
-- runtime/vader_http.c: a response and the client that reads it, and a request.
use vader_langue.Prelude.{
  ℕ, ◌≡◌, refl, arith, Bool, true, Option, some, none, List, [], ◌∷◌, ◌++◌, Bytes, codes, pos, take,
  drop,
}
use vader_langue.Libc.{
  strstr, strchr, atoll, is_prefix, to_lower, digits, digits_fuel, print_int, skip_space,
  scan_digits,
}
use vader_langue.Mem.{Heap, align}
use vader_langue.Http.Steady.{Stands, serve_all, serve_all-Stands}
use vader_langue.Net.{Wire, send, write_all}
use vader_langue.Net.Transfer.{flat}
use vader_langue.Http.{
  printed, HttpServer, http_accept, http_respond, response_head, gather, read_upto,
}
use vader_langue.Http.Client.{Url, url_of, http_request, request_head}
use vader_langue.Http.Requests.{http_accept-requested}
use vader_langue.Http.Responses.{Responds, http_request-http_respond}

abbrev nothing : HttpServer
nothing = record { cfd = none; method = []; path = []; body = []; headers = [] }

abbrev open_wire : Wire
open_wire = record { incoming = []; accepts = 100 ∷ 100 ∷ []; sent = [] }

abbrev server : HttpServer
server = record nothing { cfd = some open_wire }

abbrev response : Bytes
response = response_head (pos 200) (codes "text/plain") (codes "hi") ++ codes "hi"

abbrev closed_wire : Wire
closed_wire = record { incoming = []; accepts = []; sent = response }

abbrev answering : Wire
answering = record { incoming = take 30 response ∷ drop 30 response ∷ []; accepts = []; sent = [] }

abbrev page : Url
page = record { host = codes "a"; port = pos 80; path = codes "/x" }

abbrev no_stack : ℕ → ℕ
no_stack i = 0

responds : Responds no_stack server 200 (codes "text/plain") (codes "hi") closed_wire
unfolding http_respond printed response_head send write_all print_int digits digits_fuel
responds = record {
  fits = omega arith;
  open_fd = open_wire;
  is_open = refl;
  fresh = refl;
  head_sent = refl;
  body_sent = refl;
  closed = refl;
}

http_request-http_respond_example :
    http_request no_stack (λ host port. some answering) (codes "GET") (codes "http://a/x") none none
    ≡ codes "hi"
unfolding url_of is_prefix strchr flat response_head print_int digits digits_fuel
http_request-http_respond_example =
    http_request-http_respond no_stack no_stack (λ host port. some answering) (codes "GET")
      (codes "http://a/x") none none page answering server 200 (codes "text/plain") (codes "hi")
      closed_wire refl refl responds (ground arith) (ground arith) (omega arith, (omega arith, tt))
      refl

abbrev request : Wire
request = record {
  incoming =
      (codes "POST /p HTTP/1.1"
        ++ 13 ∷ 10 ∷ (codes "Content-Length: 3" ++ 13 ∷ 10 ∷ 13 ∷ 10 ∷ codes "ab"))
      ∷ codes "cd"
      ∷ [];
  accepts = [];
  sent = [];
}

-- The body is read up to its length, over two pieces.
body_of : Option (Bool × HttpServer) → Bytes
body_of none = []
body_of (some (ok, s)) = s.body

accept_body : body_of (http_accept nothing (some request)) ≡ codes "abc"
unfolding body_of http_accept gather strstr is_prefix to_lower read_upto atoll skip_space
    scan_digits
accept_body = refl

abbrev fresh_wire : Wire
fresh_wire = record { incoming = []; accepts = 200 ∷ 100 ∷ []; sent = [] }

abbrev posted : Bytes
posted =
    request_head (codes "POST") page (some (codes "text/plain")) (some (codes "hi")) ++ codes "hi"

abbrev asking : Wire
asking = record { incoming = take 90 posted ∷ drop 90 posted ∷ []; accepts = []; sent = [] }

http_accept-requested_example :
    (t : HttpServer) × (http_accept nothing (some asking) ≡ some (true, t))
    × (t.method ≡ codes "POST")
    × (t.path ≡ codes "/x")
    × (t.body ≡ codes "hi")
    × (left : List Bytes) × (t.cfd ≡ some (record asking { incoming = left }))
unfolding send write_all flat printed request_head digits digits_fuel
http_accept-requested_example =
    http_accept-requested no_stack nothing asking fresh_wire (codes "POST") page
      (some (codes "text/plain")) (some (codes "hi"))
      (record {
        method_word = ground arith;
        path_word = ground arith;
        host_field = ground arith;
        type_field = ground arith;
      })
      (omega arith) refl refl refl (ground arith) refl

-- An arena with one block that is partly used, and two requests.
abbrev busy : Heap
busy = record {
  mallocs = 1;
  arenas =
      some (record { blocks = record { base = 0; used = 500; cap = 65536 } ∷ []; prev = none })
      ∷ [];
  cur = none;
}

busy-Stands : Stands busy 0 65536 0 1 none
busy-Stands = record {
  front = record { base = 0; used = 500; cap = 65536 };
  behind = [];
  holds = refl;
  wide = refl;
  many = refl;
  calls = refl;
}

serve_all-Stands_example :
    (h : Heap) × (serve_all busy 0 ((pos 100 ∷ pos 200 ∷ []) ∷ (pos 65000 ∷ []) ∷ []) ≡ some h)
    × Stands h 0 65536 0 1 none
unfolding align
serve_all-Stands_example =
    serve_all-Stands ((pos 100 ∷ pos 200 ∷ []) ∷ (pos 65000 ∷ []) ∷ []) busy 0 65536 0 1 none
      busy-Stands (omega arith) (omega arith, (omega arith, tt))
