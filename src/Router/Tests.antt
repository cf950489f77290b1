-- ===== src/Router/Tests.antt =====
-- runtime/vader_router.c: a table of two routes, on a log of what was answered.
use vader_langue.Prelude.{
  ℕ, ◌≡◌, refl, arith, true, List, [], ◌∷◌, ◌++◌, Bytes, codes, some, none, ◌&&◌, bytes_eq,
  if◌then◌else◌, pos, take, drop,
}
use vader_langue.Libc.{
  strstr, strchr, atoll, is_prefix, to_lower, digits, digits_fuel, print_int, skip_space,
  scan_digits,
}
use vader_langue.Net.{Wire, send, write_all}
use vader_langue.Net.Transfer.{flat}
use vader_langue.Http.{printed, http_accept, http_respond, response_head, gather, read_upto}
use vader_langue.Http.Client.{Url, url_of, http_request, request_head}
use vader_langue.Router.Serving.{
  World, responding, Asks, Takes, serve_round, http_request-serve_round,
}
use vader_langue.Router.{Router, new, add, matching, serve, serve_one}
use vader_langue.Router.Dispatch.{or_else, matching-add}

abbrev one : Router (List ℕ)
one = add new (codes "GET") (codes "/") (λ w. 1 ∷ w)

serve_three :
    serve one
      (λ w. 404 ∷ w)
      ((codes "GET", codes "/") ∷ (codes "POST", codes "/") ∷ (codes "GET", codes "/x") ∷ [])
      []
    ≡ 404 ∷ 404 ∷ 1 ∷ []
unfolding serve serve_one add
serve_three = refl

matching-add_example :
    matching (add one (codes "GET") (codes "/x") (λ w. 2 ∷ w)).routes (codes "GET") (codes "/x")
    ≡ or_else (matching one.routes (codes "GET") (codes "/x")) (
        if bytes_eq (codes "GET") (codes "GET") && bytes_eq (codes "/x") (codes "/x")
        then some (λ w. 2 ∷ w)
        else none)
matching-add_example =
    matching-add one (codes "GET") (codes "/x") (λ w. 2 ∷ w) (codes "GET") (codes "/x")

abbrev empty : Router ℕ
empty = new

-- A route that answers with the body and an exclamation mark, on the way from a client and back.
abbrev shout : Bytes → Bytes
shout body = body ++ b'!' ∷ []

abbrev no_stack : ℕ → ℕ
no_stack i = 0

abbrev shouting : Router World
shouting =
    add new (codes "POST") (codes "/x") (responding no_stack (pos 200) (codes "text/plain") shout)

abbrev page : Url
page = record { host = codes "a"; port = pos 80; path = codes "/x" }

abbrev request : Bytes
request =
    request_head (codes "POST") page (some (codes "text/plain")) (some (codes "hi")) ++ codes "hi"

abbrev response : Bytes
response = response_head (pos 200) (codes "text/plain") (codes "hi!") ++ codes "hi!"

abbrev server_end : Wire
server_end = record {
  incoming = take 90 request ∷ drop 90 request ∷ [];
  accepts = 200 ∷ 100 ∷ [];
  sent = [];
}

abbrev client_end : Wire
client_end = record {
  incoming = take 30 response ∷ drop 30 response ∷ [];
  accepts = 200 ∷ 100 ∷ [];
  sent = [];
}

abbrev waiting : World
waiting = record {
  server = record { cfd = none; method = []; path = []; body = []; headers = [] };
  closed = [];
}

greeting-Asks :
    Asks no_stack client_end server_end
      (codes "POST")
      page
      (some (codes "text/plain"))
      (some (codes "hi"))
unfolding send write_all flat printed request_head digits digits_fuel
greeting-Asks = record {
  plain = record {
    method_word = ground arith;
    path_word = ground arith;
    host_field = ground arith;
    type_field = ground arith;
  };
  short = omega arith;
  silent = refl;
  head_taken = refl;
  body_taken = refl;
  flows = ground arith;
  arrived = refl;
}

greeting-Takes : Takes server_end 200 (codes "text/plain") (codes "hi!")
unfolding send write_all response_head print_int digits digits_fuel
greeting-Takes = record { fits = omega arith; silent = refl; head_taken = refl; body_taken = refl }

http_request-serve_round_example :
    (v : World) × (serve_round no_stack shouting (some server_end) waiting ≡ some (true, v))
    × (http_request no_stack
          (λ host port. some client_end)
          (codes "POST")
          (codes "http://a/x")
          (some (codes "text/plain"))
          (some (codes "hi"))
        ≡ codes "hi!")
unfolding url_of is_prefix strchr add matching serve_round serve_one http_accept gather strstr
    read_upto atoll skip_space scan_digits to_lower http_respond printed send write_all flat
    response_head request_head print_int digits digits_fuel
http_request-serve_round_example =
    http_request-serve_round no_stack no_stack shouting waiting server_end client_end
      (λ host port. some client_end) (codes "POST") (codes "http://a/x") page
      (some (codes "text/plain")) (some (codes "hi")) 200 (codes "text/plain") shout refl refl
      greeting-Asks refl greeting-Takes (ground arith) (ground arith) (ground arith) (ground arith)
      refl
