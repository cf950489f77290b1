-- ===== src/Router/Serving.antt =====
-- runtime/vader_router.c with the server of runtime/vader_http.c: `vader_router_serve` behind
-- `vader_http_listen`, and a client of it.
use vader_langue.Prelude.{
  ℕ, ◌≡◌, ◌<◌, refl, ap, ◌∙◌, Bool, true, false, Option, none, some, List, [], ◌∷◌, Bytes, codes,
  length, ℤ, pos,
}
use vader_langue.Net.{Wire, send, to_nul}
use vader_langue.Net.Transfer.{flat, Flows}
use vader_langue.Net.Dsn.Parts.{Without}
use vader_langue.Http.{
  HttpServer, http_accept, http_method, http_path, http_body, http_respond, http_json,
  response_head,
}
use vader_langue.Http.Client.{Url, url_of, requested, request_head, http_request}
use vader_langue.Http.Responses.{
  Printable, Responds, http_request-http_respond, to_nul-Without, printed-fits,
}
use vader_langue.Http.Requests.{http_accept-requested, text_of}
use vader_langue.Http.Requests.Lines.{IsPlain}
use vader_langue.Router.{Router, serve_one, matching}

-- The server, and the connections that it has closed, the last one first.
pub record World : Type 0 where
  pub server : HttpServer
  pub closed : List Wire

abbrev pub responded : World → Option HttpServer × Option Wire → World
responded w (none, k) = w
responded w (some s, none) = record w { server = s }
responded w (some s, some k) = record { server = s; closed = k ∷ w.closed }

-- `stack` is what lies behind the head of a response.
abbrev pub not_found : (ℕ → ℕ) → World → World
not_found stack w =
    responded w (http_json stack (some w.server) (pos 404) (codes "{\"error\":\"not found\"}"))

-- A handler that responds with what it makes of the request's body.
abbrev pub responding : (ℕ → ℕ) → ℤ → Bytes → (Bytes → Bytes) → World → World
responding stack status ctype answer w =
    responded w
      (http_respond stack (some w.server) status ctype (answer (http_body (some w.server))))

abbrev pub dispatched :
    (ℕ → ℕ) → Router World → World → Option (Bool × HttpServer) → Option (Bool × World)
dispatched stack r w none = none
dispatched stack r w (some (false, s)) = some (false, record w { server = s })
dispatched stack r w (some (true, s)) = some (
  true,
  serve_one r (not_found stack) (http_method (some s), http_path (some s))
      (record w { server = s }),
)

-- One round of the loop, with what `accept` gives: whether the loop goes on.
unfoldable pub serve_round : (ℕ → ℕ) → Router World → Option Wire → World → Option (Bool × World)
serve_round stack r conn w = dispatched stack r w (http_accept w.server conn)

abbrev pub after_round : (World → Option World) → Option (Bool × World) → Option World
after_round again none = none
after_round again (some (false, w)) = some w
after_round again (some (true, w)) = again w

-- The loop of `vader_router_serve` over what `accept` gives each time.
unfoldable pub serving : (ℕ → ℕ) → Router World → List (Option Wire) → World → Option World
serving stack r [] w = some w
serving stack r (conn ∷ conns) w = after_round (serving stack r conns) (serve_round stack r conn w)

-- What the last connection that was closed has sent.
abbrev pub last_sent : List Wire → Bytes
last_sent [] = []
last_sent (k ∷ closed) = k.sent

abbrev pub answered_with : Option (Bool × World) → Bytes
answered_with none = []
answered_with (some (ok, w)) = last_sent w.closed

-- What a client sends on a connection that takes all of it, in the pieces in which the server gets it.
pub record Asks (stack : ℕ → ℕ) (c w : Wire) (method : Bytes) (u : Url)
    (ctype content : Option Bytes) : Type 0 where
  pub plain : IsPlain method u ctype
  pub short : length (request_head method u ctype content) < 8192
  pub silent : c.sent ≡ []
  pub head_taken : (send (request_head method u ctype content) c).0 ≡ true
  pub body_taken :
      (send (text_of content) (send (request_head method u ctype content) c).1).0 ≡ true
  pub flows : Flows w.incoming
  pub arrived : flat w.incoming ≡ (requested stack method u ctype content c).sent

-- A connection of the server that takes a whole response.
pub record Takes (w : Wire) (n : ℕ) (stype body : Bytes) : Type 0 where
  pub fits : length (response_head (pos n) stype body) < 1024
  pub silent : w.sent ≡ []
  pub head_taken : (send (response_head (pos n) stype body) w).0 ≡ true
  pub body_taken : (send body (send (response_head (pos n) stype body) w).1).0 ≡ true

serve_one-found :
    (stack : ℕ → ℕ) (r : Router World) (m p : Bytes) (w : World) (f : World → World)
    → matching r.routes m p ≡ some f
    → serve_one r (not_found stack) (m, p) w ≡ f w
unfolding serve_one
serve_one-found stack r m p w f h = rw (h, serve_one) refl

serve_round-found :
    (stack : ℕ → ℕ) (r : Router World) (conn : Wire) (w : World) (t : HttpServer)
    (f : World → World)
    → http_accept w.server (some conn) ≡ some (true, t)
    → matching r.routes t.method t.path ≡ some f
    → serve_round stack r (some conn) w ≡ some (true, f (record w { server = t }))
unfolding serve_round
serve_round-found stack r conn w t f e m =
    ap (dispatched stack r w) e
    ∙ ap (λ v. some (true, v))
        (serve_one-found stack r t.method t.path (record w { server = t }) f m)

-- The connection that is closed when an accepted request has been answered.
answered-Responds :
    (stack : ℕ → ℕ) (t : HttpServer) (conn : Wire) (left : List Bytes) (n : ℕ) (stype body : Bytes)
    → t.cfd ≡ some (record conn { incoming = left })
    → Takes conn n stype body
    → (k : Wire) × Responds stack t n stype body k
unfolding http_respond send
answered-Responds stack t conn left n stype body o h =
    let open_fd = record conn { incoming = left } in
    let k = (send body (send (response_head (pos n) stype body) open_fd).1).1 in
    (
      k,
      record {
        fits = h.fits;
        open_fd = open_fd;
        is_open = o;
        fresh = h.silent;
        head_sent = h.head_taken;
        body_sent = h.body_taken;
        closed = rw (o, printed-fits stack 1024 (response_head (pos n) stype body) h.fits) refl;
      },
    )

responded-closed :
    (w : World) (s : HttpServer) (p : Option HttpServer × Option Wire) (k : Wire)
    → p.0 ≡ some s
    → p.1 ≡ some k
    → last_sent (responded w p).closed ≡ k.sent
responded-closed w s (none, k') k h e = cc
responded-closed w s (some s', none) k h e = cc
responded-closed w s (some s', some k') k h e = let same : k' ≡ k = cc in ap (λ k. k.sent) same

respond-closed :
    (stack : ℕ → ℕ) (w : World) (t : HttpServer) (n : ℕ) (stype body : Bytes) (k : Wire)
    → Responds stack t n stype body k
    → last_sent (responded w (http_respond stack (some t) (pos n) stype body)).closed ≡ k.sent
unfolding http_respond
respond-closed stack w t n stype body k h =
    responded-closed w (record t { cfd = none }) (http_respond stack (some t) (pos n) stype body) k
      (rw h.is_open refl) h.closed

-- A client's request goes through the server and the router to the handler, and the handler's answer
-- back to the client: the round of the server ends with the loop going on, and the client's call
-- returns what the handler makes of the request's body. This holds when the first route for the
-- method and the path has a handler that responds with a status that is not negative, both ends of
-- the connection are fresh and take what is written to them, the request is one that the server
-- reads back (`IsPlain`, with a head shorter than 8192 bytes), the response's type holds no control
-- character, its head is shorter than 1024 bytes, no NUL stands in either body, no read ends early, and what arrives at the client is
-- what the server has sent, in whatever pieces.
pub http_request-serve_round :
    (client_stack stack : ℕ → ℕ) (r : Router World) (w : World) (conn c : Wire)
    (dial : Bytes → ℤ → Option Wire) (method url : Bytes) (u : Url) (ctype content : Option Bytes)
    (n : ℕ) (stype : Bytes) (answer : Bytes → Bytes)
    → url_of url ≡ some u
    → dial u.host u.port ≡ some c
    → Asks client_stack c conn method u ctype content
    → matching r.routes method u.path ≡ some (responding stack (pos n) stype answer)
    → Takes conn n stype (answer (text_of content))
    → Printable stype
    → Without 0 (text_of content)
    → Without 0 (answer (text_of content))
    → Flows c.incoming
    → flat c.incoming ≡ answered_with (serve_round stack r (some conn) w)
    → (v : World) × (serve_round stack r (some conn) w ≡ some (true, v))
      × (http_request client_stack dial method url ctype content ≡ answer (text_of content))
http_request-serve_round client_stack stack r w conn c dial method url u ctype content n stype
      answer hu hd a m k hs h0 h1 f e =
    let (t, is, tm, tp, tb, left, o) =
      http_accept-requested client_stack w.server conn c method u ctype content a.plain a.short
        a.silent a.head_taken a.body_taken a.flows a.arrived in
    let body : http_body (some t) ≡ text_of content =
      ap to_nul tb ∙ to_nul-Without (text_of content) h0 in
    let handled = responding stack (pos n) stype answer (record w { server = t }) in
    let is_round : serve_round stack r (some conn) w ≡ some (true, handled) =
      serve_round-found stack r conn w t (responding stack (pos n) stype answer) is
        (ap (λ x. matching r.routes x t.path) tm ∙ ap (matching r.routes method) tp ∙ m) in
    let (k1, resp) = answered-Responds stack t conn left n stype (answer (text_of content)) o k in
    let sent : flat c.incoming ≡ k1.sent =
      e
      ∙ ap answered_with is_round
      ∙ ap
          (λ b.
            last_sent
              (responded (record w { server = t })
                (http_respond stack (some t) (pos n) stype (answer b))).closed)
          body
      ∙ respond-closed stack (record w { server = t }) t n stype (answer (text_of content)) k1
          resp in
    (
      handled,
      is_round,
      http_request-http_respond client_stack stack dial method url ctype content u c t n stype
          (answer (text_of content)) k1 hu hd resp hs h1 f sent,
    )
