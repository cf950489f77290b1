-- ===== src/Http/Requests.antt =====
-- runtime/vader_http.c: what the client requests and what the server reads of it.
pub mod Fields
pub mod Heads
pub mod Gather
pub mod Words
pub mod Lines
pub mod Sizes
use mathlib.Core.Path.{subst}
use vader_langue.Prelude.{
  ℕ, ◌+◌, ◌-◌, ◌≡◌, ◌<◌, ◌≤◌, refl, ap, sym, ◌∙◌, arith, Bool, true, Option, none, some, List, [],
  ◌∷◌, ◌++◌, append-nil, Bytes, codes, length, length-append, take, drop, take-all,
  drop-length-append, ℤ, pos, append_assoc,
}
use vader_langue.Libc.{digits}
use vader_langue.Net.{Wire, send, to_nul}
use vader_langue.Net.Transfer.{flat, Flows, send-true}
use vader_langue.Http.{
  HttpServer, http_accept, parsed, with_body, gather, crlf, read_upto, scan_word, strcasestr,
  length_at,
}
use vader_langue.Http.Responses.{printed-fits}
use vader_langue.Http.Client.{Url, requested, request_head, content_type}
use vader_langue.Http.Requests.Fields.{body_length}
use vader_langue.Http.Requests.Heads.{IsWhole}
use vader_langue.Http.Requests.Gather.{Has, gather-Has, read_upto-flat, to_nul-append}
use vader_langue.Http.Requests.Words.{scan_word-append, scan_word-blank}
use vader_langue.Http.Requests.Lines.{
  IsPlain, opening, closing, typed_lines, opening-append, opening-IsWhole, closing-IsWhole,
  typed_lines-IsWhole, request_head-none, request_head-some,
}
use vader_langue.Http.Requests.Sizes.{length-closing, length-typed_lines}

abbrev pub text_of : Option Bytes → Bytes
text_of none = []
text_of (some body) = body

request_head-IsWhole :
    (method : Bytes) (u : Url) (ctype content : Option Bytes)
    → IsPlain method u ctype
    → IsWhole (request_head method u ctype content)
request_head-IsWhole method u ctype none p =
    subst IsWhole (sym (request_head-none method u ctype))
      (opening-IsWhole method u ctype closing p closing-IsWhole)
request_head-IsWhole method u ctype (some body) p =
    subst IsWhole (sym (request_head-some method u ctype body)) (
      opening-IsWhole method u ctype
        (typed_lines (content_type ctype) (digits (length body)) closing) p
        (typed_lines-IsWhole (content_type ctype) (length body) closing p.type_field
          closing-IsWhole))

-- What stands in the server's buffer: the request line, and the length of the body.
record IsRequest (method : Bytes) (u : Url) (size : ℕ) (text : Bytes) : Type 0 where
  more : Bytes
  is_opening : text ≡ opening method u more
  sized : body_length text ≡ pos size

request_head-IsRequest :
    (method : Bytes) (u : Url) (ctype content : Option Bytes) (t : Bytes)
    → IsPlain method u ctype
    → length t ≤ length (text_of content)
    → IsRequest method u (length (text_of content)) (request_head method u ctype content ++ t)
request_head-IsRequest method u ctype none [] p l =
    let same = append-nil (request_head method u ctype none) ∙ request_head-none method u ctype in
    record {
      more = closing;
      is_opening = same;
      sized = ap body_length same ∙ length-closing method u ctype p;
    }
request_head-IsRequest method u ctype none (x ∷ t) p l = absurd (omega arith)
request_head-IsRequest method u ctype (some body) t p l =
    let number = digits (length body) in
    let kind = content_type ctype in
    let same : request_head method u ctype (some body) ++ t
        ≡ opening method u (typed_lines kind number (closing ++ t)) =
      ap (λ s. s ++ t) (request_head-some method u ctype body)
      ∙ opening-append method u (typed_lines kind number closing) t
      ∙ simp (append_assoc) in
    record {
      more = typed_lines kind number (closing ++ t);
      is_opening = same;
      sized =
          ap body_length same
          ∙ length-typed_lines method u ctype (length body)
              (codes "Connection: close" ++ (crlf ++ (crlf ++ t))) p;
    }

-- The words of the request line and the length go to the body's reader.
parsed-opening :
    (s : HttpServer) (w : Wire) (method : Bytes) (u : Url) (ctype : Option Bytes) (size n : ℕ)
    (buf begun : Bytes) (rest : List Bytes)
    → IsPlain method u ctype
    → IsRequest method u n (to_nul buf)
    → drop (size + 4) buf ≡ begun
    → parsed s w (buf, some size, rest)
      ≡ with_body w method u.path (take size buf) begun (pos n) rest
parsed-opening s w method u ctype size n buf begun rest p r e =
    let third = codes "HTTP/1.1" ++ (crlf ++ (codes "Host: " ++ (u.host ++ r.more))) in
    let first : scan_word 15 (to_nul buf) ≡ (method, 32 ∷ (u.path ++ 32 ∷ third)) =
      ap (scan_word 15) r.is_opening
      ∙ scan_word-append 15 method (u.path ++ 32 ∷ third) p.method_word in
    let second : scan_word 2047 (32 ∷ (u.path ++ 32 ∷ third)) ≡ (u.path, 32 ∷ third) =
      scan_word-blank 2047 (u.path ++ 32 ∷ third)
      ∙ scan_word-append 2047 u.path third p.path_word in
    ap
      (λ (t : Bytes × Bytes).
        with_body w t.0 (scan_word 2047 t.1).0 (take size buf) (drop (size + 4) buf)
          (body_length (to_nul buf)) rest)
      first
    ∙ ap
        (λ (t : Bytes × Bytes).
          with_body w method t.0 (take size buf) (drop (size + 4) buf) (body_length (to_nul buf))
            rest)
        second
    ∙ ap (λ b. with_body w method u.path (take size buf) b (body_length (to_nul buf)) rest) e
    ∙ ap (λ n. with_body w method u.path (take size buf) begun n rest) r.sized

to_nul-short : (s : Bytes) → length (to_nul s) ≤ length s
to_nul-short [] = omega arith
to_nul-short (c ∷ s) = ground (arith, to_nul-short s)

abbrev answer : Option HttpServer → Option (Bool × HttpServer)
answer t = elim t [ none ↦ none | some t ↦ some (true, t) ]

with_body-whole :
    (w : Wire) (method path headers begun : Bytes) (rest : List Bytes) (body : Bytes)
    → Flows rest
    → begun ++ flat rest ≡ body
    → (t : HttpServer) × (with_body w method path headers begun (pos (length body)) rest ≡ some t)
      × (t.method ≡ method)
      × (t.path ≡ path)
      × (t.body ≡ body)
      × (left : List Bytes) × (t.cfd ≡ some (record w { incoming = left }))
with_body-whole w method path headers begun rest body f e =
    let long = sym (length-append begun (flat rest)) ∙ ap length e in
    let copied : take (length body) begun ≡ begun =
      take-all (length body) begun (omega (arith, long)) in
    (
      _,
      refl,
      refl,
      refl,
      ap (λ c. c ++ (read_upto (length body - length c) rest).0) copied
          ∙ ap (λ r. begun ++ r)
              (read_upto-flat rest (length body - length begun) f (omega (arith, long)))
          ∙ e,
      _,
      refl,
    )

requested-sent :
    (stack : ℕ → ℕ) (method : Bytes) (u : Url) (ctype content : Option Bytes) (c : Wire)
    → length (request_head method u ctype content) < 8192
    → c.sent ≡ []
    → (send (request_head method u ctype content) c).0 ≡ true
    → (send (text_of content) (send (request_head method u ctype content) c).1).0 ≡ true
    → (requested stack method u ctype content c).sent
      ≡ request_head method u ctype content ++ text_of content
requested-sent stack method u ctype none c l h e f =
    let head = request_head method u ctype none in
    ap (λ t. (send t c).1.sent) (printed-fits stack 8192 head l)
    ∙ send-true head c e
    ∙ ap (λ t. t ++ head) h
    ∙ sym (append-nil head)
requested-sent stack method u ctype (some body) c l h e f =
    let head = request_head method u ctype (some body) in
    ap (λ t. (send body (send t c).1).1.sent) (printed-fits stack 8192 head l)
    ∙ send-true body (send head c).1 f
    ∙ ap (λ t. t ++ body) (send-true head c e ∙ ap (λ t. t ++ head) h)

-- A server that accepts a connection reads the method, the path and the body that a client has sent
-- on a fresh connection, in whatever pieces they arrive, and has not used the connection but to read.
-- This holds if the client's writes have not failed, the method has 1 to 15 bytes and the path 1 to
-- 2047, both without blanks, control characters and colons, no control character or colon stands in
-- the host and the content type, the head is shorter than 8192 bytes, and no read ends early.
pub http_accept-requested :
    (stack : ℕ → ℕ) (s : HttpServer) (w c : Wire) (method : Bytes) (u : Url)
    (ctype content : Option Bytes)
    → IsPlain method u ctype
    → length (request_head method u ctype content) < 8192
    → c.sent ≡ []
    → (send (request_head method u ctype content) c).0 ≡ true
    → (send (text_of content) (send (request_head method u ctype content) c).1).0 ≡ true
    → Flows w.incoming
    → flat w.incoming ≡ (requested stack method u ctype content c).sent
    → (t : HttpServer) × (http_accept s (some w) ≡ some (true, t))
      × (t.method ≡ method)
      × (t.path ≡ u.path)
      × (t.body ≡ text_of content)
      × (left : List Bytes) × (t.cfd ≡ some (record w { incoming = left }))
unfolding http_accept
http_accept-requested stack s w c method u ctype content p small fresh head_ok body_ok f e =
    let head = request_head method u ctype content in
    let body = text_of content in
    let whole = request_head-IsWhole method u ctype content p in
    let g =
      gather-Has head body whole (omega arith) 65536 [] w.incoming f
        (e ∙ requested-sent stack method u ctype content c small fresh head_ok body_ok)
        (omega (arith, whole.long)) (omega arith) in
    let short : length (to_nul g.begun) ≤ length body =
      omega
        (arith, to_nul-short g.begun, length-append g.begun (flat g.rest), ap length g.joined) in
    let text : to_nul (head ++ g.begun) ≡ head ++ to_nul g.begun =
      to_nul-append head g.begun whole.no_nul in
    let behind : drop (whole.size + 4) (head ++ g.begun) ≡ g.begun =
      ap (λ n. drop n (head ++ g.begun)) (sym whole.long) ∙ drop-length-append head g.begun in
    let r =
      subst (IsRequest method u (length body)) (sym text)
        (request_head-IsRequest method u ctype content (to_nul g.begun) p short) in
    let (t, is, m, q, b, left, o) =
      with_body-whole w method u.path (take whole.size (head ++ g.begun)) g.begun g.rest body
        g.flows g.joined in
    (
      t,
      ap answer (
          ap (parsed s w) g.gathered
          ∙ parsed-opening s w method u ctype whole.size (length body) (head ++ g.begun) g.begun
              g.rest p r behind
          ∙ is),
      m,
      q,
      b,
      left,
      o,
    )
