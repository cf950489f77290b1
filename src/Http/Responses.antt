-- ===== src/Http/Responses.antt =====
-- What the server responds and what the client reads of it.
use vader_langue.Prelude.{
  ℕ, suc, zero, ◌+◌, ◌/◌, ◌%◌, Bool-cases, inl, inr, int_eq, ltb, ◌≡◌, ◌<◌, refl, ap, sym, ◌∙◌,
  lt→ltb, arith, Bool, true, false, Option, none, some, List, [], ◌∷◌, ◌++◌, append_assoc, All,
  All-append, Bytes, codes, ne→==, if◌then◌else◌, length, drop, ℤ, pos,
}
use vader_langue.Libc.{strstr, is_prefix, digits, digits_fuel, print_int}
use vader_langue.Net.{Wire, send, to_nul}
use vader_langue.Net.Transfer.{flat, Flows, send-true}
use vader_langue.Net.Dsn.Parts.{Without}
use vader_langue.Http.{HttpServer, http_respond, crlf, response_head, reason, printed}
use vader_langue.Http.Client.{
  read_rest, behind_head, response_body, url_of, for_url, http_request, exchange, Url, requested,
}

abbrev pub blank_line : Bytes
blank_line = 13 ∷ 10 ∷ 13 ∷ 10 ∷ []

-- The text `s` has its first blank line just before `body`.
abbrev Ends : Bytes → Bytes → Type 0
Ends s body = (k : ℕ) × (strstr s blank_line ≡ some k) × (drop 4 (drop k s) ≡ body)

-- Text without control characters.
abbrev pub Printable : Bytes → Type 0
Printable = All (λ x. 13 < x)

Ends-blank_line : (body : Bytes) → Ends (blank_line ++ body) body
Ends-blank_line body = (0, (unfold strstr is_prefix in refl), refl)

Ends-step :
    (c : ℕ) (s body : Bytes)
    → is_prefix blank_line (c ∷ s) ≡ false
    → Ends s body
    → Ends (c ∷ s) body
Ends-step c s body h (k, e, r) = (suc k, (unfold strstr in rw (h, e) refl), r)

Ends-Printable : (a s body : Bytes) → Printable a → Ends s body → Ends (a ++ s) body
Ends-Printable [] s body h e = e
Ends-Printable (c ∷ a) s body h e =
    Ends-step c (a ++ s) body (unfold is_prefix in rw (ne→== 13 c (λ q. omega (arith, h.0))) refl)
      (Ends-Printable a s body h.1 e)

-- A line that is not empty, behind its CRLF.
Ends-line :
    (c : ℕ) (a s body : Bytes)
    → Printable (c ∷ a)
    → Ends s body
    → Ends (crlf ++ ((c ∷ a) ++ s)) body
Ends-line c a s body h e =
    Ends-step 13 (10 ∷ ((c ∷ a) ++ s)) body
      (unfold is_prefix in rw (ne→== 13 c (λ q. omega (arith, h.0))) refl)
      (Ends-step 10 ((c ∷ a) ++ s) body (unfold is_prefix in refl)
        (Ends-Printable (c ∷ a) s body h e))

digits_fuel-Printable : (f n : ℕ) → Printable (digits_fuel f n)
unfolding digits_fuel
digits_fuel-Printable zero n = (omega arith, tt)
digits_fuel-Printable (suc f) n = elim (Bool-cases (ltb n 10)) [
  | inl e ↦ rw e (omega arith, tt)
  | inr e ↦ rw e (
      All-append (λ x. 13 < x) (digits_fuel f (n / 10)) ((48 + n % 10) ∷ [])
        (digits_fuel-Printable f (n / 10)) (omega arith, tt))
]

pub digits-Printable : (n : ℕ) → Printable (digits n)
unfolding digits
digits-Printable n = digits_fuel-Printable n n

Printable-if : (b : Bool) (s t : Bytes) → Printable s → Printable t → Printable (if b then s else t)
Printable-if true s t hs ht = hs
Printable-if false s t hs ht = ht

reason-Printable : (n : ℕ) → Printable (reason (pos n))
reason-Printable n = Printable-if (int_eq (pos n) (pos 200)) _ _ (ground arith) (
    Printable-if (int_eq (pos n) (pos 201)) _ _ (ground arith) (
      Printable-if (int_eq (pos n) (pos 204)) _ _ (ground arith) (
        Printable-if (int_eq (pos n) (pos 400)) _ _ (ground arith) (
          Printable-if (int_eq (pos n) (pos 401)) _ _ (ground arith) (
            Printable-if (int_eq (pos n) (pos 404)) _ _ (ground arith)
              (Printable-if (int_eq (pos n) (pos 500)) _ _ (ground arith) (ground arith)))))))

to_nul-Printable : (a s : Bytes) → Printable a → to_nul (a ++ s) ≡ a ++ to_nul s
to_nul-Printable [] s h = refl
to_nul-Printable (c ∷ a) s h =
    rw (ne→== c 0 (λ q. omega (arith, h.0))) (ap (λ l. c ∷ l) (to_nul-Printable a s h.1))

pub to_nul-Without : (s : Bytes) → Without 0 s → to_nul s ≡ s
to_nul-Without [] h = refl
to_nul-Without (c ∷ s) h = rw (ne→== c 0 h.0) (ap (λ l. c ∷ l) (to_nul-Without s h.1))

-- A head: the body begins at its end.
abbrev IsHead : Bytes → Type 0
IsHead h = (body : Bytes) → Without 0 body → Ends (to_nul (h ++ body)) body

blank_line-IsHead : IsHead blank_line
blank_line-IsHead body hb = rw (to_nul-Without body hb) (Ends-blank_line body)

Printable-IsHead : (a h : Bytes) → Printable a → IsHead h → IsHead (a ++ h)
Printable-IsHead a h ha hh body hb =
    rw (append_assoc a h body, to_nul-Printable a (h ++ body) ha)
      (Ends-Printable a (to_nul (h ++ body)) body ha (hh body hb))

line-IsHead : (c : ℕ) (a h : Bytes) → Printable (c ∷ a) → IsHead h → IsHead (crlf ++ ((c ∷ a) ++ h))
line-IsHead c a h ha hh body hb =
    rw
      (
        append_assoc a h body,
        ne→== c 0 (λ q. omega (arith, ha.0)),
        to_nul-Printable a (h ++ body) ha.1,
      )
      (Ends-line c a (to_nul (h ++ body)) body ha (hh body hb))

response_head-IsHead :
    (n : ℕ) (ctype body : Bytes) → Printable ctype → IsHead (response_head (pos n) ctype body)
unfolding response_head print_int
response_head-IsHead n ctype body hc =
    let four = codes "Connection: close" ++ blank_line in
    let three = codes "Content-Length: " ++ (digits (length body) ++ (crlf ++ four)) in
    let last : IsHead (crlf ++ four) =
      line-IsHead b'C' (codes "onnection: close") blank_line (ground arith) blank_line-IsHead in
    let third : IsHead (crlf ++ three) =
      line-IsHead b'C' (codes "ontent-Length: ") (digits (length body) ++ (crlf ++ four))
        (ground arith)
        (Printable-IsHead (digits (length body)) (crlf ++ four) (digits-Printable (length body))
          last) in
    let second : IsHead (crlf ++ (codes "Content-Type: " ++ (ctype ++ (crlf ++ three)))) =
      line-IsHead b'C' (codes "ontent-Type: ") (ctype ++ (crlf ++ three)) (ground arith)
        (Printable-IsHead ctype (crlf ++ three) hc third) in
    Printable-IsHead (codes "HTTP/1.1 " ++ (digits n ++ 32 ∷ reason (pos n)))
      (crlf ++ (codes "Content-Type: " ++ (ctype ++ (crlf ++ three))))
      (All-append (λ x. 13 < x) (codes "HTTP/1.1 ") (digits n ++ 32 ∷ reason (pos n)) (ground arith)
        (All-append (λ x. 13 < x) (digits n) (32 ∷ reason (pos n)) (digits-Printable n)
          (omega arith, reason-Printable n)))
      second

response_body-response_head :
    (n : ℕ) (ctype body : Bytes)
    → Printable ctype
    → Without 0 body
    → response_body (response_head (pos n) ctype body ++ body) ≡ body
unfolding response_body
response_body-response_head n ctype body hc hb =
    let (k, e, r) = response_head-IsHead n ctype body hc body hb in
    ap (behind_head (to_nul (response_head (pos n) ctype body ++ body))) e ∙ r

read_rest-flat : (pieces : List Bytes) → Flows pieces → read_rest pieces ≡ flat pieces
unfolding read_rest flat
read_rest-flat [] h = refl
read_rest-flat ([] ∷ pieces) h = absurd (omega arith)
read_rest-flat ((x ∷ c) ∷ pieces) h = ap (λ l. (x ∷ c) ++ l) (read_rest-flat pieces h.1)

requested_incoming :
    (stack : ℕ → ℕ) (method : Bytes) (u : Url) (ctype content : Option Bytes) (w : Wire)
    → (requested stack method u ctype content w).incoming ≡ w.incoming
unfolding send
requested_incoming stack method u ctype none w = refl
requested_incoming stack method u ctype (some body) w = refl

-- A text that fits its array is written as it is.
pub printed-fits :
    (stack : ℕ → ℕ) (size : ℕ) (text : Bytes) → length text < size → printed stack size text ≡ text
unfolding printed
printed-fits stack size text h = rw (lt→ltb (length text) size h) refl

-- A server that has sent nothing and responds without an error, with a head that fits its array.
pub record Responds (stack : ℕ → ℕ) (s : HttpServer) (n : ℕ) (ctype body : Bytes) (c : Wire)
    : Type 0 where
  pub fits : length (response_head (pos n) ctype body) < 1024
  pub open_fd : Wire
  pub is_open : s.cfd ≡ some open_fd
  pub fresh : open_fd.sent ≡ []
  pub head_sent : (send (response_head (pos n) ctype body) open_fd).0 ≡ true
  pub body_sent : (send body (send (response_head (pos n) ctype body) open_fd).1).0 ≡ true
  pub closed : (http_respond stack (some s) (pos n) ctype body).1 ≡ some c

Responds-sent :
    (stack : ℕ → ℕ) (s : HttpServer) (n : ℕ) (ctype body : Bytes) (c : Wire)
    → Responds stack s n ctype body c
    → c.sent ≡ response_head (pos n) ctype body ++ body
Responds-sent stack s n ctype body c h =
    let head = response_head (pos n) ctype body in
    let w1 = (send head h.open_fd).1 in
    let last : some c ≡ some (send body w1).1 =
      sym h.closed
      ∙ unfold http_respond in rw (h.is_open, printed-fits stack 1024 head h.fits) refl in
    let same : c ≡ (send body w1).1 = cc last in
    ap (λ w. w.sent) same
    ∙ send-true body w1 h.body_sent
    ∙ ap (λ t. t ++ body) (send-true head h.open_fd h.head_sent ∙ ap (λ t. t ++ head) h.fresh)

-- A client whose socket is connected gets the body that the server has responded with, if the status
-- is not negative, the response's head is shorter than 1024 bytes, the server's writes have not failed, the body holds no NUL, the content type
-- holds no control character, and no read ends early; in whatever pieces the response arrives.
pub http_request-http_respond :
    (client_stack stack : ℕ → ℕ) (dial : Bytes → ℤ → Option Wire) (method url : Bytes)
    (sent_type content : Option Bytes) (u : Url) (w : Wire)
    → (s : HttpServer) (n : ℕ) (ctype body : Bytes) (c : Wire) → url_of url ≡ some u
    → dial u.host u.port ≡ some w
    → Responds stack s n ctype body c
    → Printable ctype
    → Without 0 body
    → Flows w.incoming
    → flat w.incoming ≡ c.sent
    → http_request client_stack dial method url sent_type content ≡ body
unfolding http_request
http_request-http_respond client_stack stack dial method url sent_type content u w s n ctype body c
      hu hd hs hc hb hf e =
    ap (for_url client_stack dial method sent_type content) hu
    ∙ ap (exchange client_stack method u sent_type content) hd
    ∙ ap (λ p. response_body (read_rest p))
        (requested_incoming client_stack method u sent_type content w)
    ∙ ap response_body (read_rest-flat w.incoming hf ∙ e ∙ Responds-sent stack s n ctype body c hs)
    ∙ response_body-response_head n ctype body hc hb
