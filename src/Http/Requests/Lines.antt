-- ===== src/Http/Requests/Lines.antt =====
-- runtime/vader_http.c: the lines of a request's head.
use vader_langue.Prelude.{
  ℕ, ◌≡◌, ◌≢◌, ◌<◌, refl, arith, Option, none, some, [], ◌∷◌, ◌++◌, append_assoc, All, Bytes, codes,
  length,
}
use vader_langue.Libc.{digits}
use vader_langue.Net.Dsn.Parts.{Without}
use vader_langue.Http.{crlf}
use vader_langue.Http.Client.{Url, request_head, content_type}
use vader_langue.Http.Responses.{Printable, blank_line, digits-Printable}
use vader_langue.Http.Requests.Heads.{IsWhole, line-IsWhole, Printable-IsWhole, blank_line-IsWhole}
use vader_langue.Http.Requests.Words.{Solid, IsWord}

-- Text without control characters and colons.
abbrev pub IsField : Bytes → Type 0
IsField = All (λ x. (13 < x) × (x ≢ b':'))

-- The words of the request line fit into the server's arrays, and no colon stands in what the client
-- puts into the head.
pub record IsPlain (method : Bytes) (u : Url) (ctype : Option Bytes) : Type 0 where
  pub method_word : IsWord 15 method
  pub path_word : IsWord 2047 u.path
  pub host_field : IsField u.host
  pub type_field : IsField (content_type ctype)

IsField-Printable : (s : Bytes) → IsField s → Printable s
IsField-Printable [] h = tt
IsField-Printable (x ∷ s) h = (h.0.0, IsField-Printable s h.1)

pub IsField-Without : (s : Bytes) → IsField s → Without b':' s
IsField-Without [] h = tt
IsField-Without (x ∷ s) h = (h.0.1, IsField-Without s h.1)

pub Solid-IsField : (s : Bytes) → Solid s → IsField s
Solid-IsField [] h = tt
Solid-IsField (x ∷ s) h = ((omega (arith, h.0.0), h.0.1), Solid-IsField s h.1)

-- The request line and the host, before what else is in the head.
abbrev pub opening : Bytes → Url → Bytes → Bytes
opening method u t =
    method ++ (32 ∷ u.path ++ (codes " HTTP/1.1" ++ (crlf ++ (codes "Host: " ++ (u.host ++ t)))))

pub opening-append :
    (method : Bytes) (u : Url) (t r : Bytes) → opening method u t ++ r ≡ opening method u (t ++ r)
opening-append method u t r = simp (append_assoc)

-- The lines for a body, and the last one.
abbrev pub closing : Bytes
closing = crlf ++ (codes "Connection: close" ++ (crlf ++ crlf))

abbrev pub typed_lines : Bytes → Bytes → Bytes → Bytes
typed_lines kind number t =
    crlf
    ++ (codes "Content-Type: " ++ (kind ++ (crlf ++ (codes "Content-Length: " ++ (number ++ t)))))

pub request_head-some :
    (method : Bytes) (u : Url) (ctype : Option Bytes) (body : Bytes)
    → request_head method u ctype (some body)
      ≡ opening method u (typed_lines (content_type ctype) (digits (length body)) closing)
unfolding request_head
request_head-some method u ctype body = simp (append_assoc)

pub request_head-none :
    (method : Bytes) (u : Url) (ctype : Option Bytes)
    → request_head method u ctype none ≡ opening method u closing
unfolding request_head
request_head-none method u ctype = refl

pub opening-IsWhole :
    (method : Bytes) (u : Url) (ctype : Option Bytes) (t : Bytes)
    → IsPlain method u ctype
    → IsWhole t
    → IsWhole (opening method u t)
opening-IsWhole method u ctype t p w =
    let host =
      line-IsWhole b'H' (codes "ost: ") (u.host ++ t) (ground arith)
        (Printable-IsWhole u.host t (IsField-Printable u.host p.host_field) w) in
    Printable-IsWhole method
      (32 ∷ u.path ++ (codes " HTTP/1.1" ++ (crlf ++ (codes "Host: " ++ (u.host ++ t)))))
      (IsField-Printable method (Solid-IsField method p.method_word.0))
      (Printable-IsWhole (32 ∷ u.path)
        (codes " HTTP/1.1" ++ (crlf ++ (codes "Host: " ++ (u.host ++ t))))
        (omega arith, IsField-Printable u.path (Solid-IsField u.path p.path_word.0))
        (Printable-IsWhole (codes " HTTP/1.1") (crlf ++ (codes "Host: " ++ (u.host ++ t)))
          (ground arith) host))

pub closing-IsWhole : IsWhole closing
closing-IsWhole =
    line-IsWhole b'C' (codes "onnection: close") blank_line (ground arith) blank_line-IsWhole

pub typed_lines-IsWhole :
    (kind : Bytes) (n : ℕ) (t : Bytes)
    → IsField kind
    → IsWhole t
    → IsWhole (typed_lines kind (digits n) t)
typed_lines-IsWhole kind n t p w =
    line-IsWhole b'C' (codes "ontent-Type: ")
      (kind ++ (crlf ++ (codes "Content-Length: " ++ (digits n ++ t)))) (ground arith)
      (Printable-IsWhole kind (crlf ++ (codes "Content-Length: " ++ (digits n ++ t)))
        (IsField-Printable kind p)
        (line-IsWhole b'C' (codes "ontent-Length: ") (digits n ++ t) (ground arith)
          (Printable-IsWhole (digits n) t (digits-Printable n) w)))
