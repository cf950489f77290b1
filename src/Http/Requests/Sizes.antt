-- ===== src/Http/Requests/Sizes.antt =====
-- runtime/vader_http.c: the length of the body that the server reads from a request's head.
use vader_langue.Prelude.{
  ℕ, ◌≡◌, ◌≢◌, refl, ap, ◌∙◌, arith, Option, [], ◌∷◌, ◌++◌, append_assoc, All-append, Bytes, codes,
  pos,
}
use vader_langue.Libc.{to_lower, is_prefix, strstr, digits, atoll, print_int, skip_space}
use vader_langue.Libc.Decimal.{atoll-print_int}
use vader_langue.Net.Dsn.Parts.{Without}
use vader_langue.Http.{crlf}
use vader_langue.Http.Client.{Url, content_type}
use vader_langue.Http.Requests.Fields.{body_length, skip_field, find_length}
use vader_langue.Http.Requests.Lines.{
  IsPlain, IsField-Without, Solid-IsField, opening, closing, typed_lines,
}

Without-append : (a b : Bytes) → Without b':' a → Without b':' b → Without b':' (a ++ b)
Without-append a b ha hb = All-append (λ x. x ≢ b':') a b ha hb

length-opening :
    (method : Bytes) (u : Url) (ctype : Option Bytes) (t : Bytes)
    → IsPlain method u ctype
    → body_length (opening method u t) ≡ body_length (32 ∷ u.host ++ t)
length-opening method u ctype t p =
    let line = 32 ∷ u.path ++ (codes " HTTP/1.1" ++ (crlf ++ codes "Hos")) in
    let same : opening method u t ≡ ((method ++ line) ++ b't' ∷ []) ++ b':' ∷ (32 ∷ u.host ++ t) =
      simp (append_assoc) in
    ap body_length same
    ∙ skip_field (method ++ line) b't' (32 ∷ u.host ++ t)
        (Without-append method line (IsField-Without method (Solid-IsField method p.method_word.0))
          (Without-append (32 ∷ u.path) (codes " HTTP/1.1" ++ (crlf ++ codes "Hos"))
            (ground arith, IsField-Without u.path (Solid-IsField u.path p.path_word.0))
            (ground arith)))
        (ground arith) (unfold to_lower in ground arith)

-- Without a body the search finds nothing.
pub length-closing :
    (method : Bytes) (u : Url) (ctype : Option Bytes)
    → IsPlain method u ctype
    → body_length (opening method u closing) ≡ pos 0
length-closing method u ctype p =
    let line = 32 ∷ u.host ++ (crlf ++ codes "Connectio") in
    let rest = codes " close" ++ (crlf ++ crlf) in
    let same : 32 ∷ u.host ++ closing ≡ (line ++ b'n' ∷ []) ++ b':' ∷ rest = simp (append_assoc) in
    length-opening method u ctype closing p
    ∙ ap body_length same
    ∙ skip_field line b'n' rest
        (Without-append (32 ∷ u.host) (crlf ++ codes "Connectio")
          (ground arith, IsField-Without u.host p.host_field) (ground arith))
        (ground arith) (unfold to_lower in ground arith)
    ∙ unfold strstr is_prefix to_lower in refl

atoll-blank : (s : Bytes) → atoll (32 ∷ s) ≡ atoll s
unfolding atoll skip_space
atoll-blank s = refl

-- With a body it finds the number behind `Content-Length:`.
pub length-typed_lines :
    (method : Bytes) (u : Url) (ctype : Option Bytes) (n : ℕ) (t : Bytes)
    → IsPlain method u ctype
    → body_length (opening method u (typed_lines (content_type ctype) (digits n) (crlf ++ t)))
      ≡ pos n
length-typed_lines method u ctype n t p =
    let kind = content_type ctype in
    let line = 32 ∷ u.host ++ (crlf ++ codes "Content-Typ") in
    let number = 32 ∷ digits n ++ (crlf ++ t) in
    let rest = 32 ∷ kind ++ (crlf ++ (codes "Content-Length: " ++ (digits n ++ (crlf ++ t)))) in
    let same : 32 ∷ u.host ++ typed_lines kind (digits n) (crlf ++ t)
        ≡ (line ++ b'e' ∷ []) ++ b':' ∷ rest =
      simp (append_assoc) in
    let last : rest ≡ ((32 ∷ kind ++ crlf) ++ codes "Content-Length") ++ b':' ∷ number =
      simp (append_assoc) in
    length-opening method u ctype (typed_lines kind (digits n) (crlf ++ t)) p
    ∙ ap body_length same
    ∙ skip_field line b'e' rest
        (Without-append (32 ∷ u.host) (crlf ++ codes "Content-Typ")
          (ground arith, IsField-Without u.host p.host_field) (ground arith))
        (ground arith) (unfold to_lower in ground arith)
    ∙ ap body_length last
    ∙ find_length (32 ∷ kind ++ crlf) number (
        Without-append (32 ∷ kind) crlf (ground arith, IsField-Without kind p.type_field)
          (ground arith))
    ∙ atoll-blank (digits n ++ (crlf ++ t))
    ∙ unfold print_int in atoll-print_int (pos n) (crlf ++ t) refl
