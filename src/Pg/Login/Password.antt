-- ===== src/Pg/Login/Password.antt =====
-- The answer to the MD5 method is the one that the protocol asks for.
use vader_langue.Prelude.{
  ℕ, ◌+◌, ◌%◌, ◌^◌, ◌≡◌, ap, sym, ◌∙◌, arith, [], ◌∷◌, ◌++◌, Bytes, codes, length, length-append,
}
use vader_langue.Digest.{Pending, absorb}
use vader_langue.Digest.Whole.{absorb-append}
use vader_langue.Pg.Md5.{Md5, Four, md5, md5_block, md5_init, md5_update, md5_final, md5_hex}
use vader_langue.Digest.Rfc1321.{md5_of, hex_text}
use vader_langue.Pg.Md5.Standard.{md5-standard, md5_hex-hex_text}
use vader_langue.Pg.Login.{md5_response}

-- To hash two texts in turn is to hash both at once.
md5_update-append : (c : Md5) (s t : Bytes) → md5_update (md5_update c s) t ≡ md5_update c (s ++ t)
unfolding md5_update
md5_update-append c s t =
    let start : Pending Four = record { bytes = c.buf; fill = c.n; state = c.h } in
    let long = (c.len + length (s ++ t)) % 2 ^ 64 in
    let at : Pending Four → ℕ → Md5 =
      λ p n. record { h = p.state; len = n; buf = p.bytes; n = p.fill } in
    ap (at (absorb md5_block (absorb md5_block start s) t)) (omega (arith, length-append s t))
    ∙ ap (λ p. at p long) (sym (absorb-append md5_block start s t))

md5_twice :
    (garbage s t : Bytes)
    → length garbage ≡ 64
    → md5_final (md5_update (md5_update (md5_init garbage) s) t) ≡ md5_of (s ++ t)
md5_twice garbage s t h =
    ap md5_final (md5_update-append (md5_init garbage) s t)
    ∙ unfold md5 in md5-standard garbage (s ++ t) h

-- With buffers of 64 bytes, whatever these hold, the answer is "md5" and the hexadecimal MD5 of the
-- hexadecimal MD5 of password and user, and the salt, with a NUL; MD5 and the digits are those of
-- RFC 1321.
pub md5_response-standard :
    (garbage garbage1 user pass salt : Bytes)
    → length garbage ≡ 64
    → length garbage1 ≡ 64
    → md5_response garbage garbage1 user pass salt
      ≡ codes "md5" ++ (hex_text (md5_of (hex_text (md5_of (pass ++ user)) ++ salt)) ++ 0 ∷ [])
unfolding md5_response
md5_response-standard garbage garbage1 user pass salt h h1 =
    let again = md5_update (md5_init garbage1) in
    ap (λ a. codes "md5" ++ (md5_hex (md5_final (md5_update (again (md5_hex a)) salt)) ++ 0 ∷ []))
      (md5_twice garbage pass user h)
    ∙ ap (λ t. codes "md5" ++ (md5_hex (md5_final (md5_update (again t) salt)) ++ 0 ∷ []))
        (md5_hex-hex_text (md5_of (pass ++ user)))
    ∙ ap (λ dg. codes "md5" ++ (md5_hex dg ++ 0 ∷ []))
        (md5_twice garbage1 (hex_text (md5_of (pass ++ user))) salt h1)
    ∙ ap (λ t. codes "md5" ++ (t ++ 0 ∷ []))
        (md5_hex-hex_text (md5_of (hex_text (md5_of (pass ++ user)) ++ salt)))
