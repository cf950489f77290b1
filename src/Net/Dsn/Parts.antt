-- ===== src/Net/Dsn/Parts.antt =====
-- A data source name that has all its parts is taken apart into them.
use vader_langue.Prelude.{
  ℕ, suc, zero, ◌+◌, ◌/◌, ◌%◌, ◌<◌, ◌≡◌, ◌≢◌, refl, ap, sym, ◌∙◌, arith, Bool-cases, inl, inr, ltb,
  ltb→lt, All-append, none, some, [], ◌∷◌, ◌++◌, append_assoc, Bytes, codes, ℤ, pos, ne→==, ==-self,
  length, drop, All, take-length-append, drop-length-append,
}
use vader_langue.Libc.{strstr, strchr, strrchr, digits, print_int, digits_fuel, is_prefix}
use vader_langue.Libc.Decimal.{atoll-print_int}
use vader_langue.Net.Dsn.{
  skip_scheme, user_pass, credentials, host_db, host_port, or_else, assembled, with_host,
  with_credentials, dsn_parts,
}

-- A text without the byte `c`.
abbrev pub Without : ℕ → Bytes → Type 0
Without c = All (λ x. x ≢ c)

pub strchr-append : (c : ℕ) (a b : Bytes) → Without c a → strchr (a ++ c ∷ b) c ≡ some (length a)
unfolding strchr
strchr-append c [] b h = rw (==-self c) refl
strchr-append c (x ∷ a) b h = rw (ne→== x c h.0, strchr-append c a b h.1) refl

strchr-none : (c : ℕ) (a : Bytes) → Without c a → strchr a c ≡ none
unfolding strchr
strchr-none c [] h = refl
strchr-none c (x ∷ a) h = rw (ne→== x c h.0, strchr-none c a h.1) refl

strrchr-none : (c : ℕ) (a : Bytes) → Without c a → strrchr a c ≡ none
unfolding strrchr
strrchr-none c [] h = refl
strrchr-none c (x ∷ a) h = rw (strrchr-none c a h.1, ne→== x c h.0) refl

strrchr-append : (c : ℕ) (a b : Bytes) → Without c b → strrchr (a ++ c ∷ b) c ≡ some (length a)
unfolding strrchr
strrchr-append c [] b h = rw (strrchr-none c b h, ==-self c) refl
strrchr-append c (x ∷ a) b h = rw (strrchr-append c a b h) refl

pub behind : (c : ℕ) (a b : Bytes) → drop (suc (length a)) (a ++ c ∷ b) ≡ b
behind c [] b = refl
behind c (x ∷ a) b = behind c a b

strstr_scheme :
    (a b : Bytes)
    → Without b':' a
    → strstr (a ++ (codes "://" ++ b)) (codes "://") ≡ some (length a)
unfolding strstr is_prefix
strstr_scheme [] b h = refl
strstr_scheme (x ∷ a) b h = rw (strstr_scheme a b h.1, ne→== b':' x (λ e. h.0 (sym e))) refl

drop_scheme : (a b : Bytes) → drop 3 (drop (length a) (a ++ (codes "://" ++ b))) ≡ b
drop_scheme a b = ap (drop 3) (drop-length-append a (codes "://" ++ b))

-- A decimal number is without any byte that is no digit.
abbrev pub NotDigit : ℕ → Type 0
NotDigit c = (d : ℕ) → d < 10 → 48 + d ≢ c

digits_fuel-Without : (c f n : ℕ) → NotDigit c → Without c (digits_fuel f n)
unfolding digits_fuel
digits_fuel-Without c zero n h = (h (n % 10) (omega arith), tt)
digits_fuel-Without c (suc f) n h = elim (Bool-cases (ltb n 10)) [
  | inl e ↦ rw e (h n (ltb→lt n 10 e), tt)
  | inr e ↦ rw e (
      All-append (λ x. x ≢ c) (digits_fuel f (n / 10)) ((48 + n % 10) ∷ [])
        (digits_fuel-Without c f (n / 10) h) (h (n % 10) (omega arith), tt))
]

-- The steps of the parser on a text that has the byte it looks for.
credentials_lem :
    (user pass q : Bytes)
    → Without b':' user
    → credentials ((user ++ b':' ∷ pass) ++ b'@' ∷ q) (some (length (user ++ b':' ∷ pass)))
      ≡ ((user, pass), q)
credentials_lem user pass q h =
    let up = user ++ b':' ∷ pass in
    let front = take-length-append up (b'@' ∷ q) in
    ap (λ t. (user_pass t (strchr t b':'), drop (suc (length up)) (up ++ b'@' ∷ q))) front
    ∙ ap (λ o. (user_pass up o, drop (suc (length up)) (up ++ b'@' ∷ q)))
        (strchr-append b':' user pass h)
    ∙ rw (take-length-append user (b':' ∷ pass), behind b':' user pass, behind b'@' up q) refl

host_db_lem :
    (hp db query : Bytes)
    → Without b'?' db
    → host_db (hp ++ b'/' ∷ (db ++ b'?' ∷ query)) (some (length hp)) ≡ (hp, db)
host_db_lem hp db query h =
    let rest = db ++ b'?' ∷ query in
    rw
      (
        take-length-append hp (b'/' ∷ rest),
        behind b'/' hp rest,
        strchr-append b'?' db query h,
        take-length-append db (b'?' ∷ query),
      )
      refl

host_port_lem :
    (default : ℤ) (host more : Bytes) (n : ℕ)
    → host_port default
        ((host ++ b':' ∷ digits n) ++ b'/' ∷ more)
        (host ++ b':' ∷ digits n)
        (some (length host))
      ≡ (host, pos n)
unfolding print_int
host_port_lem default host more n =
    rw
      (
        take-length-append host (b':' ∷ digits n),
        append_assoc host (b':' ∷ digits n) (b'/' ∷ more),
        behind b':' host (digits n ++ b'/' ∷ more),
        atoll-print_int (pos n) (b'/' ∷ more) refl,
      )
      refl

or_else-some : (s d : Bytes) → s ≢ [] → or_else s d ≡ s
or_else-some [] d h = absurd (h refl)
or_else-some (c ∷ s) d h = refl

-- A number has no sign of punctuation.
pub digits-Without : (c n : ℕ) → NotDigit c → Without c (digits n)
unfolding digits
digits-Without c n h = digits_fuel-Without c n n h

Without-join :
    (c : ℕ) (a : Bytes) (d : ℕ) (b : Bytes)
    → Without c a
    → d ≢ c
    → Without c b
    → Without c (a ++ d ∷ b)
Without-join c a d b ha hd hb = All-append (λ x. x ≢ c) a (d ∷ b) ha (hd, hb)

-- The text of a name.
abbrev pub name : Bytes → Bytes → Bytes → Bytes → ℕ → Bytes → Bytes → Bytes
name scheme user pass host port db query =
    scheme
    ++ (codes "://"
        ++ ((user ++ b':' ∷ pass)
            ++ b'@' ∷ ((host ++ b':' ∷ digits port) ++ b'/' ∷ (db ++ b'?' ∷ query))))

-- What the parts must be without, the host being some text.
pub record Parts (scheme user pass host db query : Bytes) : Type 0 where
  pub scheme_colon : Without b':' scheme
  pub user_colon : Without b':' user
  pub host_colon : Without b':' host
  pub host_slash : Without b'/' host
  pub host_at : Without b'@' host
  pub host_some : host ≢ []
  pub db_mark : Without b'?' db
  pub db_at : Without b'@' db
  pub query_at : Without b'@' query

-- Every part of a name that has all of them is found, whatever the password holds: if scheme, user
-- and host hold no colon, the host is not empty and holds no slash, the database holds no question
-- mark, and host, database and query hold no `@`.
pub dsn_parts_lem :
    (default : ℤ) (scheme user pass host : Bytes) (port : ℕ) (db query : Bytes)
    → Parts scheme user pass host db query
    → dsn_parts default (name scheme user pass host port db query)
      ≡ record { user = user; pass = pass; host = host; port = pos port; db = db }
unfolding dsn_parts
dsn_parts_lem default scheme user pass host port db query h =
    let up = user ++ b':' ∷ pass in
    let hp = host ++ b':' ∷ digits port in
    let rest = db ++ b'?' ∷ query in
    let q = hp ++ b'/' ∷ rest in
    let p = up ++ b'@' ∷ q in
    let hp_at : Without b'@' hp =
      Without-join b'@' host b':' (digits port) h.host_at (λ e. omega arith)
        (digits-Without b'@' port (λ d l e. omega arith)) in
    let hp_slash : Without b'/' hp =
      Without-join b'/' host b':' (digits port) h.host_slash (λ e. omega arith)
        (digits-Without b'/' port (λ d l e. omega arith)) in
    let q_at : Without b'@' q =
      Without-join b'@' hp b'/' rest hp_at (λ e. omega arith)
        (Without-join b'@' db b'?' query h.db_at (λ e. omega arith) h.query_at) in
    let scheme_gone : skip_scheme (scheme ++ (codes "://" ++ p))
          (strstr (scheme ++ (codes "://" ++ p)) (codes "://"))
        ≡ p =
      ap (skip_scheme (scheme ++ (codes "://" ++ p))) (strstr_scheme scheme p h.scheme_colon)
      ∙ drop_scheme scheme p in
    ap (λ t. with_credentials default (credentials t (strrchr t b'@'))) scheme_gone
    ∙ ap (λ o. with_credentials default (credentials p o)) (strrchr-append b'@' up q q_at)
    ∙ ap (with_credentials default) (credentials_lem user pass q h.user_colon)
    ∙ ap (λ o. with_host default (user, pass) q (host_db q o)) (strchr-append b'/' hp rest hp_slash)
    ∙ ap (with_host default (user, pass) q) (host_db_lem hp db query h.db_mark)
    ∙ ap (λ o. assembled (user, pass) db (host_port default q hp o))
        (strchr-append b':' host (digits port) h.host_colon)
    ∙ ap (assembled (user, pass) db) (host_port_lem default host rest port)
    ∙ ap (λ t. record { user = user; pass = pass; host = t; port = pos port; db = db })
        (or_else-some host (codes "127.0.0.1") h.host_some)
