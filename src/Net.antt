-- ===== src/Net.antt =====
-- The sockets under runtime/vader_mysql.c, vader_pg.c, vader_mongo.c and vader_http.c. What arrives is
-- cut into the pieces that single reads find, and a write may take fewer bytes than it is given.
pub mod Transfer
pub mod Progress
pub mod Dsn
use vader_langue.Prelude.{
  ℕ, suc, zero, ◌+◌, ◌-◌, ◌*◌, ◌/◌, ◌%◌, ◌^◌, Bool, true, false, Option, none, some, List, [], ◌∷◌,
  ◌++◌, Bytes, ◌==◌, ltb, if◌then◌else◌, length, take, drop,
}

-- Where `incoming` ends, or holds an empty piece, `read` gives 0 or -1, and nothing arrives after that. `accepts` are the results of the
-- coming writes at most; where it ends, or at 0, `write` fails. `sent` is what the peer has got.
pub record Wire : Type 0 where
  pub incoming : List Bytes
  pub accepts : List ℕ
  pub sent : Bytes

-- The loop of `read_n`, for the `n` bytes that are missing.
unfoldable pub read_n : ℕ → List Bytes → Option (Bytes × List Bytes)
read_n zero pieces = some ([], pieces)
read_n (suc n) [] = none
read_n (suc n) ([] ∷ pieces) = none
read_n (suc n) ((x ∷ c) ∷ pieces) =
    let rest = read_n (suc n - length (x ∷ c)) pieces in
    if ltb (suc n) (length (x ∷ c))
    then some (take (suc n) (x ∷ c), drop (suc n) (x ∷ c) ∷ pieces)
    else elim rest [ none ↦ none | some (s, p) ↦ some ((x ∷ c) ++ s, p) ]

-- The loop of `write_all`: whether it succeeded, what was sent, and the writes that are left.
unfoldable pub write_all : List ℕ → Bytes → Bool × Bytes × List ℕ
write_all accepts [] = (true, [], accepts)
write_all [] (x ∷ s) = (false, [], [])
write_all (zero ∷ accepts) (x ∷ s) = (false, [], accepts)
write_all (suc w ∷ accepts) (x ∷ s) =
    let (ok, out, left) = write_all accepts (drop (suc w) (x ∷ s)) in
    (ok, take (suc w) (x ∷ s) ++ out, left)

-- The loops on a connection.
abbrev pub received : Wire → Option (Bytes × List Bytes) → Option (Bytes × Wire)
received w none = none
received w (some (s, pieces)) = some (s, record w { incoming = pieces })

unfoldable pub recv : ℕ → Wire → Option (Bytes × Wire)
recv n w = received w (read_n n w.incoming)

unfoldable pub send : Bytes → Wire → Bool × Wire
send s w =
    let (ok, out, left) = write_all w.accepts s in
    (ok, record w { accepts = left; sent = w.sent ++ out })

-- The connection after a read that failed.
abbrev pub ended : Wire → Wire
ended w = record w { incoming = [] }

-- The `k` low bytes of a number, and the number of some bytes, least significant byte first.
abbrev pub low_bytes : ℕ → ℕ → Bytes
low_bytes zero n = []
low_bytes (suc k) n = n % 2 ^ 8 ∷ low_bytes k (n / 2 ^ 8)

abbrev pub little : Bytes → ℕ
little [] = 0
little (b ∷ s) = b + 2 ^ 8 * little s

-- A C string in a buffer, up to its NUL.
abbrev pub to_nul : Bytes → Bytes
to_nul [] = []
to_nul (c ∷ s) = if c == 0 then [] else c ∷ to_nul s
