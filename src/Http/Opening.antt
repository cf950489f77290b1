-- ===== src/Http/Opening.antt =====
-- runtime/vader_http.c: opening a server, and the arena that its requests share. What `socket`, `bind` and
-- `listen` give is an argument.
use vader_langue.Prelude.{ℕ, Bool, not, ◌||◌, Option, none, some, [], ◌>>=◌, if◌then◌else◌}
use vader_langue.Mem.{Heap, scope, reset}
use vader_langue.Http.{HttpServer}

-- `vader_http_listen`: whether there was a socket, and whether it was bound and listens.
abbrev pub http_listen : Bool → Bool → Bool → Option HttpServer
http_listen made bound listens =
    if not made || (not bound || not listens)
    then none
    else some (record { cfd = none; method = []; path = []; body = []; headers = [] })

-- `req_arena` when a request has been accepted, and the heap with it as the current arena. `none` is a use
-- of an arena that was freed.
unfoldable pub request_arena : Heap → Option ℕ → Option (ℕ × Heap)
request_arena h none = some (scope h)
request_arena h (some a) = reset h a >>= λ h'. some (a, h')
