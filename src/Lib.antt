-- ===== src/Lib.antt =====
-- A model of the C runtime of the Vader language and the theorems that make its parts correct. The
-- compiler emits LLVM code, which is linked with the files of runtime/; every program runs on them.
--
-- Parts, and how they interact:
--   runtime/vader_mem.c, an arena allocator with nested scopes, gives every other part its memory.
--   runtime/vader_rt.c holds panics and bounds checks, channels between threads, and hash maps.
--   runtime/vader_str.c and runtime/vader_fmt.c are the string library and number formatting.
--   runtime/vader_json.c parses, builds, reads and prints JSON trees.
--   runtime/vader_scram.c holds SHA-256, HMAC, PBKDF2 and base64, which the database drivers use to
--     log in.
--   runtime/vader_mysql.c and runtime/vader_pg.c talk to MySQL and PostgreSQL over a socket: they log
--     in, send statements and read the rows of the reply. runtime/vader_mongo.c talks to MongoDB: it
--     sends the JSON trees of vader_json.c as BSON documents and decodes those of the replies.
--   runtime/vader_db.c passes queries on to a driver and builds statements from templates.
--   runtime/vader_http.c is an HTTP server, one request at a time, and an HTTP client.
--   runtime/vader_router.c dispatches requests of runtime/vader_http.c; runtime/vader_test.c runs
--     tests.
--   runtime/vader_math.c, vader_time.c, vader_os.c and vader_fs.c are numbers, times, the environment
--     and files.
--
-- Files:
--   Prelude: numbers, Booleans, lists, texts as lists of bytes, integers, and what all parts share.
--   Libc: the functions of the C library that the runtime calls, for the C locale.
--   Mem: blocks, arenas and scopes of vader_mem.c as a heap of handles; `alloc`, `realloc`, `scope`,
--     `reset` and `release` are vader_alloc, vader_realloc, vader_scope, vader_reset and
--     vader_release.
--   Rt/Bounds: vader_panic and vader_bounds. Rt/Chan: the circular buffer behind vader_chan_make, _send,
--     _recv and _close; each call is one critical section. Rt/Chan/System: the two condition variables
--     as numbers of sleeping and woken threads, and a step relation over every interleaving of calls.
--     Rt/Map: vader_map_make, _set_int, _get_int, _set_str, _get_str and _len with their 64 chains.
--   Str, Fmt: one function for each of vader_str.c and vader_fmt.c, under its name without the
--     prefix.
--   Json: `JVal` is the struct of that name with a constructor for each `type`. Json/Parse holds the
--     parser, Json/Encode the encoder, Json/Tree the accessors and builders.
--   Scram: Scram/Sha256, Scram/Hmac (with PBKDF2 and nonces) and Scram/Base64.
--   Digest: the buffer that the SHA-1 and the MD5 of the drivers fill; Digest/Fips and Digest/Rfc1321:
--     SHA-256, SHA-1 and MD5 as FIPS 180-4 and RFC 1321 describe them, with nothing taken from the
--     code and the constants computed from roots and sines (Digest/Roots). Net: a connection as the pieces
--     that reads find and the sizes that writes take, with the loops `read_n` and `write_all` of the
--     drivers; Net/Dsn: data source names.
--   Mysql: vader_mysql.c. Mysql/Sha1, Mysql/Packet (packets and length-encoded integers), Mysql/Login
--     (vader_my_connect, with the branches of a build with VADER_TLS), Mysql/Rows (my_run and what reads its rows).
--   Pg: vader_pg.c. Pg/Crypto names its copies of what Scram models; Pg/Md5, Pg/Message, Pg/Scram
--     (scram_auth), Pg/Login (vader_pg_connect, with the
--     branches of a build with VADER_TLS), Pg/Rows (pg_run and what reads its rows).
--   Mongo: vader_mongo.c. Mongo/Bson (encoder and decoder; Mongo/Bson/Scan: bson_scan and build_sasl),
--     Mongo/Exchange (op_msg), Mongo/Commands (vader_mongo_insert, _find, _aggregate, _update,
--     _delete), Mongo/Login (mongo_auth, vader_mongo_connect).
--   Db: statements of vader_db.c; Db/Driver passes each call on to the driver of its connection.
--     Db/Floats: its calls on doubles. Db/Objects: the two drivers as vader_db.c calls them, with what
--     their pointers lead to.
--   Http: the server of vader_http.c (vader_http_accept, _header, _respond); Http/Client: its client;
--     Http/Requests and Http/Responses: what one of them writes and the other reads; Http/Opening and
--     Http/Steady: vader_http_listen and the arena that the requests share.
--   Router: vader_router.c; Router/Serving: vader_router_serve on the server of vader_http.c.
--   Harness: vader_test.c.
--   Sys: the integer functions of vader_math.c, vader_time.c and vader_os.c; Sys/Files and Sys/Lines:
--     vader_fs.c.
--
-- Bounds and fuel: a pointer is an offset or the rest of a text, so the loops of the string library
-- and of Json/Parse run on fuel. It is the length of the text, of which every round passes at least
-- one byte, or twice the length for the nested calls of the JSON parser; the theorems about the
-- string library, which hold for all texts, would fail if it were not enough. A JSON parser that
-- runs out of fuel answers `starved`, which never happens, and a read past the end of a text
-- answers `fault`. Numbers of 32 and 64 bits carry their wrap-around (`% 2 ^ w`); strings are
-- shorter than 2^31 bytes, so that an `int` holds their length, and sums of lengths that overflow an
-- `int`, which C leaves undefined, are `none`; `atoll` on a number outside 64
-- bits, which C leaves undefined, is the number itself. The loops of the drivers run on as many rounds
-- as bytes are to arrive, and one or two more; every round takes a message, which is a byte at least.
-- A loop that runs out of rounds answers `tired`, or nothing for the rows of MySQL and for BSON, where
-- nothing also stands for a read outside a packet or a document; the decoder of BSON has a round for
-- each byte of the document.
--
-- A connection is a finite sequence of pieces, after which reads fail; a server that goes on sending for
-- ever, or is silent while a read waits, is outside the model, and the termination theorems are about
-- the others. A text that does not fit the array that it is printed to is cut, and what is sent
-- behind it is the stack's, an argument of the HTTP calls.
--
-- Not modelled: malloc that fails, the contents of memory, floating-point numbers (a parameter of
-- what uses them; the functions of vader_math.c on them, which only call libm, are left out), the
-- handshake of TLS and its encryption, the lookup and opening of sockets, clocks and the generator of random numbers (parameters of what uses
-- them), and threads as such. The arrays of 128 bytes that hold the parts of a data source name are taken to be
-- long enough. A JSON value is used in one place only, so that a builder never changes a tree that
-- another tree holds. The compiler, which is written in Rust, is not modelled.
pub mod Prelude
pub mod Libc
pub mod Rt
pub mod Mem
pub mod Str
pub mod Json
pub mod Db
pub mod Scram
pub mod Digest
pub mod Net
pub mod Mysql
pub mod Mongo
pub mod Pg
pub mod Http
pub mod Router
pub mod Harness
pub mod Fmt
pub mod Sys
