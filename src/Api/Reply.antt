-- ===== src/Api/Reply.antt =====
-- The replies of src/http/api.c, and the loops over the socket.
use ott_quic.Common.{
  ℕ, zero, suc, ◌-◌, Bool, true, false, Option, none, some, List, [], ◌++◌, ltb, ◌==◌,
  if◌then◌else◌, length, drop,
}
use ott_quic.Text.{Text, codes, cut, fits, print_nat}
use ott_quic.Http.{HttpHeader, get_header}
use ott_quic.WebSocket.Io.{Socket}

-- What a handler sends: the status line, the headers, the length it declares, and the body, which
-- HEAD leaves out.
pub record Response : Type 0 where
  pub status : Text
  pub headers : Text
  pub content_length : ℕ
  pub body : Text

-- The arguments of `http_send_response`.
abbrev pub reply : Text → Text → Text → Response
reply status headers body = record {
  status = status;
  headers = headers;
  content_length = length body;
  body = body;
}

abbrev pub text_plain : Text
text_plain = codes "Content-Type: text/plain\r\n"

-- An error reply.
abbrev pub refuse : Text → Text → Response
refuse status body = reply status text_plain body

-- `head_buf`, if it is large enough.
unfoldable pub head : Response → Option Text
unfolding print_nat
head r =
    let text =
      r.status
      ++ (codes "Content-Length: "
          ++ (print_nat r.content_length ++ (codes "\r\n" ++ (r.headers ++ codes "\r\n")))) in
    if fits 1024 text then some text else none

module _ (socket : Socket) where
  -- `http_write_all`, whose `send` has the flags 0: the socket here is one whose `send` returns. On a
  -- closed peer the signal SIGPIPE can end the process, and that is not modelled. Each round sends at least one byte, so there are as many rounds as bytes.
  unfoldable pub http_write_loop : ℕ → socket.Conn → Text → Bool × socket.Conn
  http_write_loop zero conn bytes = (length bytes == 0, conn)
  http_write_loop (suc rounds) conn bytes =
      if length bytes == 0 then (true, conn) else elim (socket.send conn bytes) [
        | none ↦ (false, conn)
        | some (n, conn') ↦
            if n == 0 then (false, conn) else http_write_loop rounds conn' (drop n bytes)
      ]

  unfoldable pub http_write_all : socket.Conn → Text → Bool × socket.Conn
  unfolding http_write_loop
  http_write_all conn bytes = http_write_loop (length bytes) conn bytes

  -- `http_read_exact`, in the same way: the bytes, and the connection, also where it fails.
  unfoldable pub http_read_loop : ℕ → socket.Conn → ℕ → Option Text × socket.Conn
  http_read_loop zero conn len = (if len == 0 then some [] else none, conn)
  http_read_loop (suc rounds) conn len =
      if len == 0 then (some [], conn) else elim (socket.recv conn len) [
        | none ↦ (none, conn)
        | some (bytes, conn') ↦
            let (later, conn'') = http_read_loop rounds conn' (len - length bytes) in
            if length bytes == 0
            then (none, conn')
            else elim later [ none ↦ (none, conn'') | some later ↦ (some (bytes ++ later), conn'') ]
      ]

  unfoldable pub http_read_exact : socket.Conn → ℕ → Option Text × socket.Conn
  unfolding http_read_loop
  http_read_exact conn len = http_read_loop len conn len

  -- `http_send_response`; and `http_send_file`, whose body a HEAD request leaves out.
  unfoldable pub send_response : socket.Conn → Response → Bool × socket.Conn
  unfolding head http_write_all
  send_response conn r = elim (head r) [
    | none ↦ (false, conn)
    | some text ↦
        let (ok, conn') = http_write_all conn text in
        if ok
        then (if ltb 0 (length r.body) then http_write_all conn' r.body else (true, conn'))
        else (false, conn')
  ]

-- The text of the headers, and `http_build_cors` with a buffer of 256 bytes.
abbrev pub cors_lines : Text → Text
cors_lines origin =
    codes "Access-Control-Allow-Origin: "
    ++ (origin
        ++ codes
            "\r\nAccess-Control-Allow-Credentials: true\r\nAccess-Control-Allow-Headers: Content-Type, Authorization, Cookie\r\nAccess-Control-Allow-Methods: GET, POST, DELETE, OPTIONS\r\n")

unfoldable pub origin_of : List HttpHeader → Text
unfolding get_header
origin_of headers = elim (get_header headers (codes "origin")) [
  | none ↦ codes "*"
  | some origin ↦ origin
]

unfoldable pub build_cors : List HttpHeader → Text
unfolding origin_of
build_cors headers = cut 256 (cors_lines (origin_of headers))
