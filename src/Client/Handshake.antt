-- ===== src/Client/Handshake.antt =====
-- The opening handshake of src/server/websocket.c: what is read of the request, whether it asks for a
-- WebSocket, and the reply.
use ott_quic.Common.{
  ℕ, zero, suc, ◌-◌, Bool, true, false, ◌&&◌, Option, none, some, List, [], ◌∷◌, ◌++◌, ltb, ◌==◌,
  if◌then◌else◌, length,
}
use ott_quic.Text.{Text, codes, cut, fits, same_text, same_exact}
use ott_quic.Http.{HttpRequest, get_header, header_block, trim_leading, max_header_val}
use ott_quic.WebSocket.Io.{Socket, io_read, write_all}
use ott_quic.WebSocket.Accept.{calculate_accept_key}

-- `buffer_contains_clrf`.
unfoldable pub contains_end : Text → Bool
unfolding header_block
contains_end buf = elim (header_block buf) [ none ↦ false | some block ↦ true ]

-- What `strtok_r` with "," returns one after the other.
unfoldable pub tokens : Text → List Text
tokens [] = []
tokens (c ∷ buffer) =
    let later = tokens buffer in
    if c == b',' then later else elim buffer [
      | [] ↦ (c ∷ []) ∷ []
      | d ∷ _ ↦
          if d == b','
          then (c ∷ []) ∷ later
          else elim later [ [] ↦ (c ∷ []) ∷ [] | part ∷ others ↦ (c ∷ part) ∷ others ]
    ]

-- Whether one of the parts, without the blanks before it, is the token.
unfoldable pub any_token : List Text → Text → Bool
unfolding trim_leading same_text
any_token [] token = false
any_token (part ∷ parts) token =
    let later = any_token parts token in if same_text (trim_leading part) token then true else later

unfoldable pub header_contains_token : Text → Text → Bool
unfolding tokens any_token
header_contains_token value token = any_token (tokens (cut max_header_val value)) token

-- The test of a header that has to be there.
abbrev pub header_with : (Text → Bool) → Option Text → Bool
header_with test none = false
header_with test (some value) = test value

unfoldable pub validate_websocket_request : HttpRequest → Bool
unfolding get_header same_text same_exact header_contains_token
validate_websocket_request req =
    same_text req.method (codes "GET")
    && (header_with (λ v. same_text v (codes "websocket"))
          (get_header req.headers (codes "upgrade"))
        && (header_with (λ v. header_contains_token v (codes "Upgrade"))
              (get_header req.headers (codes "connection"))
            && (header_with (λ v. same_exact v (codes "13"))
                  (get_header req.headers (codes "sec-websocket-version"))
                && header_with (λ v. true) (get_header req.headers (codes "sec-websocket-key")))))

-- The text of the reply.
abbrev pub switching : Text → Text
switching accept =
    codes
      "HTTP/1.1 101 Switching Protocols\r\nUpgrade: websocket\r\nConnection: Upgrade\r\nSec-WebSocket-Accept: "
    ++ (accept ++ codes "\r\n\r\n")

-- The reply to a request, if it has a key that is not too long.
unfoldable pub handshake_reply : HttpRequest → Option Text
unfolding get_header calculate_accept_key
handshake_reply req = elim (get_header req.headers (codes "sec-websocket-key")) [
  | none ↦ none
  | some key ↦ elim (calculate_accept_key key 64) [
    | none ↦ none
    | some accept ↦ if fits 256 (switching accept) then some (switching accept) else none
  ]
]

module _ (socket : Socket) where
  -- The loop of `read_http_request`, with the bytes so far. A round reads a byte at least, so there
  -- are as many rounds as the buffer has bytes. The connection is also given where it fails.
  unfoldable pub request_loop : ℕ → socket.Conn → ℕ → Text → Option Text × socket.Conn
  unfolding io_read contains_end
  request_loop zero conn buf_size buffer = (none, conn)
  request_loop (suc rounds) conn buf_size buffer =
      if ltb (length buffer) buf_size
      then elim (io_read socket conn (buf_size - length buffer)) [
        | none ↦ (none, conn)
        | some (bytes, conn') ↦
            let longer = buffer ++ bytes in
            let later = request_loop rounds conn' buf_size longer in
            if contains_end longer then (some longer, conn') else later
      ]
      else (none, conn)

  unfoldable pub read_http_request : socket.Conn → ℕ → Option Text × socket.Conn
  unfolding request_loop
  read_http_request conn buf_size = request_loop buf_size conn buf_size []

  unfoldable pub send_http_error : socket.Conn → Text → Bool × socket.Conn
  unfolding write_all
  send_http_error conn status_line = write_all socket conn status_line

  unfoldable pub perform_handshake : socket.Conn → HttpRequest → Bool × socket.Conn
  unfolding handshake_reply write_all
  perform_handshake conn req = elim (handshake_reply req) [
    | none ↦ (false, conn)
    | some reply ↦ write_all socket conn reply
  ]
