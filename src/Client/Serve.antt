-- ===== src/Client/Serve.antt =====
-- `websocket_handle_client` of src/server/websocket.c.
use ott_quic.Common.{
  ℕ, ◌+◌, Bool, true, false, not, ◌&&◌, ◌||◌, none, some, List, [], ◌∷◌, ltb, ◌==◌, if◌then◌else◌,
  length, drop, ◌-◌,
}
use ott_quic.Text.{Text, codes, after_text}
use ott_quic.Http.{c_string, HttpRequest, parse_request}
use ott_quic.Session.{extract_from_headers, session_id_len}
use ott_quic.WebSocket.Io.{Socket}
use ott_quic.WebSocket.Frame.{Frame, read_frame}
use ott_quic.Client.Library.{Library, World, Answers, send_to_client, send_json_response}
use ott_quic.Client.Handle.{handle_text_frame}
use ott_quic.Client.Handshake.{
  read_http_request, send_http_error, validate_websocket_request, perform_handshake,
}

abbrev pub max_http_buffer : ℕ
max_http_buffer = 8192

abbrev pub error_400 : Text
error_400 = codes "HTTP/1.1 400 Bad Request\r\n\r\n"

abbrev pub error_500 : Text
error_500 = codes "HTTP/1.1 500 Internal Server Error\r\n\r\n"

-- The bytes that were read behind the header: `strstr` looks for its end before the first NUL.
unfoldable pub behind_header : Text → Text
unfolding after_text
behind_header buffer = elim (after_text (codes "\r\n\r\n") (c_string buffer)) [
  | none ↦ []
  | some rest ↦ drop (length (c_string buffer) - length rest) buffer
]

module _ (socket : Socket) (lib : Library) where
  -- A text frame: where its handler fails, the payload is sent back.
  unfoldable pub serve_text : Answers → World socket lib → ℕ → List ℕ → World socket lib
  unfolding handle_text_frame send_to_client
  serve_text a w user payload =
      let (ok, w') = handle_text_frame socket lib a w user payload in
      if not ok && ltb 0 (length payload) then (send_to_client socket lib w' 1 payload).1 else w'

  -- One frame: whether the loop goes on, and the state.
  unfoldable pub serve_frame : Answers → World socket lib → ℕ → Frame → Bool × World socket lib
  unfolding serve_text send_to_client
  serve_frame a w user frame =
      if frame.opcode == 1
      then (true, serve_text a w user frame.payload)
      else if (frame.opcode == 2) || (frame.opcode == 0)
      then (
        true,
        (send_to_client socket lib w (if frame.opcode == 0 then 1 else frame.opcode)
            frame.payload).1,
      )
      else if frame.opcode == 8
      then (false, (send_to_client socket lib w 8 frame.payload).1)
      else if frame.opcode == 9
      then (true, (send_to_client socket lib w 10 frame.payload).1)
      else (false, (send_to_client socket lib w 8 []).1)

  -- One round of the loop: a frame is read and served.
  unfoldable pub serve_round : Answers → World socket lib → ℕ → Bool × World socket lib
  unfolding read_frame serve_frame
  serve_round a w user = elim (read_frame socket a.allocated w.conn) [
    | none ↦ (false, w)
    | some (frame, conn') ↦ serve_frame a (record w { conn = conn' }) user frame
  ]

  -- The loop, for the answers to so many rounds.
  unfoldable pub serve_loop : List Answers → World socket lib → ℕ → World socket lib
  unfolding serve_round
  serve_loop [] w user = w
  serve_loop (a ∷ later) w user =
      let (more, w') = serve_round a w user in if more then serve_loop later w' user else w'

  -- What other parts do for a client: `http_api_handle` with the request and the bytes behind its
  -- header, and `session_validate_and_extend`, which gives the user of a session or 0.
  pub record Elsewhere : Type 0 where
    pub api_handle : HttpRequest → Text → World socket lib → Bool × World socket lib
    pub validate : Text → World socket lib → ℕ × World socket lib

  -- The user of the session that the request carries, or 0.
  unfoldable pub current_user : Elsewhere → World socket lib → HttpRequest → ℕ × World socket lib
  unfolding extract_from_headers
  current_user other w req = elim (extract_from_headers req.headers (session_id_len + 1)) [
    | none ↦ (0, w)
    | some sid ↦ other.validate sid w
  ]

  -- From the handshake on.
  unfoldable pub open_socket :
      List Answers → World socket lib → ℕ → HttpRequest → Bool × World socket lib
  unfolding perform_handshake send_http_error send_json_response serve_loop
  open_socket answers w user req =
      let (shaken, conn1) = perform_handshake socket w.conn req in
      let w1 : World socket lib = record w { conn = conn1 } in
      let (ready, w2) =
        send_json_response socket lib w1 (codes "ready") (codes "ok") (codes "websocket-ready") in
      if not shaken
      then (false, record w { conn = (send_http_error socket conn1 error_500).1 })
      else if not ready
      then (false, w2)
      else (true, serve_loop answers w2 user)

  -- From the parsed request on.
  unfoldable pub handle_request :
      Elsewhere → List Answers → World socket lib → Text → HttpRequest → Bool × World socket lib
  unfolding validate_websocket_request behind_header current_user open_socket
  handle_request other answers w buffer req =
      if not (validate_websocket_request req)
      then other.api_handle req (behind_header buffer) w
      else let (user, w') = current_user other w req in open_socket answers w' user req

  -- Whether it returns 0, and the state. The server gives a context with tables.
  unfoldable pub websocket_handle_client :
      Elsewhere → Bool → List Answers → World socket lib → Bool × World socket lib
  unfolding read_http_request parse_request send_http_error handle_request
  websocket_handle_client other allocated answers w =
      let (buffer, conn1) = read_http_request socket w.conn max_http_buffer in
      let refused : Bool × World socket lib =
        (false, record w { conn = (send_http_error socket conn1 error_400).1 }) in
      elim buffer [
        | none ↦ refused
        | some text ↦ elim (parse_request allocated text) [
          | none ↦ refused
          | some req ↦ handle_request other answers (record w { conn = conn1 }) text req
        ]
      ]
