-- ===== src/Api/Sent.antt =====
-- What a reply puts on the wire.
use ott_quic.Common.{
  ℕ, zero, suc, ◌+◌, ◌≤◌, ◌≡◌, ◌⊎◌, ◌↔◌, inl, inr, refl, sym, ap, ◌∙◌, Bool, true, false, some,
  List, [], ◌∷◌, ◌++◌, ltb, lt→ltb, ◌==◌, if◌then◌else◌, length, length-append, length-take, drop,
  append_assoc, append-nil, Bool-cases, Option-cases, arith,
}
use mathlib.Core.Path.{subst}
use ott_quic.Text.{Text, codes}
use ott_quic.Http.{HttpHeader}
use ott_quic.Text.Rows.{take_all}
use ott_quic.WebSocket.Io.{Socket, io_write, write_loop, write_all}
use ott_quic.WebSocket.Stream.{IsStream}
use ott_quic.WebSocket.Sent.{sent_or_failed}
use ott_quic.Api.Reply.{
  Response, head, http_write_loop, http_write_all, send_response, cors_lines, origin_of, build_cors,
}

module _ (socket : Socket) where
  http_write_loop_lem :
      (rounds : ℕ) (conn : socket.Conn) (bytes : Text)
      → http_write_loop socket rounds conn bytes ≡ write_loop socket rounds conn bytes
  unfolding http_write_loop write_loop io_write
  http_write_loop_lem zero conn bytes = refl
  http_write_loop_lem (suc rounds) conn bytes = elim (Bool-cases (length bytes == 0)) [
    | inl e ↦ rw (e, http_write_loop, write_loop) refl
    | inr e ↦ elim (Option-cases (socket.send conn bytes)) [
      | inl s ↦ rw (e, http_write_loop, write_loop) (rw s refl)
      | inr ((n, conn'), s) ↦ elim (Bool-cases (n == 0)) [
        | inl z ↦ rw (e, http_write_loop, write_loop) (rw s (rw z refl))
        | inr z ↦
            rw (e, http_write_loop, write_loop)
              (rw s (rw z (http_write_loop_lem rounds conn' (drop n bytes))))
      ]
    ]
  ]

  -- The reply's head and body, or the call failed.
  abbrev pub Replied : IsStream socket → socket.Conn → Response → Bool × socket.Conn → Type 0
  Replied stream conn r result =
      (result.0 ≡ false)
      ⊎ ((text : Text) × (head r ≡ some text)
          × (stream.outgoing result.1 ≡ stream.outgoing conn ++ (text ++ r.body)))

  all_lem :
      (conn : socket.Conn) (bytes : Text)
      → http_write_all socket conn bytes ≡ write_all socket conn bytes
  unfolding http_write_all write_all
  all_lem conn bytes = http_write_loop_lem (length bytes) conn bytes

  all_written :
      (stream : IsStream socket) (conn : socket.Conn) (bytes : Text)
      → let r = http_write_all socket conn bytes in
        (r.0 ≡ false) ⊎ (stream.outgoing r.1 ≡ stream.outgoing conn ++ bytes)
  all_written stream conn bytes =
      subst
        (λ (r : Bool × socket.Conn).
          (r.0 ≡ false) ⊎ (stream.outgoing r.1 ≡ stream.outgoing conn ++ bytes))
        (sym (all_lem conn bytes)) (sent_or_failed socket stream conn bytes)

  body_written :
      (stream : IsStream socket) (conn : socket.Conn) (body : Text)
      → let r = if ltb 0 (length body) then http_write_all socket conn body else (true, conn) in
        (r.0 ≡ false) ⊎ (stream.outgoing r.1 ≡ stream.outgoing conn ++ body)
  body_written stream conn [] = inr (sym (append-nil _))
  body_written stream conn (c ∷ body) =
      rw (lt→ltb 0 (suc (length body)) (omega arith)) (all_written stream conn (c ∷ body))

  -- If `http_send_response` or `http_send_file` succeeds, the head fitted into its buffer, and what
  -- was sent is the head and the body, in whatever pieces the socket takes them; the socket is a
  -- stream.
  pub send_response-Replied :
      (stream : IsStream socket) (conn : socket.Conn) (r : Response)
      → Replied stream conn r (send_response socket conn r)
  unfolding send_response
  send_response-Replied stream conn r = elim (Option-cases (head r)) [
    | inl e ↦ rw (e, send_response) (inl refl)
    | inr (text, e) ↦
        let conn' = (http_write_all socket conn text).1 in
        elim (Bool-cases (http_write_all socket conn text).0) [
          | inr f ↦ rw (e, send_response) (rw f (inl refl))
          | inl t ↦ elim (all_written stream conn text) [
            | inl f ↦ absurd (cc)
            | inr out ↦ elim (body_written stream conn' r.body) [
              | inl f ↦ rw (e, send_response) (rw t (inl f))
              | inr o ↦
                  let all =
                    o
                    ∙ ap (λ (x : Text). x ++ r.body) out
                    ∙ append_assoc (stream.outgoing conn) text r.body in
                  rw (e, send_response) (rw t (inr (text, refl, all)))
            ]
          ]
        ]
  ]

-- The headers of `http_build_cors` are whole exactly if the origin has at most 59 characters.
pub build_cors_iff :
    (headers : List HttpHeader)
    → (build_cors headers ≡ cors_lines (origin_of headers)) ↔ (length (origin_of headers) ≤ 59)
unfolding build_cors
build_cors_iff headers =
    let origin = origin_of headers in
    let all = cors_lines origin in
    (
      λ e. omega (arith, ap length e, length-take 255 all, lines_length origin),
      λ le. take_all 255 all (omega (arith, lines_length origin)),
    )
  where
    lines_length : (origin : Text) → length (cors_lines origin) ≡ length origin + 196
    lines_length origin = omega (
      arith,
      length-append (codes "Access-Control-Allow-Origin: ") (origin ++ rest),
      length-append origin rest,
    )
      where
        rest : Text
        rest =
            codes
              "\r\nAccess-Control-Allow-Credentials: true\r\nAccess-Control-Allow-Headers: Content-Type, Authorization, Cookie\r\nAccess-Control-Allow-Methods: GET, POST, DELETE, OPTIONS\r\n"
