-- ===== src/Api/Account.antt =====
-- `handle_login`, `handle_signup` and `handle_logout` of src/http/api.c.
use ott_quic.Common.{
  ℕ, ◌+◌, Bool, false, not, Option, none, some, List, [], ◌++◌, ◌==◌, if◌then◌else◌, length, take,
}
use ott_quic.Text.{Text, codes, same_text, cut, fits}
use ott_quic.Http.{HttpRequest, c_string}
use ott_quic.Session.{generate_id, extract_from_headers, session_id_len}
use ott_quic.Session.Hash.{hash_password, hash_hex_size}
use ott_quic.Session.Login.{login, logout, session_ttl_seconds}
use ott_quic.Api.Reply.{Response, reply, refuse, build_cors}
use ott_quic.Api.Json.{extract_string}
use ott_quic.Api.Backend.{Backend, System, Effect, Profile}

abbrev pub max_body : ℕ
max_body = 4096

abbrev pub max_username : ℕ
max_username = 64

abbrev pub max_nickname : ℕ
max_nickname = 64

abbrev pub method_not_allowed : Response
method_not_allowed =
    refuse (codes "HTTP/1.1 405 Method Not Allowed\r\n") (codes "method-not-allowed")

abbrev pub bad_request : Text → Response
bad_request body = refuse (codes "HTTP/1.1 400 Bad Request\r\n") body

abbrev pub internal_error : Text → Response
internal_error body = refuse (codes "HTTP/1.1 500 Internal Server Error\r\n") body

abbrev pub status_ok : Text
status_ok = codes "HTTP/1.1 200 OK\r\n"

-- The reply to OPTIONS.
unfoldable pub preflight : HttpRequest → Response
unfolding build_cors
preflight req = reply (codes "HTTP/1.1 204 No Content\r\n") (build_cors req.headers) []

-- `body_buf`: the body cut to its size and closed.
abbrev pub closed_body : Text → Text
closed_body body = c_string (take max_body body)

-- The headers of a reply that sets the cookie.
unfoldable pub cookie_headers : HttpRequest → Text → Text
unfolding build_cors
cookie_headers req sid =
    codes "Content-Type: application/json\r\nSet-Cookie: SID="
    ++ (sid ++ (codes "; HttpOnly; Path=/; SameSite=Lax\r\n" ++ build_cors req.headers))

-- The body of a reply with a session, in its buffer of 512 bytes.
unfoldable pub session_body : Text → Text → Text → Bool → Text
session_body sid user nickname is_admin = cut 512 (
    codes "{\"session_id\":\""
    ++ (sid
        ++ (codes "\",\"username\":\""
            ++ (user
                ++ (codes "\",\"nickname\":\""
                    ++ (nickname
                        ++ (codes "\",\"is_admin\":"
                            ++ ((if is_admin then codes "true" else codes "false")
                                ++ codes "}"))))))))

-- The reply with a session, unless its headers are too long for their buffer.
unfoldable pub session_reply : HttpRequest → Text → Text → Text → Bool → Response
unfolding cookie_headers session_body
session_reply req sid user nickname is_admin =
    if fits 512 (cookie_headers req sid)
    then reply status_ok (cookie_headers req sid) (session_body sid user nickname is_admin)
    else internal_error (codes "header-too-long")

-- The nickname and the role that the reply to a login shows. After a failure the nickname stands in
-- memory that was not written.
unfoldable pub shown : System → Option Profile → Text → Text × Bool
unfolding same_text
shown sys none user = (if length sys.stale == 0 then user else sys.stale, false)
shown sys (some p) user =
    (if length p.nickname == 0 then user else p.nickname, same_text p.role (codes "admin"))

-- `hash`, after the call of `hash_password`.
abbrev pub new_hash : System → Text → Text
new_hash sys password = hash_password sys.bcrypt password sys.stale hash_hex_size

module _ (b : Backend) where
  -- The reply, the tables, and what was done to files.
  abbrev pub Outcome : Type 0
  Outcome = Response × b.sessions.Store × List Effect

  -- From the call of `session_login` on.
  unfoldable pub login_with : System → HttpRequest → b.sessions.Store → Text → Text → Outcome
  unfolding shown session_reply
  login_with sys req store user pass =
      let (sid, store') = login b.sessions sys.random store user pass (session_id_len + 1) in
      elim sid [
        | none ↦ (refuse (codes "HTTP/1.1 401 Unauthorized\r\n") (codes "login-failed"), store', [])
        | some sid ↦
            let (nickname, is_admin) = shown sys (b.get_user_by_username store' user) user in
            (session_reply req sid user nickname is_admin, store', [])
      ]

  unfoldable pub handle_login : System → HttpRequest → b.sessions.Store → Text → Outcome
  unfolding preflight login_with extract_string
  handle_login sys req store body =
      if same_text req.method (codes "OPTIONS")
      then (preflight req, store, [])
      else if not (same_text req.method (codes "POST"))
      then (method_not_allowed, store, [])
      else elim (extract_string (closed_body body) (codes "username") 128) [
        | none ↦ (bad_request (codes "bad-json"), store, [])
        | some user ↦ elim (extract_string (closed_body body) (codes "password") 128) [
          | none ↦ (bad_request (codes "bad-json"), store, [])
          | some pass ↦ login_with sys req store user pass
        ]
      ]

  -- From the id of the new user on.
  unfoldable pub first_session : System → HttpRequest → b.sessions.Store → ℕ → Text → Text → Outcome
  unfolding session_reply
  first_session sys req store user_id username nickname =
      elim (generate_id sys.random (session_id_len + 1)) [
        | none ↦ (internal_error (codes "session-failed"), store, [])
        | some sid ↦ elim (b.sessions.create_session store user_id sid session_ttl_seconds) [
          | none ↦ (internal_error (codes "session-failed"), store, [])
          | some store' ↦ (session_reply req sid username nickname false, store', [])
        ]
      ]

  -- From the look-up of the name on.
  unfoldable pub sign_up : System → HttpRequest → b.sessions.Store → Text → Text → Text → Outcome
  unfolding first_session
  sign_up sys req store username password nickname = elim (b.get_user_by_username store username) [
    | some _ ↦ (refuse (codes "HTTP/1.1 409 Conflict\r\n") (codes "user-exists"), store, [])
    | none ↦
        if length (new_hash sys password) == 0
        then (internal_error (codes "hash-failed"), store, [])
        else elim (b.create_user store username nickname (new_hash sys password) (codes "user")) [
          | none ↦ (internal_error (codes "create-user-failed"), store, [])
          | some (user_id, store') ↦ first_session sys req store' user_id username nickname
        ]
  ]

  unfoldable pub handle_signup : System → HttpRequest → b.sessions.Store → Text → Outcome
  unfolding preflight sign_up extract_string
  handle_signup sys req store body =
      if same_text req.method (codes "OPTIONS")
      then (preflight req, store, [])
      else if not (same_text req.method (codes "POST"))
      then (method_not_allowed, store, [])
      else elim (extract_string (closed_body body) (codes "username") max_username) [
        | none ↦ (bad_request (codes "bad-json"), store, [])
        | some username ↦ elim (extract_string (closed_body body) (codes "password") 128) [
          | none ↦ (bad_request (codes "bad-json"), store, [])
          | some password ↦
              elim (extract_string (closed_body body) (codes "nickname") max_nickname) [
                | none ↦ (bad_request (codes "bad-json"), store, [])
                | some nickname ↦ sign_up sys req store username password nickname
              ]
        ]
      ]

  unfoldable pub handle_logout : HttpRequest → b.sessions.Store → Outcome
  unfolding preflight build_cors
  handle_logout req store =
      if same_text req.method (codes "OPTIONS")
      then (preflight req, store, [])
      else elim (extract_from_headers req.headers (session_id_len + 1)) [
        | none ↦ (bad_request (codes "session-missing"), store, [])
        | some sid ↦
            let headers =
              codes
                "Content-Type: text/plain\r\nSet-Cookie: SID=; Max-Age=0; HttpOnly; Path=/; SameSite=Lax\r\n"
              ++ build_cors req.headers in
            let answer =
              if fits 512 headers
              then reply status_ok headers (codes "logged-out")
              else internal_error (codes "header-too-long") in
            (answer, (logout b.sessions store sid).1, [])
      ]
