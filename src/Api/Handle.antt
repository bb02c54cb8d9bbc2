-- ===== src/Api/Handle.antt =====
-- `http_api_handle` of src/http/api.c: the body of a request, and which handler gets it.
use ott_quic.Common.{
  ℕ, ◌-◌, ◌*◌, ◌^◌, Bool, not, ◌&&◌, Option, none, some, List, [], ◌++◌, ltb, leb, ◌==◌,
  if◌then◌else◌, length, take,
}
use ott_quic.Text.{Text, codes, same_text, same_exact, signed_decimal}
use ott_quic.Http.{HttpRequest, HttpHeader, get_header, skip_blanks, c_string}
use ott_quic.WebSocket.Io.{Socket}
use ott_quic.Api.Reply.{Response, refuse, http_read_exact, send_response}
use ott_quic.Api.Backend.{Backend, System, Effect}
use ott_quic.Api.Account.{
  Outcome, max_body, bad_request, internal_error, preflight, handle_login, handle_signup,
  handle_logout,
}
use ott_quic.Api.Admin.{handle_admin_delete, handle_admin_update, handle_admin_list}
use ott_quic.Api.Static.{File, handle_static_file}

-- `content_len`: a value that `strtol` reads as negative, or not at all, counts as 0.
unfoldable pub content_length : List HttpHeader → ℕ
unfolding get_header skip_blanks signed_decimal
content_length headers = elim (get_header headers (codes "content-length")) [
  | none ↦ 0
  | some value ↦ elim (signed_decimal (skip_blanks value)) [
    | none ↦ 0
    | some (minus, n) ↦ if minus then 0 else if leb (2 ^ 63) n then 2 ^ 63 - 1 else n
  ]
]

abbrev pub body_limit : Bool → ℕ
body_limit is_upload = if is_upload then 200 * 1024 * 1024 else max_body

-- The body of a request that was read, or the reply to a request whose body was not.
pub data Body : Type 0 where
  whole : Text → Body
  rejected : Response → Body

unfoldable pub with_rest : {A : Type 0} → Text → Option Text × A → Body × A
with_rest copied (none, conn) = (rejected (bad_request (codes "body-read-failed")), conn)
with_rest copied (some later, conn) = (whole (copied ++ later), conn)

-- From the copy of what was read with the header on: the rest comes from the socket.
unfoldable pub complete_body : (socket : Socket) → socket.Conn → ℕ → Text → Body × socket.Conn
unfolding with_rest
complete_body socket conn content_len pre_read =
    let copied = take content_len pre_read in
    let remaining = content_len - length copied in
    if ltb 0 remaining
    then with_rest copied (http_read_exact socket conn remaining)
    else (whole copied, conn)

-- The buffer for the body; the first argument is whether `malloc` succeeds.
unfoldable pub read_body :
    (socket : Socket) → Bool → socket.Conn → Bool → ℕ → Text → Body × socket.Conn
unfolding complete_body
read_body socket allocated conn is_upload content_len pre_read =
    if ltb (body_limit is_upload) content_len
    then (
      rejected (refuse (codes "HTTP/1.1 413 Payload Too Large\r\n") (codes "payload-too-large")),
      conn,
    )
    else if is_upload && ltb max_body content_len && not allocated
    then (rejected (internal_error (codes "oom")), conn)
    else complete_body socket conn content_len pre_read

-- The handlers that `http_api_handle` chooses from.
pub data Route : Type 0 where
  to_login to_signup to_logout to_upload to_delete to_update to_list to_static : Route

unfoldable pub route : Text → Route
unfolding same_exact
route path =
    if same_exact path (codes "/login")
    then to_login
    else if same_exact path (codes "/signup")
    then to_signup
    else if same_exact path (codes "/logout")
    then to_logout
    else if same_exact path (codes "/upload")
    then to_upload
    else if same_exact path (codes "/admin/video/delete")
    then to_delete
    else if same_exact path (codes "/admin/video/update")
    then to_update
    else if same_exact path (codes "/admin/video/list")
    then to_list
    else to_static

-- What the outside answers to one request, and `handle_upload_request`: it gets the content type,
-- the body and the tables.
pub record Outside (b : Backend) : Type 0 where
  pub system : System
  pub allocated : Bool
  pub files : Text → Option File
  pub upload : Text → Text → b.sessions.Store → Outcome b

module _ (b : Backend) where
  -- `handle_upload`.
  unfoldable pub handle_upload : Outside b → HttpRequest → b.sessions.Store → Text → Outcome b
  unfolding preflight get_header
  handle_upload outside req store body =
      if same_text req.method (codes "OPTIONS")
      then (preflight req, store, [])
      else if length body == 0
      then (bad_request (codes "empty-body"), store, [])
      else elim (get_header req.headers (codes "content-type")) [
        | none ↦ (bad_request (codes "missing-content-type"), store, [])
        | some content_type ↦ outside.upload content_type body store
      ]

  -- A handler at work. The administrators' handlers read the body as a text, without closing it:
  -- they also see what stands behind it.
  unfoldable pub dispatch : Route → Outside b → HttpRequest → b.sessions.Store → Text → Outcome b
  unfolding handle_upload handle_login handle_signup handle_logout handle_admin_delete
      handle_admin_update handle_admin_list handle_static_file
  dispatch to_login outside req store body = handle_login b outside.system req store body
  dispatch to_signup outside req store body = handle_signup b outside.system req store body
  dispatch to_logout outside req store body = handle_logout b req store
  dispatch to_upload outside req store body = handle_upload outside req store body
  dispatch to_delete outside req store body =
      handle_admin_delete b store req (c_string (body ++ outside.system.stale))
  dispatch to_update outside req store body =
      handle_admin_update b store req (c_string (body ++ outside.system.stale))
  dispatch to_list outside req store body = handle_admin_list b store req
  dispatch to_static outside req store body =
      ((handle_static_file outside.files outside.allocated req).0, store, [])

  -- The reply, the tables, and what was done to files.
  unfoldable pub answer : Outside b → HttpRequest → b.sessions.Store → Body → Outcome b
  unfolding dispatch route
  answer outside req store (rejected r) = (r, store, [])
  answer outside req store (whole body) = dispatch (route req.path) outside req store body

  -- `http_api_handle`, after the tests of its arguments: whether the reply was sent, the connection,
  -- the tables, and what was done to files. The last argument is what was read with the header.
  unfoldable pub api_handle :
      (socket : Socket)
      → socket.Conn
      → Outside b
      → HttpRequest
      → b.sessions.Store
      → Text
      → Bool × socket.Conn × b.sessions.Store × List Effect
  unfolding read_body content_length answer send_response
  api_handle socket conn outside req store pre_read =
      let is_upload = same_exact req.path (codes "/upload") in
      let (body, conn1) =
        read_body socket outside.allocated conn is_upload (content_length req.headers) pre_read in
      let (r, store', effects) = answer outside req store body in
      let (ok, conn2) = send_response socket conn1 r in (ok, conn2, store', effects)
