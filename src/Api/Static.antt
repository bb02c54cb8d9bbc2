-- ===== src/Api/Static.antt =====
-- `handle_static_file` and `guess_mime` of src/http/api.c. The files are an interface.
use ott_quic.Common.{
  ℕ, zero, suc, ◌*◌, Bool, false, not, ◌&&◌, ◌||◌, Option, none, some, [], ◌∷◌, ◌++◌, ltb, ◌==◌,
  if◌then◌else◌, length, drop,
}
use ott_quic.Text.{Text, codes, same_text, same_exact, without, after_text, cut, fits}
use ott_quic.Http.{HttpRequest}
use ott_quic.Api.Reply.{Response, reply, refuse}
use ott_quic.Api.Account.{bad_request, internal_error, method_not_allowed, status_ok}

-- A file: whether it is a directory, its size, whether `fopen` succeeds, and what `fread` returns.
pub record File : Type 0 where
  pub is_directory : Bool
  pub size : ℕ
  pub opens : Bool
  pub content : Text

-- The text from the last dot on, where `strrchr` finds one.
unfoldable pub from_last_dot : Text → Option Text
from_last_dot [] = none
from_last_dot (c ∷ path) =
    let later = from_last_dot path in
    elim later [ some dot ↦ some dot | none ↦ if c == b'.' then some (c ∷ path) else none ]

-- `guess_mime`, from the extension on.
unfoldable pub mime_of : Text → Text
unfolding same_text
mime_of dot =
    if same_text dot (codes ".html") || same_text dot (codes ".htm")
    then codes "text/html; charset=utf-8"
    else if same_text dot (codes ".js")
    then codes "application/javascript; charset=utf-8"
    else if same_text dot (codes ".css")
    then codes "text/css; charset=utf-8"
    else if same_text dot (codes ".json")
    then codes "application/json; charset=utf-8"
    else if same_text dot (codes ".png")
    then codes "image/png"
    else if same_text dot (codes ".jpg") || same_text dot (codes ".jpeg")
    then codes "image/jpeg"
    else if same_text dot (codes ".mp4")
    then codes "video/mp4"
    else if same_text dot (codes ".m3u8")
    then codes "application/vnd.apple.mpegurl"
    else if same_text dot (codes ".svg")
    then codes "image/svg+xml"
    else codes "application/octet-stream"

unfoldable pub guess_mime : Text → Text
unfolding from_last_dot mime_of
guess_mime path = elim (from_last_dot path) [
  | none ↦ codes "application/octet-stream"
  | some dot ↦ mime_of dot
]

-- The loop that copies the path up to a `?` or `#`, with room for so many characters.
unfoldable pub plain_path : ℕ → Text → Text
plain_path zero raw = []
plain_path (suc room) [] = []
plain_path (suc room) (c ∷ raw) =
    let later = plain_path room raw in if (c == b'?') || (c == b'#') then [] else c ∷ later

-- Whether the last character is a slash.
unfoldable pub ends_with_slash : Text → Bool
ends_with_slash [] = false
ends_with_slash (c ∷ []) = c == b'/'
ends_with_slash (c ∷ (d ∷ path)) = ends_with_slash (d ∷ path)

-- What a path leads to: a refusal, or the path of a file below a directory, and in the file system.
pub data Target : Type 0 where
  refused : Response → Target
  file : Text → Text → Target

abbrev pub too_long : Response
too_long = refuse (codes "HTTP/1.1 414 URI Too Long\r\n") (codes "path-too-long")

-- `fs_path`, if the rest of the path is not empty.
unfoldable pub below : Text → Text → Target
below base subpath =
    let rel = cut 256 subpath in
    if length subpath == 0
    then refused (bad_request (codes "bad-path"))
    else if fits 4096 (base ++ rel)
    then file rel (base ++ rel)
    else refused too_long

-- The file of a path that has no "..".
unfoldable pub locate : Text → Target
unfolding below same_exact without ends_with_slash
locate path =
    if same_exact path (codes "/")
    then below (codes "web/") (codes "index.html")
    else elim (without (codes "/data/") path) [
      | some _ ↦ below [] (drop 1 path)
      | none ↦
          let subpath = drop 1 path in
          if ends_with_slash subpath
          then (if fits 256 (subpath ++ codes "index.html")
              then below (codes "web/") (subpath ++ codes "index.html")
              else refused too_long)
          else below (codes "web/") subpath
    ]

-- The first character of the path that is requested is a slash.
abbrev pub has_slash : Text → Bool
has_slash [] = false
has_slash (c ∷ raw) = c == b'/'

unfoldable pub target : Text → Target
unfolding locate plain_path after_text
target raw =
    if not (has_slash raw)
    then refused (bad_request (codes "bad-path"))
    else elim (after_text (codes "..") (plain_path 255 raw)) [
      | some _ ↦ refused (bad_request (codes "invalid-path"))
      | none ↦ locate (plain_path 255 raw)
    ]

-- The reply with a file; the first argument is whether `malloc` succeeds. A HEAD request gets no
-- body.
unfoldable pub send_file : Bool → HttpRequest → Text → File → Response
unfolding guess_mime
send_file allocated req fs_path f =
    if ltb (10 * 1024 * 1024) f.size
    then refuse (codes "HTTP/1.1 413 Payload Too Large\r\n") (codes "file-too-large")
    else if not f.opens
    then internal_error (codes "open-failed")
    else if not allocated
    then internal_error (codes "oom")
    else if not (length f.content == f.size)
    then internal_error (codes "read-failed")
    else record {
      status = status_ok;
      headers = codes "Content-Type: " ++ (guess_mime fs_path ++ codes "\r\n");
      content_length = length f.content;
      body = if same_text req.method (codes "HEAD") then [] else f.content;
    }

-- The reply where `stat` fails, or finds a directory.
unfoldable pub not_found : Text → Response
unfolding same_exact
not_found rel =
    if same_exact rel (codes "favicon.ico")
    then reply (codes "HTTP/1.1 204 No Content\r\n") (codes "Content-Type: image/x-icon\r\n") []
    else refuse (codes "HTTP/1.1 404 Not Found\r\n") (codes "not-found")

-- The reply, and the path in the file system that was looked up; `files` answers `stat`.
unfoldable pub lookup : (Text → Option File) → Bool → HttpRequest → Target → Response × Option Text
unfolding send_file not_found
lookup files allocated req (refused r) = (r, none)
lookup files allocated req (file rel fs_path) = elim (files fs_path) [
  | none ↦ (not_found rel, some fs_path)
  | some f ↦
      (if f.is_directory then not_found rel else send_file allocated req fs_path f, some fs_path)
]

unfoldable pub handle_static_file :
    (Text → Option File) → Bool → HttpRequest → Response × Option Text
unfolding target lookup
handle_static_file files allocated req =
    if not (same_text req.method (codes "GET")) && not (same_text req.method (codes "HEAD"))
    then (method_not_allowed, none)
    else lookup files allocated req (target req.path)
