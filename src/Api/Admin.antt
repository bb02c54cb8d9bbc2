-- ===== src/Api/Admin.antt =====
-- The handlers of src/http/api.c that only an administrator may call.
use ott_quic.Common.{
  map, ℕ, ◌+◌, Bool, false, not, Option, none, some, List, [], ◌∷◌, ◌++◌, ◌==◌, if◌then◌else◌,
  length,
}
use ott_quic.Text.{Text, codes, same_text, cut, print_int, is_positive}
use ott_quic.Text.Rows.{rows_text}
use ott_quic.Http.{HttpRequest}
use ott_quic.Session.{extract_from_headers, session_id_len}
use ott_quic.Session.Login.{validate_and_extend, session_ttl_seconds}
use ott_quic.Api.Reply.{Response, reply, refuse, text_plain}
use ott_quic.Api.Json.{extract_string, extract_int}
use ott_quic.Api.Backend.{Backend, Effect, unlinked, commanded, VideoRow, VideoPaths}
use ott_quic.Api.Account.{Outcome, bad_request, internal_error, status_ok}

abbrev pub max_title : ℕ
max_title = 128

abbrev pub max_description : ℕ
max_description = 512

abbrev pub forbidden : Response
forbidden = refuse (codes "HTTP/1.1 403 Forbidden\r\n") (codes "admin-required")

-- The bytes of `buf` in `handle_admin_list`.
abbrev pub list_size : ℕ
list_size = 8192

-- The object that `snprintf` writes for a row.
unfoldable pub row_text : VideoRow → Text
unfolding print_int
row_text v =
    codes "{\"id\":"
    ++ (print_int v.id
        ++ (codes ",\"title\":\""
            ++ (v.title
                ++ (codes "\",\"description\":\""
                    ++ (v.description
                        ++ (codes "\",\"file_path\":\""
                            ++ (v.file_path
                                ++ (codes "\",\"thumbnail_path\":\""
                                    ++ (v.thumbnail_path ++ codes "\"}")))))))))

-- From the loop over the rows on.
unfoldable pub list_reply : List VideoRow → Response
unfolding row_text rows_text
list_reply rows = elim (rows_text list_size (codes "{\"items\":[") (map row_text rows)) [
  | none ↦ internal_error (codes "response-too-large")
  | some text ↦ reply status_ok (codes "Content-Type: application/json\r\n") text
]

-- The number of a request's video, if it is greater than 0.
unfoldable pub requested_video : Text → Option ℕ
unfolding extract_int
requested_video body = elim (extract_int body (codes "video_id")) [
  | none ↦ none
  | some id ↦ if is_positive id then some id else none
]

-- What `handle_admin_delete` does to the files of a video.
unfoldable pub remove_files : VideoPaths → List Effect
remove_files v =
    (if length v.file_path == 0 then [] else unlinked v.file_path ∷ [])
    ++ ((if length v.thumbnail_path == 0 then [] else unlinked v.thumbnail_path ∷ [])
        ++ (if length v.segment_path == 0
            then []
            else commanded (cut 512 (codes "rm -rf " ++ v.segment_path)) ∷ []))

module _ (b : Backend) where
  -- Whether the user with this id is an administrator.
  unfoldable pub is_admin_id : b.sessions.Store → ℕ → Bool
  unfolding same_text
  is_admin_id store user =
      if not (is_positive user) then false else elim (b.get_user_by_id store user) [
        | none ↦ false
        | some p ↦ same_text p.role (codes "admin")
      ]

  -- `is_admin_user`, and the tables: the session is extended.
  unfoldable pub is_admin_user : b.sessions.Store → HttpRequest → Bool × b.sessions.Store
  unfolding is_admin_id
  is_admin_user store req = elim (extract_from_headers req.headers (session_id_len + 1)) [
    | none ↦ (false, store)
    | some sid ↦
        let (user, store') = validate_and_extend b.sessions store sid session_ttl_seconds in
        elim user [ none ↦ (false, store') | some user ↦ (is_admin_id store' user, store') ]
  ]

  -- The handlers behind the test. The bodies are read as texts although nothing closes them: the
  -- callers' `body` is what stands in `stack_buf` up to the first NUL.
  unfoldable pub delete_video : b.sessions.Store → Text → Outcome b
  unfolding requested_video remove_files
  delete_video store body = elim (requested_video body) [
    | none ↦ (bad_request (codes "invalid-video-id"), store, [])
    | some id ↦ elim (b.get_video_by_id store id) [
      | none ↦ (refuse (codes "HTTP/1.1 404 Not Found\r\n") (codes "video-not-found"), store, [])
      | some v ↦ (
        reply status_ok text_plain (codes "deleted"),
        b.delete_video_by_id store id,
        remove_files v,
      )
    ]
  ]

  -- A field of the body, empty if it is missing.
  unfoldable pub field_or_empty : Text → Text → ℕ → Text
  unfolding extract_string
  field_or_empty body key out_size = elim (extract_string body key out_size) [
    | none ↦ []
    | some text ↦ text
  ]

  unfoldable pub update_video : b.sessions.Store → Text → Outcome b
  unfolding requested_video field_or_empty
  update_video store body = elim (requested_video body) [
    | none ↦ (bad_request (codes "invalid-video-id"), store, [])
    | some id ↦
        let title = field_or_empty body (codes "title") max_title in
        let description = field_or_empty body (codes "description") max_description in
        let (ok, store') = b.update_video_metadata store id title description in
        if ok
        then (reply status_ok text_plain (codes "updated"), store', [])
        else (internal_error (codes "update-failed"), store', [])
  ]

  unfoldable pub list_videos : b.sessions.Store → Outcome b
  unfolding list_reply
  list_videos store = elim (b.list_videos store) [
    | none ↦ (internal_error (codes "db-error"), store, [])
    | some rows ↦ (list_reply rows, store, [])
  ]

  -- The test, and what it protects.
  unfoldable pub if_admin :
      (b.sessions.Store → Outcome b) → b.sessions.Store → HttpRequest → Outcome b
  unfolding is_admin_user
  if_admin handler store req =
      let (admin, store') = is_admin_user store req in
      if admin then handler store' else (forbidden, store', [])

  unfoldable pub handle_admin_delete : b.sessions.Store → HttpRequest → Text → Outcome b
  unfolding if_admin delete_video
  handle_admin_delete store req body = if_admin (λ s. delete_video s body) store req

  unfoldable pub handle_admin_update : b.sessions.Store → HttpRequest → Text → Outcome b
  unfolding if_admin update_video
  handle_admin_update store req body = if_admin (λ s. update_video s body) store req

  unfoldable pub handle_admin_list : b.sessions.Store → HttpRequest → Outcome b
  unfolding if_admin list_videos
  handle_admin_list store req = if_admin (λ s. list_videos s) store req
