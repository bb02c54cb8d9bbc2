-- ===== src/Upload.antt =====
-- src/server/upload.c: the request that uploads a video; its parser is Upload/Form.antt. The table of
-- the videos, the files and the tools that are run are interfaces.
pub mod Form
pub mod Failed
mod Tests
use ott_quic.Common.{
  ℕ, zero, suc, ◌+◌, ◌-◌, ◌*◌, Bool, true, false, not, ◌&&◌, ◌||◌, Option, none, some, List, [],
  ◌∷◌, ◌++◌, ltb, leb, ◌==◌, if◌then◌else◌, length, take, drop,
}
use ott_quic.Text.{Text, codes, print_int, cut}
use ott_quic.Upload.Form.{Parts, parse_multipart, boundary_of}

-- The table of the videos. `none` and `false` are a code other than `SQLITE_OK`.
pub record Videos : Type 1 where
  pub Store : Type 0
  pub create_video : Store → Text → Text → Text → Text → ℕ → Option (ℕ × Store)
  pub delete_video_by_id : Store → ℕ → Bool × Store
  pub update_video_segment_path : Store → ℕ → Text → Store

-- What the system answers: `malloc`, the time in seconds as a text, the three directories,
-- `write_file`, the duration that was probed, and the script that makes the segments.
pub record Tools : Type 0 where
  pub allocated : Bool
  pub time : Text
  pub directories : Bool
  pub written : Bool
  pub duration : ℕ
  pub segmented : Bool

-- What is done to files: so many bytes of a buffer are written, a file is removed, a command runs.
pub data FileStep : Type 0 where
  wrote : Text → Text → ℕ → FileStep
  removed : Text → FileStep
  ran : Text → FileStep

abbrev pub error_reply : Text → Text → Text
error_reply status message =
    codes "HTTP/1.1 "
    ++ (status
        ++ (codes
              "\r\nContent-Type: application/json\r\nAccess-Control-Allow-Origin: *\r\nAccess-Control-Allow-Credentials: true\r\n\r\n{\"status\":\"error\",\"message\":\""
            ++ (message ++ codes "\"}")))

unfoldable pub uploaded_text : ℕ → Text
unfolding print_int
uploaded_text video = cut 256 (
    codes
      "HTTP/1.1 200 OK\r\nContent-Type: application/json\r\nAccess-Control-Allow-Origin: *\r\nAccess-Control-Allow-Credentials: true\r\n\r\n{\"status\":\"ok\",\"video_id\":"
    ++ (print_int video ++ codes "}"))

-- A text, or another if it is empty.
abbrev pub or_else : Text → Text → Text
or_else [] other = other
or_else (c ∷ text) other = c ∷ text

module _ (videos : Videos) where
  -- Whether it succeeds, the reply if there is one, the table, and what was done to files.
  abbrev pub Result : Type 0
  Result = Bool × Option Text × videos.Store × List FileStep

  abbrev pub base_name : Tools → Text
  base_name tools = codes "video_" ++ tools.time

  abbrev pub video_path : Tools → Text
  video_path tools = codes "data/videos/" ++ (base_name tools ++ codes ".mp4")

  abbrev pub thumb_path : Tools → Text
  thumb_path tools = codes "data/thumbs/" ++ (base_name tools ++ codes ".jpg")

  -- From the script on. The code of `db_delete_video_by_id` is not looked at.
  unfoldable pub make_segments : Tools → videos.Store → ℕ → List FileStep → Result
  unfolding print_int uploaded_text
  make_segments tools store video steps =
      let script =
        codes "tools/segment_video.sh " ++ (print_int video ++ (codes " " ++ video_path tools)) in
      if not tools.segmented
      then (
        false,
        none,
        (videos.delete_video_by_id store video).1,
        steps ++ (ran script ∷ removed (video_path tools) ∷ removed (thumb_path tools) ∷ []),
      )
      else (
        true,
        some (uploaded_text video),
        videos.update_video_segment_path store video (codes "data/segments/" ++ print_int video),
        steps ++ (ran script ∷ []),
      )

  -- From the directories on.
  unfoldable pub store_video : Tools → videos.Store → Text → Parts → Result
  unfolding make_segments
  store_video tools store file parts =
      let steps = wrote (video_path tools) file parts.file_len ∷ [] in
      if not tools.directories
      then (false, none, store, [])
      else if not tools.written
      then (false, none, store, steps)
      else elim (videos.create_video store (or_else parts.title (base_name tools))
          (or_else parts.description (codes "uploaded")) (video_path tools) (thumb_path tools)
          tools.duration) [
            | none ↦ (
              false,
              none,
              store,
              steps ++ (removed (video_path tools) ∷ removed (thumb_path tools) ∷ []),
            )
            | some (video, store') ↦ make_segments tools store' video steps
          ]

  -- From the parser on.
  unfoldable pub upload_form : Tools → videos.Store → Text → Text → Result
  unfolding parse_multipart store_video
  upload_form tools store body boundary = elim (parse_multipart tools.allocated body boundary) [
    | none ↦
        (false, some (error_reply (codes "400 Bad Request") (codes "invalid-multipart")), store, [])
    | some (file, parts) ↦ store_video tools store file parts
  ]

  -- `handle_upload_request`. A boundary has at most 102 characters, so it is never too long.
  unfoldable pub handle_upload_request : Tools → videos.Store → Text → Text → Result
  unfolding boundary_of upload_form
  handle_upload_request tools store content_type body =
      if length body == 0
      then (false, none, store, [])
      else if ltb (2 * 1024 * 1024 * 1024) (length body)
      then (
        false,
        some (error_reply (codes "413 Payload Too Large") (codes "payload-too-large")),
        store,
        [],
      )
      else elim (boundary_of content_type) [
        | none ↦ (
          false,
          some (error_reply (codes "400 Bad Request") (codes "multipart-required")),
          store,
          [],
        )
        | some boundary ↦
            if ltb (length boundary) 4
            then (
              false,
              some (error_reply (codes "400 Bad Request") (codes "invalid-boundary")),
              store,
              [],
            )
            else upload_form tools store body boundary
      ]
