-- ===== src/Client/Segments.antt =====
-- The segments of a video: `send_ws_file` of src/server/websocket.c and the commands that use it.
use ott_quic.Common.{
  ℕ, zero, suc, ◌+◌, ◌-◌, ◌*◌, ◌^◌, Bool, true, false, not, ◌&&◌, ◌||◌, Option, none, some, [], ◌∷◌,
  ◌++◌, ltb, ◌==◌, if◌then◌else◌, length, replicate, u64,
}
use ott_quic.Text.{Text, codes, print_nat, print_int}
use ott_quic.Http.{c_string}
use ott_quic.WebSocket.Io.{Socket}
use ott_quic.WebSocket.Frame.{shifted}
use ott_quic.Command.{Command}
use ott_quic.Client.Library.{Library, World, Answers, send_to_client, send_json_response}

-- "data/segments/", the number of the video, and a slash.
unfoldable pub segment_dir : ℕ → Text
unfolding print_int
segment_dir video = codes "data/segments/" ++ (print_int video ++ codes "/")

-- `%05d`.
unfoldable pub print_five : ℕ → Text
unfolding print_nat
print_five n =
    if ltb n (2 ^ 31)
    then replicate (5 - length (print_nat n)) b'0' ++ print_nat n
    else b'-' ∷ (replicate (4 - length (print_nat (2 ^ 32 - n))) b'0' ++ print_nat (2 ^ 32 - n))

unfoldable pub segment_path : ℕ → ℕ → Text
unfolding segment_dir print_five
segment_path video index =
    segment_dir video ++ (codes "chunk-stream0-" ++ (print_five index ++ codes ".m4s"))

-- The loop over the blanks and the ends of lines.
unfoldable pub skip_layout : Text → Text
skip_layout [] = []
skip_layout (c ∷ text) =
    let later = skip_layout text in
    if (c == b' ') || ((c == b'\n') || ((c == b'\r') || (c == 9))) then later else c ∷ text

unfoldable pub after_brace : Text → Text
unfolding skip_layout
after_brace [] = []
after_brace (c ∷ text) = if c == b'{' then skip_layout text else c ∷ text

-- The content of segment_info.json behind its opening brace.
unfoldable pub content_start : Text → Text
unfolding after_brace
content_start file = after_brace (skip_layout (c_string file))

-- The loop that counts the files; `none` if the file of every round exists.
unfoldable pub count_segments : (Text → Option ℕ) → ℕ → ℕ → ℕ → ℕ
unfolding segment_path
count_segments stat video zero i = 0
count_segments stat video (suc rounds) i =
    let later = count_segments stat video rounds (i + 1) in
    elim (stat (segment_path video i)) [ none ↦ i | some size ↦ later ]

-- The reply with the durations, where segment_info.json does not serve.
unfoldable pub init_text : ℕ → ℕ → Text
unfolding print_int
init_text duration total =
    codes "{\"type\":\"ws_init\",\"status\":\"ok\",\"duration\":"
    ++ (print_int duration ++ (codes ",\"total_segments\":" ++ (print_int total ++ codes "}")))

unfoldable pub missing_text : ℕ → Text
unfolding print_int
missing_text index =
    codes "{\"type\":\"ws_segment\",\"status\":\"error\",\"segment\":"
    ++ (print_int index ++ codes ",\"message\":\"segment-missing\"}")

module _ (socket : Socket) (lib : Library) where
  -- The file as one binary frame, with four characters and its number in front.
  unfoldable pub send_ws_file :
      Answers → World socket lib → Text → Text → ℕ → Bool × World socket lib
  unfolding send_to_client shifted
  send_ws_file a w path magic index = elim (a.read path) [
    | none ↦ (false, w)
    | some content ↦
        if length content == 0
        then (false, w)
        else if not a.allocated
        then (false, w)
        else send_to_client socket lib w 2 (magic ++ (shifted 4 index ++ content))
  ]

  unfoldable pub duration_of : World socket lib → ℕ → ℕ
  duration_of w video = elim (lib.get_video_by_id w.store video) [ none ↦ 0 | some v ↦ v.duration ]

  unfoldable pub init_counted : Answers → World socket lib → ℕ → Bool × World socket lib
  unfolding duration_of count_segments init_text send_to_client
  init_counted a w video =
      send_to_client socket lib w 1
        (init_text (duration_of w video) (count_segments a.stat video 1000 0))

  -- After the first frame.
  unfoldable pub init_info : Answers → World socket lib → ℕ → Bool × World socket lib
  unfolding init_counted content_start segment_dir send_to_client
  init_info a w video = elim (a.read (segment_dir video ++ codes "segment_info.json")) [
    | none ↦ init_counted a w video
    | some file ↦
        if ltb 0 (length file) && ltb (length file) (1024 * 1024) && a.allocated
        then send_to_client socket lib w 1
            (codes "{\"type\":\"ws_init\",\"status\":\"ok\"," ++ content_start file)
        else init_counted a w video
  ]

  unfoldable pub init_segment : Answers → World socket lib → ℕ → Bool × World socket lib
  unfolding send_ws_file init_info send_json_response
  init_segment a w video =
      let (ok, w') =
        send_ws_file a w (segment_dir video ++ codes "init-stream0.m4s") (codes "INIT") 0 in
      if not ok
      then send_json_response socket lib w' (codes "ws_segment") (codes "error")
          (codes "init-missing")
      else init_info a w' video

  -- What follows the second attempt, or a first one that succeeds.
  unfoldable pub after_segment : Bool → World socket lib → ℕ → Bool × World socket lib
  unfolding missing_text send_to_client send_json_response
  after_segment true w index =
      send_json_response socket lib (record w { segment_sent_ok = u64 (w.segment_sent_ok + 1) })
        (codes "ws_segment") (codes "ok") (codes "segment-sent")
  after_segment false w index =
      send_to_client socket lib (record w { segment_sent_fail = u64 (w.segment_sent_fail + 1) }) 1
        (missing_text index)

  unfoldable pub send_segment : Answers → World socket lib → Command → Bool × World socket lib
  unfolding send_ws_file after_segment segment_path
  send_segment a w cmd =
      let path = segment_path cmd.video_id cmd.segment_index in
      let (ok, w1) = send_ws_file a w path (codes "SEGM") cmd.segment_index in
      let (again, w2) = send_ws_file a w1 path (codes "SEGM") cmd.segment_index in
      if ok
      then after_segment true w1 cmd.segment_index
      else after_segment again w2 cmd.segment_index
