-- ===== src/Client/Videos.antt =====
-- The lists of videos, the details of one, and the start of a stream and its chunks.
use ott_quic.Common.{ℕ, Bool, not, none, some, List, [], ◌∷◌, ◌++◌, ◌==◌, if◌then◌else◌, take, map}
use ott_quic.Text.{Text, codes, cut, fits, print_nat, print_int, is_positive}
use ott_quic.Text.Rows.{rows_text}
use ott_quic.WebSocket.Io.{Socket}
use ott_quic.Command.{Command}
use ott_quic.Client.Library.{
  Library, World, Answers, VideoItem, VideoDetail, send_to_client, send_error, send_json_response,
}
use ott_quic.Client.Chunk.{Chunk, send_video_chunk}

-- The fields that both lists have.
abbrev pub item_fields : VideoItem → Text
item_fields v =
    codes "{\"id\":"
    ++ (print_int v.id
        ++ (codes ",\"title\":\""
            ++ (v.title
                ++ (codes "\",\"description\":\""
                    ++ (v.description
                        ++ (codes "\",\"thumbnail_path\":\""
                            ++ (v.thumbnail_path
                                ++ (codes "\",\"duration\":" ++ print_int v.duration))))))))

unfoldable pub item_text : VideoItem → Text
unfolding print_int
item_text v = item_fields v ++ codes "}"

unfoldable pub begun_text : VideoItem → Text
unfolding print_int
begun_text v = item_fields v ++ (codes ",\"position\":" ++ (print_int v.position ++ codes "}"))

unfoldable pub detail_text : ℕ → VideoDetail → Text
unfolding print_int
detail_text id v =
    codes "{\"type\":\"video_detail\",\"id\":"
    ++ (print_int id
        ++ (codes ",\"title\":\""
            ++ (v.title
                ++ (codes "\",\"description\":\""
                    ++ (v.description
                        ++ (codes "\",\"file_path\":\""
                            ++ (v.file_path
                                ++ (codes "\",\"thumbnail_path\":\""
                                    ++ (v.thumbnail_path
                                        ++ (codes "\",\"duration\":"
                                            ++ (print_int v.duration
                                                ++ (codes ",\"upload_date\":\""
                                                    ++ (v.upload_date ++ codes "\"}")))))))))))))

-- `full_path`.
unfoldable pub full_path : Text → Text
full_path [] = cut 512 (codes "data/videos/")
full_path (c ∷ path) =
    if c == b'/' then take 511 (c ∷ path) else cut 512 (codes "data/videos/" ++ (c ∷ path))

-- The reply to a start; no command sets the size of the chunks and the two ids.
unfoldable pub start_text : Command → ℕ → Text → Text
unfolding print_int print_nat
start_text cmd size duration =
    codes "{\"type\":\"stream_start\",\"status\":\"ok\",\"id\":"
    ++ (print_int cmd.video_id
        ++ (codes ",\"total_bytes\":"
            ++ (print_nat size
                ++ (codes ",\"chunk_size\":0,\"duration\":"
                    ++ (duration
                        ++ (codes ",\"connection_id\":"
                            ++ (print_nat cmd.connection_id
                                ++ (codes ",\"stream_id\":"
                                    ++ (print_nat cmd.stream_id ++ codes "}")))))))))

unfoldable pub chunk_text : Command → Text
unfolding print_nat
chunk_text cmd =
    codes "{\"type\":\"stream_chunk\",\"status\":\"ok\",\"offset\":"
    ++ (print_nat cmd.offset ++ (codes ",\"length\":" ++ (print_nat cmd.length_field ++ codes "}")))

module _ (socket : Socket) (lib : Library) where
  -- A reply from a buffer of so many bytes.
  unfoldable pub send_fitting : World socket lib → ℕ → Text → Bool × World socket lib
  unfolding send_to_client send_json_response
  send_fitting w size text =
      if fits size text
      then send_to_client socket lib w 1 text
      else send_error socket lib w (codes "internal_error") (codes "response-too-large")

  -- The reply with a list.
  unfoldable pub send_rows : World socket lib → Text → List Text → Bool × World socket lib
  unfolding rows_text send_to_client send_json_response
  send_rows w opening rows = elim (rows_text 4096 opening rows) [
    | none ↦ send_error socket lib w (codes "internal_error") (codes "response-too-large")
    | some text ↦ send_to_client socket lib w 1 text
  ]

  unfoldable pub list_recent : World socket lib → Bool × World socket lib
  unfolding send_rows item_text
  list_recent w = elim (lib.recent_videos w.store) [
    | none ↦ send_error socket lib w (codes "db_error") (codes "list-failed")
    | some items ↦ send_rows w (codes "{\"type\":\"videos\",\"items\":[") (map item_text items)
  ]

  unfoldable pub list_begun : World socket lib → ℕ → Bool × World socket lib
  unfolding send_rows begun_text
  list_begun w user =
      if not (is_positive user)
      then send_error socket lib w (codes "unauthorized") (codes "login-required")
      else elim (lib.watched_videos w.store user) [
        | none ↦ send_error socket lib w (codes "db_error") (codes "list-continue-failed")
        | some items ↦
            send_rows w (codes "{\"type\":\"continue_videos\",\"items\":[") (map begun_text items)
      ]

  unfoldable pub show_detail : World socket lib → Command → Bool × World socket lib
  unfolding send_fitting detail_text
  show_detail w cmd = elim (lib.video_detail w.store cmd.video_id) [
    | none ↦ send_error socket lib w (codes "db_error") (codes "detail-prepare-failed")
    | some none ↦ send_error socket lib w (codes "not_found") (codes "video-not-found")
    | some (some v) ↦ send_fitting w 1024 (detail_text cmd.video_id v)
  ]

  unfoldable pub start_stream : Answers → World socket lib → Command → Bool × World socket lib
  unfolding send_fitting full_path start_text
  start_stream a w cmd = elim (lib.get_video_by_id w.store cmd.video_id) [
    | none ↦ send_error socket lib w (codes "not_found") (codes "video-not-found")
    | some video ↦ elim (a.stat (full_path video.file_path)) [
      | none ↦ send_error socket lib w (codes "not_found") (codes "file-missing")
      | some size ↦
          send_fitting w 256 (start_text cmd size (a.probe_duration (full_path video.file_path)))
    ]
  ]

  -- What follows `send_video_chunk`: only after a success the number is written back.
  unfoldable pub after_chunk : World socket lib → Command → Chunk → Bool × World socket lib
  unfolding send_fitting chunk_text
  after_chunk w cmd r =
      let w' : World socket lib = record w { engine = r.engine; events = w.events ++ r.events } in
      if r.ok
      then send_fitting (record w' { next_packet_number = r.next_packet_number }) 128
          (chunk_text cmd)
      else send_error socket lib w' (codes "stream_failed") (codes "chunk-send-failed")

  unfoldable pub stream_chunk_of : Answers → World socket lib → Command → Bool × World socket lib
  unfolding after_chunk send_video_chunk full_path
  stream_chunk_of a w cmd = elim (lib.get_video_by_id w.store cmd.video_id) [
    | none ↦ send_error socket lib w (codes "not_found") (codes "video-not-found")
    | some video ↦
        let path = full_path video.file_path in
        after_chunk w cmd (
          send_video_chunk a.env w.engine cmd.connection_id cmd.stream_id cmd.offset
            cmd.length_field (a.stat path) (a.read path) w.next_packet_number)
  ]
