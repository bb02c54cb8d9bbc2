-- ===== src/Client/Quiet.antt =====
-- Handlers that only reply: they leave the engine, the packet number and the tables as they are.
use ott_quic.Common.{
  ℕ, ◌≡◌, refl, ◌∙◌, Bool, true, false, not, ◌&&◌, List, ◌++◌, ltb, ◌==◌, length, map, Bool-cases,
  Option-cases, inl, inr, ◌*◌,
}
use ott_quic.Text.{Text, codes, fits, is_positive}
use ott_quic.Text.Rows.{rows_text}
use ott_quic.WebSocket.Io.{Socket}
use ott_quic.Command.{Command}
use ott_quic.Client.Library.{Library, World, Answers, send_to_client, send_json_response, json_text}
use ott_quic.Client.Videos.{
  send_fitting, send_rows, list_recent, list_begun, show_detail, start_stream, full_path, item_text,
  begun_text, detail_text, start_text,
}
use ott_quic.Client.Segments.{
  send_ws_file, init_counted, init_info, init_segment, after_segment, send_segment, segment_dir,
  segment_path,
}
use ott_quic.Client.Watch.{get_watched, watched_text}

module _ (socket : Socket) (lib : Library) where
  abbrev pub IsQuiet : World socket lib → Bool × World socket lib → Type 0
  IsQuiet w r =
      (r.1.engine ≡ w.engine)
      × (r.1.store ≡ w.store)
      × (r.1.next_packet_number ≡ w.next_packet_number)

  pub send_to_client-IsQuiet :
      (w : World socket lib) (opcode : ℕ) (payload : Text)
      → IsQuiet w (send_to_client socket lib w opcode payload)
  unfolding send_to_client
  send_to_client-IsQuiet w opcode payload = (refl, refl, refl)

  pub send_json_response-IsQuiet :
      (w : World socket lib) (type status message : Text)
      → IsQuiet w (send_json_response socket lib w type status message)
  unfolding send_json_response
  send_json_response-IsQuiet w type status message =
      send_to_client-IsQuiet w 1 (json_text type status message)

  pub send_fitting-IsQuiet :
      (w : World socket lib) (size : ℕ) (text : Text)
      → IsQuiet w (send_fitting socket lib w size text)
  unfolding send_fitting send_json_response send_to_client
  send_fitting-IsQuiet w size text = elim (Bool-cases (fits size text)) [
    | inl e ↦ rw (e, send_fitting) (send_to_client-IsQuiet w 1 text)
    | inr e ↦ rw (e, send_fitting) (refl, refl, refl)
  ]

  send_rows-IsQuiet :
      (w : World socket lib) (opening : Text) (rows : List Text)
      → IsQuiet w (send_rows socket lib w opening rows)
  unfolding send_rows send_json_response send_to_client
  send_rows-IsQuiet w opening rows = elim (Option-cases (rows_text 4096 opening rows)) [
    | inl e ↦ rw (e, send_rows) (refl, refl, refl)
    | inr (text, e) ↦ rw (e, send_rows) (send_to_client-IsQuiet w 1 text)
  ]

  pub list_recent-IsQuiet : (w : World socket lib) → IsQuiet w (list_recent socket lib w)
  unfolding list_recent send_json_response send_to_client
  list_recent-IsQuiet w = elim (Option-cases (lib.recent_videos w.store)) [
    | inl e ↦ rw (e, list_recent) (refl, refl, refl)
    | inr (items, e) ↦
        rw (e, list_recent)
          (send_rows-IsQuiet w (codes "{\"type\":\"videos\",\"items\":[") (map item_text items))
  ]

  pub list_begun-IsQuiet :
      (w : World socket lib) (user : ℕ) → IsQuiet w (list_begun socket lib w user)
  unfolding list_begun send_json_response send_to_client
  list_begun-IsQuiet w user = elim (Bool-cases (not (is_positive user))) [
    | inl u ↦ rw (u, list_begun) (refl, refl, refl)
    | inr u ↦ elim (Option-cases (lib.watched_videos w.store user)) [
      | inl e ↦ rw (u, list_begun) (rw e (refl, refl, refl))
      | inr (items, e) ↦
          rw (u, list_begun)
            (rw e (
              send_rows-IsQuiet w (codes "{\"type\":\"continue_videos\",\"items\":[")
                (map begun_text items)))
    ]
  ]

  pub show_detail-IsQuiet :
      (w : World socket lib) (cmd : Command) → IsQuiet w (show_detail socket lib w cmd)
  unfolding show_detail send_json_response send_to_client
  show_detail-IsQuiet w cmd = elim (Option-cases (lib.video_detail w.store cmd.video_id)) [
    | inl e ↦ rw (e, show_detail) (refl, refl, refl)
    | inr (found, e) ↦ elim (Option-cases found) [
      | inl f ↦ rw (e, show_detail) (rw f (refl, refl, refl))
      | inr (v, f) ↦
          rw (e, show_detail) (rw f (send_fitting-IsQuiet w 1024 (detail_text cmd.video_id v)))
    ]
  ]

  pub start_stream-IsQuiet :
      (a : Answers) (w : World socket lib) (cmd : Command)
      → IsQuiet w (start_stream socket lib a w cmd)
  unfolding start_stream send_json_response send_to_client
  start_stream-IsQuiet a w cmd = elim (Option-cases (lib.get_video_by_id w.store cmd.video_id)) [
    | inl e ↦ rw (e, start_stream) (refl, refl, refl)
    | inr (video, e) ↦ elim (Option-cases (a.stat (full_path video.file_path))) [
      | inl f ↦ rw (e, start_stream) (rw f (refl, refl, refl))
      | inr (size, f) ↦
          rw (e, start_stream)
            (rw f (
              send_fitting-IsQuiet w 256
                (start_text cmd size (a.probe_duration (full_path video.file_path)))))
    ]
  ]

  send_ws_file-IsQuiet :
      (a : Answers) (w : World socket lib) (path magic : Text) (index : ℕ)
      → IsQuiet w (send_ws_file socket lib a w path magic index)
  unfolding send_ws_file send_json_response send_to_client
  send_ws_file-IsQuiet a w path magic index = elim (Option-cases (a.read path)) [
    | inl e ↦ rw (e, send_ws_file) (refl, refl, refl)
    | inr (content, e) ↦ elim (Bool-cases (length content == 0)) [
      | inl z ↦ rw (e, send_ws_file) (rw z (refl, refl, refl))
      | inr z ↦ elim (Bool-cases (not a.allocated)) [
        | inl m ↦ rw (e, send_ws_file) (rw z (rw m (refl, refl, refl)))
        | inr m ↦ rw (e, send_ws_file) (rw z (rw m (refl, refl, refl)))
      ]
    ]
  ]

  init_counted-IsQuiet :
      (a : Answers) (w : World socket lib) (video : ℕ)
      → IsQuiet w (init_counted socket lib a w video)
  unfolding init_counted send_json_response send_to_client
  init_counted-IsQuiet a w video = (refl, refl, refl)

  init_info-IsQuiet :
      (a : Answers) (w : World socket lib) (video : ℕ) → IsQuiet w (init_info socket lib a w video)
  unfolding init_info send_json_response send_to_client
  init_info-IsQuiet a w video =
      elim (Option-cases (a.read (segment_dir video ++ codes "segment_info.json"))) [
        | inl e ↦ rw (e, init_info) (init_counted-IsQuiet a w video)
        | inr (file, e) ↦
            elim (Bool-cases
              (ltb 0 (length file) && ltb (length file) (1024 * 1024) && a.allocated)) [
                | inl s ↦ rw (e, init_info) (rw s (refl, refl, refl))
                | inr s ↦ rw (e, init_info) (rw s (init_counted-IsQuiet a w video))
              ]
      ]

  -- One handler after another.
  IsQuiet-trans :
      (w : World socket lib) (r r' : Bool × World socket lib)
      → IsQuiet w r
      → IsQuiet r.1 r'
      → IsQuiet w r'
  IsQuiet-trans w r r' (e, s, n) (e', s', n') = (e' ∙ e, s' ∙ s, n' ∙ n)

  pub init_segment-IsQuiet :
      (a : Answers) (w : World socket lib) (video : ℕ)
      → IsQuiet w (init_segment socket lib a w video)
  unfolding init_segment send_json_response send_to_client
  init_segment-IsQuiet a w video =
      let path = segment_dir video ++ codes "init-stream0.m4s" in
      let r = send_ws_file socket lib a w path (codes "INIT") 0 in
      let first = send_ws_file-IsQuiet a w path (codes "INIT") 0 in
      elim (Bool-cases (not r.0)) [
        | inl f ↦ rw (f, init_segment) first
        | inr f ↦
            rw (f, init_segment)
              (IsQuiet-trans w r (init_info socket lib a r.1 video) first
                (init_info-IsQuiet a r.1 video))
      ]

  after_segment-IsQuiet :
      (ok : Bool) (w : World socket lib) (index : ℕ)
      → IsQuiet w (after_segment socket lib ok w index)
  unfolding after_segment send_json_response send_to_client
  after_segment-IsQuiet true w index = (refl, refl, refl)
  after_segment-IsQuiet false w index = (refl, refl, refl)

  pub send_segment-IsQuiet :
      (a : Answers) (w : World socket lib) (cmd : Command)
      → IsQuiet w (send_segment socket lib a w cmd)
  unfolding send_segment
  send_segment-IsQuiet a w cmd =
      let path = segment_path cmd.video_id cmd.segment_index in
      let r1 = send_ws_file socket lib a w path (codes "SEGM") cmd.segment_index in
      let r2 = send_ws_file socket lib a r1.1 path (codes "SEGM") cmd.segment_index in
      let first = send_ws_file-IsQuiet a w path (codes "SEGM") cmd.segment_index in
      let second = send_ws_file-IsQuiet a r1.1 path (codes "SEGM") cmd.segment_index in
      elim (Bool-cases r1.0) [
        | inl e ↦
            rw (e, send_segment)
              (IsQuiet-trans w r1 (after_segment socket lib true r1.1 cmd.segment_index) first
                (after_segment-IsQuiet true r1.1 cmd.segment_index))
        | inr e ↦
            rw (e, send_segment)
              (IsQuiet-trans w r2 (after_segment socket lib r2.0 r2.1 cmd.segment_index)
                (IsQuiet-trans w r1 r2 first second)
                (after_segment-IsQuiet r2.0 r2.1 cmd.segment_index))
      ]

  pub get_watched-IsQuiet :
      (w : World socket lib) (user : ℕ) (cmd : Command)
      → IsQuiet w (get_watched socket lib w user cmd)
  unfolding get_watched send_json_response send_to_client
  get_watched-IsQuiet w user cmd = elim (Bool-cases (not (is_positive user))) [
    | inl u ↦ rw (u, get_watched) (refl, refl, refl)
    | inr u ↦ elim (Option-cases (lib.get_watch_history w.store user cmd.video_id)) [
      | inl e ↦ rw (u, get_watched) (rw e (refl, refl, refl))
      | inr (position, e) ↦
          rw (u, get_watched)
            (rw e (send_fitting-IsQuiet w 256 (watched_text user cmd.video_id position)))
    ]
  ]
