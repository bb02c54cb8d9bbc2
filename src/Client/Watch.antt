-- ===== src/Client/Watch.antt =====
-- What a user has watched: the commands watch_get and watch_update of src/server/websocket.c.
use ott_quic.Common.{ℕ, Bool, not, none, some, ◌++◌, if◌then◌else◌}
use ott_quic.Text.{Text, codes, print_int, is_positive}
use ott_quic.WebSocket.Io.{Socket}
use ott_quic.Command.{Command}
use ott_quic.Client.Library.{Library, World, send_error, send_json_response}
use ott_quic.Client.Videos.{send_fitting}

unfoldable pub watched_text : ℕ → ℕ → ℕ → Text
unfolding print_int
watched_text user video position =
    codes "{\"type\":\"watch_get\",\"status\":\"ok\",\"user_id\":"
    ++ (print_int user
        ++ (codes ",\"video_id\":"
            ++ (print_int video ++ (codes ",\"position\":" ++ (print_int position ++ codes "}")))))

unfoldable pub updated_text : ℕ → ℕ → Text
unfolding print_int
updated_text user position =
    codes "{\"type\":\"watch_update\",\"status\":\"ok\",\"user_id\":"
    ++ (print_int user ++ (codes ",\"position\":" ++ (print_int position ++ codes "}")))

module _ (socket : Socket) (lib : Library) where
  unfoldable pub get_watched : World socket lib → ℕ → Command → Bool × World socket lib
  unfolding send_fitting watched_text send_json_response
  get_watched w user cmd =
      if not (is_positive user)
      then send_error socket lib w (codes "unauthorized") (codes "login-required")
      else elim (lib.get_watch_history w.store user cmd.video_id) [
        | none ↦
            send_json_response socket lib w (codes "watch_get") (codes "not_found")
              (codes "history-missing")
        | some position ↦ send_fitting socket lib w 256 (watched_text user cmd.video_id position)
      ]

  unfoldable pub update_watched : World socket lib → ℕ → Command → Bool × World socket lib
  unfolding send_fitting updated_text send_json_response
  update_watched w user cmd =
      if not (is_positive user)
      then send_error socket lib w (codes "unauthorized") (codes "login-required")
      else (let (ok, store') = lib.upsert_watch_history w.store user cmd.video_id cmd.position in
          let w' : World socket lib = record w { store = store' } in
          if ok
          then send_fitting socket lib w' 128 (updated_text user cmd.position)
          else send_error socket lib w' (codes "db_error") (codes "watch-update-failed"))
