-- ===== src/Client/Library.antt =====
-- What the handlers of the commands share: the state of `websocket_context_t`, the tables and files
-- they use, and how they reply.
use ott_quic.Common.{ℕ, Bool, Option, List, [], ◌++◌}
use ott_quic.Text.{Text, codes, cut}
use ott_quic.WebSocket.Io.{Socket}
use ott_quic.WebSocket.Frame.{send_frame}
use ott_quic.Engine.State.{Engine, Env, Event}

-- Of `db_video_t`, the path of the file and the duration.
pub record VideoFile : Type 0 where
  pub file_path : Text
  pub duration : ℕ

-- A row of the list of videos; `position` is used in the list of those that were begun.
pub record VideoItem : Type 0 where
  pub id : ℕ
  pub title : Text
  pub description : Text
  pub thumbnail_path : Text
  pub duration : ℕ
  pub position : ℕ

pub record VideoDetail : Type 0 where
  pub title : Text
  pub description : Text
  pub file_path : Text
  pub thumbnail_path : Text
  pub duration : ℕ
  pub upload_date : Text

-- The tables of the videos and of what the users watched. `none` and `false` are a code other than
-- `SQLITE_OK`; `video_detail` also tells whether there is a row.
pub record Library : Type 1 where
  pub Store : Type 0
  pub get_video_by_id : Store → ℕ → Option VideoFile
  pub recent_videos : Store → Option (List VideoItem)
  pub watched_videos : Store → ℕ → Option (List VideoItem)
  pub video_detail : Store → ℕ → Option (Option VideoDetail)
  pub get_watch_history : Store → ℕ → ℕ → Option ℕ
  pub upsert_watch_history : Store → ℕ → ℕ → ℕ → Bool × Store

-- What the system answers while one command is handled: the size of a file, what is read of it, the
-- duration that `video_probe_duration` finds, with two digits, `malloc`, and the engine's calls, by
-- the rounds that are left of the loop that makes them.
pub record Answers : Type 0 where
  pub stat : Text → Option ℕ
  pub read : Text → Option Text
  pub probe_duration : Text → Text
  pub allocated : Bool
  pub env : ℕ → Env

-- The client's connection, `websocket_context_t` with its engine and its tables, and what the engine
-- did to the outside.
pub record World (socket : Socket) (lib : Library) : Type 0 where
  pub conn : socket.Conn
  pub engine : Engine
  pub next_packet_number : ℕ
  pub segment_sent_ok : ℕ
  pub segment_sent_fail : ℕ
  pub store : lib.Store
  pub events : List Event

-- The text of `send_json_response`, cut to its buffer.
unfoldable pub json_text : Text → Text → Text → Text
json_text type status message = cut 256 (
    codes "{\"type\":\""
    ++ (type
        ++ (codes "\",\"status\":\""
            ++ (status ++ (codes "\",\"message\":\"" ++ (message ++ codes "\"}"))))))

module _ (socket : Socket) (lib : Library) where
  -- The state of a client after `websocket_context_init`.
  unfoldable pub websocket_context_init : socket.Conn → Engine → lib.Store → World socket lib
  websocket_context_init conn engine store = record {
    conn = conn;
    engine = engine;
    next_packet_number = 1;
    segment_sent_ok = 0;
    segment_sent_fail = 0;
    store = store;
    events = [];
  }

  -- A frame to the client: whether it was sent, and the state.
  unfoldable pub send_to_client : World socket lib → ℕ → Text → Bool × World socket lib
  send_to_client w opcode payload =
      let (ok, conn') = send_frame socket w.conn opcode payload in (ok, record w { conn = conn' })

  unfoldable pub send_json_response :
      World socket lib → Text → Text → Text → Bool × World socket lib
  unfolding send_to_client json_text
  send_json_response w type status message = send_to_client w 1 (json_text type status message)

  abbrev pub send_error : World socket lib → Text → Text → Bool × World socket lib
  send_error w status message = send_json_response w (codes "error") status message
