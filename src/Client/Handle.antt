-- ===== src/Client/Handle.antt =====
-- `handle_text_frame` of src/server/websocket.c: which handler a command gets.
use ott_quic.Common.{
  ℕ, ◌+◌, Bool, not, Option, none, some, List, ◌++◌, ◌==◌, if◌then◌else◌, length, u32,
}
use ott_quic.Text.{Text, codes, print_nat}
use ott_quic.Http.{c_string}
use ott_quic.Packet.{Packet, flag_data}
use ott_quic.WebSocket.Io.{Socket}
use ott_quic.Command.{
  Command, Kind, ping, quic_send, list_videos, video_detail, stream_start, stream_chunk, watch_get,
  watch_update, ws_init, ws_segment, list_continue, parse_command,
}
use ott_quic.Engine.State.{ConnState, idle, connecting, connected, closed}
use ott_quic.Engine.Api.{get_connection_state, send_to_connection}
use ott_quic.Client.Library.{Library, World, Answers, send_error, send_json_response}
use ott_quic.Client.Videos.{list_recent, list_begun, show_detail, start_stream, stream_chunk_of}
use ott_quic.Client.Segments.{init_segment, send_segment}
use ott_quic.Client.Watch.{get_watched, update_watched}

abbrev pub state_name : ConnState → Text
state_name idle = codes "idle"
state_name connecting = codes "connecting"
state_name connected = codes "unknown"
state_name closed = codes "closed"

-- The packet of the command quic_send.
abbrev pub command_packet : Command → ℕ → Packet
command_packet cmd number = record {
  flags = flag_data;
  connection_id = cmd.connection_id;
  packet_number = number;
  stream_id = cmd.stream_id;
  offset = cmd.offset;
  payload_length = u32 (length cmd.payload);
  payload = some cmd.payload;
}

module _ (socket : Socket) (lib : Library) where
  -- From the packet number on.
  unfoldable pub send_packet : Answers → World socket lib → Command → Bool × World socket lib
  unfolding send_to_connection send_json_response print_nat
  send_packet a w cmd =
      let number = w.next_packet_number in
      let (ok, engine', events) =
        send_to_connection (a.env 0) w.engine (command_packet cmd number) in
      let w' : World socket lib = record w {
        engine = engine';
        events = w.events ++ events;
        next_packet_number = u32 (number + 1);
      } in
      if ok
      then send_json_response socket lib w' (codes "quic_send") (codes "ok")
          (codes "sent-pn-" ++ print_nat number)
      else send_error socket lib w' (codes "quic_send_failed") (codes "connection-not-found")

  -- The state of the connection decides.
  unfoldable pub send_in_state :
      Answers → World socket lib → Command → Option ConnState → Bool × World socket lib
  unfolding send_packet send_json_response
  send_in_state a w cmd none =
      send_error socket lib w (codes "connection-not-found") (codes "quic-connection-not-found")
  send_in_state a w cmd (some connected) = send_packet a w cmd
  send_in_state a w cmd (some state) =
      send_error socket lib w (codes "connection-not-ready")
        (codes "quic-connection-not-ready(" ++ (state_name state ++ codes ")"))

  -- A command, by its type.
  unfoldable pub handle_command :
      Answers → World socket lib → ℕ → Command → Kind → Bool × World socket lib
  unfolding send_json_response send_in_state get_connection_state list_recent list_begun show_detail
      start_stream stream_chunk_of init_segment send_segment get_watched update_watched
  handle_command a w user cmd ping =
      send_json_response socket lib w (codes "pong") (codes "ok") (codes "alive")
  handle_command a w user cmd quic_send =
      send_in_state a w cmd (get_connection_state w.engine cmd.connection_id)
  handle_command a w user cmd list_videos = list_recent socket lib w
  handle_command a w user cmd list_continue = list_begun socket lib w user
  handle_command a w user cmd video_detail = show_detail socket lib w cmd
  handle_command a w user cmd stream_start = start_stream socket lib a w cmd
  handle_command a w user cmd stream_chunk = stream_chunk_of socket lib a w cmd
  handle_command a w user cmd ws_init = init_segment socket lib a w cmd.video_id
  handle_command a w user cmd ws_segment = send_segment socket lib a w cmd
  handle_command a w user cmd watch_get = get_watched socket lib w user cmd
  handle_command a w user cmd watch_update = update_watched socket lib w user cmd
  handle_command a w user cmd _ =
      send_error socket lib w (codes "bad_request") (codes "unsupported")

  unfoldable pub handle_text_frame :
      Answers → World socket lib → ℕ → List ℕ → Bool × World socket lib
  unfolding send_json_response parse_command handle_command
  handle_text_frame a w user payload =
      if length payload == 0
      then send_error socket lib w (codes "bad_request") (codes "empty-payload")
      else if not a.allocated
      then send_error socket lib w (codes "internal_error") (codes "alloc-failed")
      else elim (parse_command (c_string payload)) [
        | none ↦ send_error socket lib w (codes "bad_request") (codes "unknown-command")
        | some cmd ↦ handle_command a w user cmd cmd.kind
      ]
