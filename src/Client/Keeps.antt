-- ===== src/Client/Keeps.antt =====
-- What a text frame changes: the engine stays well formed, and only a user's own position is written
-- to the tables.
use ott_quic.Common.{
  ℕ, zero, suc, ◌+◌, ◌-◌, ◌≡◌, ◌⊎◌, refl, sym, Bool, true, not, ◌||◌, Option, none, some, List,
  ◌++◌, ltb, leb, ◌==◌, if◌then◌else◌, length, take, drop, u32, Bool-cases, Option-cases, inl, inr,
}
use mathlib.Core.Path.{subst}
use ott_quic.Text.{is_positive}
use ott_quic.Http.{c_string}
use ott_quic.Packet.{max_payload}
use ott_quic.WebSocket.Io.{Socket}
use ott_quic.Command.{
  Command, Kind, unknown, ping, quic_send, list_videos, video_detail, stream_start, stream_chunk,
  watch_get, watch_update, stream_seek, stream_stop, ws_init, ws_segment, list_continue,
  parse_command,
}
use ott_quic.Engine.State.{Engine, Env, ConnState, idle, connecting, connected, closed}
use ott_quic.Engine.Invariant.{EngineInv}
use ott_quic.Engine.Api.{send_to_connection, get_connection_state}
use ott_quic.Engine.Rounds.{send_to_connection-EngineInv}
use ott_quic.Client.Library.{Library, World, Answers, send_json_response, send_to_client}
use ott_quic.Client.Chunk.{Chunk, chunk_packet, chunk_loop, send_video_chunk}
use ott_quic.Client.Segments.{init_segment, send_segment}
use ott_quic.Client.Videos.{
  list_recent, list_begun, show_detail, start_stream, after_chunk, stream_chunk_of, full_path,
  send_fitting, chunk_text,
}
use ott_quic.Client.Watch.{get_watched, update_watched, updated_text}
use ott_quic.Client.Handle.{
  command_packet, send_packet, send_in_state, handle_command, handle_text_frame,
}
use ott_quic.Client.Quiet.{
  IsQuiet, send_fitting-IsQuiet, list_recent-IsQuiet, list_begun-IsQuiet, show_detail-IsQuiet,
  start_stream-IsQuiet, init_segment-IsQuiet, send_segment-IsQuiet, get_watched-IsQuiet,
}

module _ (env : ℕ → Env) (connection_id stream_id offset size : ℕ) where
  chunk_loop-EngineInv :
      (rounds : ℕ) (engine : Engine) (number : ℕ) (file : List ℕ) (sent remaining : ℕ)
      → EngineInv engine
      → EngineInv
          (chunk_loop env connection_id stream_id offset size rounds engine number file sent
            remaining).engine
  unfolding chunk_loop
  chunk_loop-EngineInv zero engine number file sent remaining inv = inv
  chunk_loop-EngineInv (suc rounds) engine number file sent remaining inv =
      let piece = take (if ltb max_payload remaining then max_payload else remaining) file in
      let packet = chunk_packet connection_id stream_id number (u32 (offset + sent)) piece in
      let r = send_to_connection (env rounds) engine packet in
      let inv' = send_to_connection-EngineInv (env rounds) engine packet inv in
      let over =
        (remaining == 0) || (not (ltb (u32 (sent + offset)) (u32 size)) || (length piece == 0)) in
      elim (Bool-cases over) [
        | inl o ↦ rw (o, chunk_loop) inv
        | inr o ↦ elim (Bool-cases (not r.0)) [
          | inl f ↦ rw (o, chunk_loop) (rw f inv')
          | inr f ↦ elim (Bool-cases (leb (u32 size) (u32 (u32 (sent + length piece) + offset)))) [
            | inl e ↦ rw (o, chunk_loop) (rw f (rw e inv'))
            | inr e ↦
                let later =
                  chunk_loop-EngineInv rounds r.1 (u32 (number + 1)) (drop (length piece) file)
                    (u32 (sent + length piece)) (remaining - length piece) inv' in
                rw (o, chunk_loop) (rw f (rw e later))
          ]
        ]
      ]

send_video_chunk-EngineInv :
    (env : ℕ → Env) (engine : Engine) (connection_id stream_id offset wanted : ℕ) (size : Option ℕ)
    (file : Option (List ℕ)) (number : ℕ)
    → EngineInv engine
    → EngineInv
        (send_video_chunk env engine connection_id stream_id offset wanted size file number).engine
unfolding send_video_chunk
send_video_chunk-EngineInv env engine c s offset wanted none file number inv = inv
send_video_chunk-EngineInv env engine c s offset wanted (some size) file number inv =
    elim (Bool-cases (leb (u32 size) offset)) [
      | inl e ↦ rw (e, send_video_chunk) inv
      | inr e ↦ elim (Option-cases file) [
        | inl f ↦ rw (e, send_video_chunk) (rw f inv)
        | inr (bytes, f) ↦
            rw (e, send_video_chunk)
              (rw f (
                chunk_loop-EngineInv env c s offset size (suc (length (drop offset bytes))) engine
                  number (drop offset bytes) 0 wanted inv))
      ]
    ]

module _ (socket : Socket) (lib : Library) where
  -- The engine is well formed, and the tables are those before, or those with the user's position
  -- in a video.
  abbrev pub IsKept : World socket lib → ℕ → Bool × World socket lib → Type 0
  IsKept w user r =
      EngineInv r.1.engine
      × ((r.1.store ≡ w.store)
          ⊎ ((is_positive user ≡ true)
              × (video : ℕ) × (position : ℕ) × (r.1.store
                  ≡ (lib.upsert_watch_history w.store user video position).1)))

  quiet-IsKept :
      (w : World socket lib) (user : ℕ) (r : Bool × World socket lib)
      → EngineInv w.engine
      → IsQuiet socket lib w r
      → IsKept w user r
  quiet-IsKept w user r inv (e, s, n) = (subst EngineInv (sym e) inv, inl s)

  send_packet-IsKept :
      (a : Answers) (w : World socket lib) (user : ℕ) (cmd : Command)
      → EngineInv w.engine
      → IsKept w user (send_packet socket lib a w cmd)
  unfolding send_packet send_json_response send_to_client
  send_packet-IsKept a w user cmd inv =
      let packet = command_packet cmd w.next_packet_number in
      let inv' = send_to_connection-EngineInv (a.env 0) w.engine packet inv in
      elim (Bool-cases (send_to_connection (a.env 0) w.engine packet).0) [
        | inl e ↦ rw (e, send_packet) (inv', inl refl)
        | inr e ↦ rw (e, send_packet) (inv', inl refl)
      ]

  send_in_state-IsKept :
      (a : Answers) (w : World socket lib) (user : ℕ) (cmd : Command) (state : Option ConnState)
      → EngineInv w.engine
      → IsKept w user (send_in_state socket lib a w cmd state)
  unfolding send_in_state send_json_response send_to_client
  send_in_state-IsKept a w user cmd none inv = (inv, inl refl)
  send_in_state-IsKept a w user cmd (some idle) inv = (inv, inl refl)
  send_in_state-IsKept a w user cmd (some connecting) inv = (inv, inl refl)
  send_in_state-IsKept a w user cmd (some connected) inv = send_packet-IsKept a w user cmd inv
  send_in_state-IsKept a w user cmd (some closed) inv = (inv, inl refl)

  after_chunk-IsKept :
      (w : World socket lib) (user : ℕ) (cmd : Command) (r : Chunk)
      → EngineInv r.engine
      → IsKept w user (after_chunk socket lib w cmd r)
  unfolding after_chunk send_json_response send_to_client
  after_chunk-IsKept w user cmd r inv =
      let w' : World socket lib = record w {
        engine = r.engine;
        events = w.events ++ r.events;
        next_packet_number = r.next_packet_number;
      } in
      elim (Bool-cases r.ok) [
        | inl e ↦
            rw (e, after_chunk)
              (quiet-IsKept w' user (send_fitting socket lib w' 128 (chunk_text cmd)) inv
                (send_fitting-IsQuiet socket lib w' 128 (chunk_text cmd)))
        | inr e ↦ rw (e, after_chunk) (inv, inl refl)
      ]

  stream_chunk_of-IsKept :
      (a : Answers) (w : World socket lib) (user : ℕ) (cmd : Command)
      → EngineInv w.engine
      → IsKept w user (stream_chunk_of socket lib a w cmd)
  unfolding stream_chunk_of send_json_response send_to_client
  stream_chunk_of-IsKept a w user cmd inv =
      elim (Option-cases (lib.get_video_by_id w.store cmd.video_id)) [
        | inl e ↦ rw (e, stream_chunk_of) (inv, inl refl)
        | inr (video, e) ↦
            let path = full_path video.file_path in
            let r =
              send_video_chunk a.env w.engine cmd.connection_id cmd.stream_id cmd.offset
                cmd.length_field (a.stat path) (a.read path) w.next_packet_number in
            rw (e, stream_chunk_of)
              (after_chunk-IsKept w user cmd r (
                send_video_chunk-EngineInv a.env w.engine cmd.connection_id cmd.stream_id cmd.offset
                  cmd.length_field (a.stat path) (a.read path) w.next_packet_number inv))
      ]

  update_watched-IsKept :
      (w : World socket lib) (user : ℕ) (cmd : Command)
      → EngineInv w.engine
      → IsKept w user (update_watched socket lib w user cmd)
  unfolding update_watched send_json_response send_to_client
  update_watched-IsKept w user cmd inv = elim (Bool-cases (is_positive user)) [
    | inr u ↦ rw (u, update_watched) (inv, inl refl)
    | inl u ↦
        let r = lib.upsert_watch_history w.store user cmd.video_id cmd.position in
        let w' : World socket lib = record w { store = r.1 } in
        elim (Bool-cases r.0) [
          | inr o ↦
              rw (u, update_watched) (rw o (inv, inr (refl, cmd.video_id, cmd.position, refl)))
          | inl o ↦
              let (e, s, n) =
                send_fitting-IsQuiet socket lib w' 128 (updated_text user cmd.position) in
              rw (u, update_watched)
                (rw o (subst EngineInv (sym e) inv, inr (refl, cmd.video_id, cmd.position, s)))
        ]
  ]

  handle_command-IsKept :
      (a : Answers) (w : World socket lib) (user : ℕ) (cmd : Command) (kind : Kind)
      → EngineInv w.engine
      → IsKept w user (handle_command socket lib a w user cmd kind)
  unfolding handle_command send_json_response send_to_client
  handle_command-IsKept a w user cmd ping inv = (inv, inl refl)
  handle_command-IsKept a w user cmd quic_send inv =
      send_in_state-IsKept a w user cmd (get_connection_state w.engine cmd.connection_id) inv
  handle_command-IsKept a w user cmd list_videos inv =
      quiet-IsKept w user (list_recent socket lib w) inv (list_recent-IsQuiet socket lib w)
  handle_command-IsKept a w user cmd list_continue inv =
      quiet-IsKept w user (list_begun socket lib w user) inv (list_begun-IsQuiet socket lib w user)
  handle_command-IsKept a w user cmd video_detail inv =
      quiet-IsKept w user (show_detail socket lib w cmd) inv (show_detail-IsQuiet socket lib w cmd)
  handle_command-IsKept a w user cmd stream_start inv =
      quiet-IsKept w user (start_stream socket lib a w cmd) inv
        (start_stream-IsQuiet socket lib a w cmd)
  handle_command-IsKept a w user cmd stream_chunk inv = stream_chunk_of-IsKept a w user cmd inv
  handle_command-IsKept a w user cmd ws_init inv =
      quiet-IsKept w user (init_segment socket lib a w cmd.video_id) inv
        (init_segment-IsQuiet socket lib a w cmd.video_id)
  handle_command-IsKept a w user cmd ws_segment inv =
      quiet-IsKept w user (send_segment socket lib a w cmd) inv
        (send_segment-IsQuiet socket lib a w cmd)
  handle_command-IsKept a w user cmd watch_get inv =
      quiet-IsKept w user (get_watched socket lib w user cmd) inv
        (get_watched-IsQuiet socket lib w user cmd)
  handle_command-IsKept a w user cmd watch_update inv = update_watched-IsKept w user cmd inv
  handle_command-IsKept a w user cmd unknown inv = (inv, inl refl)
  handle_command-IsKept a w user cmd stream_seek inv = (inv, inl refl)
  handle_command-IsKept a w user cmd stream_stop inv = (inv, inl refl)

  -- Whatever text a client sends, the engine satisfies its invariant after it was handled, and the
  -- tables are those before, or those with a position of the client's own user, who is logged in;
  -- the engine satisfies its invariant before.
  pub handle_text_frame-IsKept :
      (a : Answers) (w : World socket lib) (user : ℕ) (payload : List ℕ)
      → EngineInv w.engine
      → IsKept w user (handle_text_frame socket lib a w user payload)
  unfolding handle_text_frame send_json_response send_to_client
  handle_text_frame-IsKept a w user payload inv = elim (Bool-cases (length payload == 0)) [
    | inl z ↦ rw (z, handle_text_frame) (inv, inl refl)
    | inr z ↦ elim (Bool-cases (not a.allocated)) [
      | inl m ↦ rw (z, handle_text_frame) (rw m (inv, inl refl))
      | inr m ↦ elim (Option-cases (parse_command (c_string payload))) [
        | inl e ↦ rw (z, handle_text_frame) (rw m (rw e (inv, inl refl)))
        | inr (cmd, e) ↦
            rw (z, handle_text_frame)
              (rw m (rw e (handle_command-IsKept a w user cmd cmd.kind inv)))
      ]
    ]
  ]
