-- ===== src/Client/Tests.antt =====
-- Clients of the WebSocket.
use ott_quic.Common.{
  ℕ, ◌≡◌, refl, true, Option, none, some, List, [], ◌∷◌, ◌++◌, length, ltb, if◌then◌else◌, arith,
}
use ott_quic.Text.{Text, codes, same_text, same_exact}
use ott_quic.Http.{HttpRequest, get_header, trim_leading}
use ott_quic.Samples.Wire.{byte_wise, byte_wise_stream}
use ott_quic.WebSocket.RoundTrip.{wire}
use ott_quic.Engine.State.{Engine, Env}
use ott_quic.Engine.Api.{init}
use ott_quic.Engine.Table.{new_entry}
use ott_quic.Engine.Reach.{blank-EngineInv}
use ott_quic.Client.Library.{Library, World, Answers}
use ott_quic.Client.Chunk.{Chunk, send_video_chunk}
use ott_quic.Client.Handle.{handle_text_frame}
use ott_quic.Client.Handshake.{
  validate_websocket_request, handshake_reply, switching, header_contains_token, tokens, any_token,
}
use ott_quic.Client.Serve.{serve_round}
use ott_quic.Client.Keeps.{IsKept, handle_text_frame-IsKept}
use ott_quic.Client.Pong.{Answered, of_ping, serve_round-Answered}
use ott_quic.Client.Slices.{Sliced, send_video_chunk-Sliced}
use ott_quic.Client.Reply.{accept_value, handshake_reply-accept_value}

-- Tables of one number, the last position of the one user.
abbrev one_position : Library
one_position = record {
  Store = ℕ;
  get_video_by_id = λ (store id : ℕ). some (record { file_path = codes "a.mp4"; duration = 9 });
  recent_videos = λ (store : ℕ). some [];
  watched_videos = λ (store user : ℕ). some [];
  video_detail = λ (store id : ℕ). some none;
  get_watch_history = λ (store user video : ℕ). some store;
  upsert_watch_history = λ (store user video position : ℕ). (true, position);
}

abbrev sample_env : Env
sample_env = record { now = 0; sendto = λ (addr : ℕ) (bytes : List ℕ). none; alloc = true }

abbrev sample_answers : Answers
sample_answers = record {
  stat = λ (path : Text). none;
  read = λ (path : Text). none;
  probe_duration = λ (path : Text). codes "0.00";
  allocated = true;
  env = λ (round : ℕ). sample_env;
}

abbrev sample_engine : Engine
sample_engine = (init true true 9 true).1

abbrev world : List ℕ → World byte_wise one_position
world incoming = record {
  conn = (incoming, []);
  engine = sample_engine;
  next_packet_number = 1;
  segment_sent_ok = 0;
  segment_sent_fail = 0;
  store = 0;
  events = [];
}

abbrev update : Text
update = codes "{\"type\":\"watch_update\",\"video_id\":3,\"position\":12}"

handle_text_frame-IsKept_example :
    IsKept byte_wise one_position
      (world [])
      7
      (handle_text_frame byte_wise one_position sample_answers (world []) 7 update)
handle_text_frame-IsKept_example =
    handle_text_frame-IsKept byte_wise one_position sample_answers (world []) 7 update
      (blank-EngineInv 9 true)

abbrev ping_key : Option (ℕ × ℕ × ℕ × ℕ)
ping_key = some (1, 2, 3, 4)

serve_round-Answered_example :
    let w = world (wire true 9 ping_key (5 ∷ 6 ∷ []) ++ (0x88 ∷ [])) in
    Answered byte_wise one_position byte_wise_stream w true 10
      (5 ∷ 6 ∷ [])
      (0x88 ∷ [])
      (serve_round byte_wise one_position sample_answers w 0)
serve_round-Answered_example =
    serve_round-Answered byte_wise one_position byte_wise_stream sample_answers
      (world (wire true 9 ping_key (5 ∷ 6 ∷ []) ++ (0x88 ∷ []))) 0 9 10 true true ping_key
      (5 ∷ 6 ∷ []) (0x88 ∷ []) of_ping refl (omega arith) refl

-- The engine with connection 5 in its table, and a system that sends every datagram whole.
abbrev linked : Engine
linked = record sample_engine { connections = new_entry 0 5 77 ∷ [] }

abbrev sending_env : Env
sending_env = record {
  now = 0;
  sendto = λ (addr : ℕ) (bytes : List ℕ). some (length bytes);
  alloc = true;
}

abbrev chunk_2 : Chunk
chunk_2 =
    send_video_chunk (λ (round : ℕ). sending_env) linked 5 1 1 2 (some 3) (some (7 ∷ 8 ∷ 9 ∷ [])) 4

send_video_chunk-Sliced_example :
    Sliced (λ (round : ℕ). sending_env) 5 1 1 3 3 linked 4 0 (8 ∷ 9 ∷ []) 2 chunk_2
send_video_chunk-Sliced_example =
    send_video_chunk-Sliced (λ (round : ℕ). sending_env) linked 5 1 1 2 (7 ∷ 8 ∷ 9 ∷ []) 4
      (omega arith) (omega arith)

-- The request of RFC 6455, section 1.3.
abbrev opening : HttpRequest
opening = record {
  method = codes "GET";
  path = codes "/chat";
  version = codes "HTTP/1.1";
  headers =
      record { name = codes "upgrade"; value = codes "websocket" }
      ∷ record { name = codes "connection"; value = codes "keep-alive, Upgrade" }
      ∷ record { name = codes "sec-websocket-version"; value = codes "13" }
      ∷ record { name = codes "sec-websocket-key"; value = codes "dGhlIHNhbXBsZSBub25jZQ==" }
      ∷ [];
}

opening_valid : validate_websocket_request opening ≡ true
unfolding validate_websocket_request get_header same_text same_exact header_contains_token tokens
    any_token trim_leading
opening_valid = refl

handshake_reply-accept_value_example :
    (key : Text) × (get_header opening.headers (codes "sec-websocket-key") ≡ some key)
    × (handshake_reply opening
        ≡ (if ltb (length key) 92 then some (switching (accept_value key)) else none))
    × (accept_value (codes "dGhlIHNhbXBsZSBub25jZQ==") ≡ codes "s3pPLMBiTxaQ9kYGzzhZRbK+xOo=")
handshake_reply-accept_value_example = handshake_reply-accept_value opening opening_valid
